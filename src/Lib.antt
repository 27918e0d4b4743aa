-- ===== src/Lib.antt =====
-- local-gpu-cluster: the parts of the router's host that decide, as a model with its theorems.
--
-- The router (scripts/files/router-app.py) stands before a local chat server. It authenticates
-- each request, checks what the request carries, admits it to one of a few slots, and hands some
-- requests to other services. Around it, tools issue its keys and refresh the documents of a RAG
-- workspace. Each part below is one module, a parent file with children in the directory of its
-- name.
--
-- Prelude: the names that all files share. Numbers are the native natural numbers; `Prelude.Int`
--   has Python's integers, `Prelude.Text` text as code points and `Prelude.Json` parsed JSON.
-- Admission: scripts/files/stream_admission.py and scripts/files/workforce_lane.py. `Gate` is
--   AdmissionGate, `Lane` is ReservedLane, and `System` has the requests that compete for them:
--   one move is the code between two suspension points, so every interleaving of the event loop is
--   a sequence of moves. `HoldSlot` is hold_slot and `Refresh` refresh_capacity_once.
-- AccessKeys: scripts/files/access_keys.py (`Principal`, `Store`), the middleware require_bearer
--   of scripts/files/router-app.py (`Bearer`), and scripts/files/router-keys.py (`RouterKeys`),
--   which writes the keys file that `Store` reads; `Entries` has what it keeps of that file,
--   `Served` the cache that earlier requests leave. The file, the clock and SHA-256 are arguments.
-- VisionGuard: scripts/files/vision_guard.py. `Check`, `Chat` and `Anthropic` are the checks of
--   what a request's messages carry, `Completions` that of a prompt, `Body` the capped read.
-- TavilyCache: scripts/files/tavily_cache.py. `Ordered` is what it uses of OrderedDict, `Cache`
--   its operations; `History` compares a run with the log of what was stored.
-- RagRefresh: scripts/rag/lib/plan.py (`Plan`) and scripts/rag/refresh.py (`Batches`, `Apply`).
--   The handler, the document server and its replies are arguments, so a theorem holds for every
--   pattern of failed uploads and embedding calls.
-- AliasDefaults: scripts/files/alias_defaults.py. `Fill` is `apply_alias_defaults`, with `none`
--   for the AttributeError of a `chat_template_kwargs` that is not a dict; the alias's entry is an
--   argument.
-- Dashboard: scripts/files/live_dashboard/tracker.py (`Row`, `Tracker`, `Journal`, `Polling`) and
--   scripts/files/live_dashboard/history.py (`History`), which stores the rows that the tracker
--   finishes; the write of `_lost` by a rejected add while a flush reads and clears it is left
--   out. `Rows` has the invariant of the tracker, `Held`, `Flush`, `Drained` and `Outage` what the
--   writer keeps.
-- FetchGuard: scripts/files/web_fetch_guard.py. `Address` has the blocked networks as ranges of
--   numbers, `Fetch` the checks and the loop over redirects; the resolver and the servers are
--   arguments that may answer each hop differently.
-- Runner: scripts/files/agent_runner_dispatch.py. `Pick` is the choice of a task, `Relabel` the
--   edit of an issue's labels with its retries, `Dispatch` how a run ends. GitHub, the checkout,
--   the agent and the parsing of what it printed are arguments.
-- Swap: the swap of the loaded profile. `Profiles` and `Webhook` are
--   scripts/files/swap-webhook.py, whose threads meet at the lock and at the cache of profile
--   names; `Trigger` is what scripts/files/router-app.py does to ask for a swap and to wait for
--   it.
-- ToolLoop: the tools that the router runs itself, in scripts/files/router-app.py. `Accumulator`
--   is ToolCallAccumulator, `Events` the reading of a stream, `Dispatch` dispatch_tool, `Stream`
--   and `Nonstream` the two loops. The upstream, the clock and the tools' handlers are arguments;
--   what an answer makes the loops raise is a value. `dispatch_tool` and the log are taken to
--   raise nothing.
-- ChatRoute: `chat` of scripts/files/router-app.py. `Alias` and `Text` are what it asks of the
--   model's name and of the messages, `Route` its stages, up to the way in which a request is sent
--   on: ToolLoop, the upstream, or a swap. It calls AccessKeys, AliasDefaults and VisionGuard.
-- Escalation: scripts/files/escalation.py. `Budget` is check_budget, `Ledger` the rows of the file
--   and the reservations, `Breaker` the streak of refusals and the duplicates, `Post` the two
--   attempts of _post, and `Handle` puts them together as handle does. `Caps` has the calls of one
--   day as a relation, in which reservations, settlements and refusals come in any order.
--
-- Bounds and fuel: most loops of the source are recursion on a list here. The others have fuel.
-- The chunks of `Batches` and the events that `ToolLoop.Events` cuts off a buffer have a length as
-- fuel, which is enough because each takes at least one element. The rounds of the tool loop, the
-- requests of a fetch and the tries of a label edit are counted by the source itself. The wait for
-- a swap has 16 rounds, enough where each takes at least the second that it sleeps. Floats are
-- whole numbers of a small unit: ticks for times, one unit of money for costs, a ratio of two
-- numbers for the threshold of deletions; rounding is not modelled.
--
-- Not modelled: reading and writing of files and sockets, the text of messages and logs, the
-- metrics, the router's other routes, the brief checks of an escalation, the parsing that the
-- dispatcher of the agent runner does, the dashboard's collectors and server, the tools under
-- vcf-spec-tools and scripts/tools, and the provisioning scripts. Left out of the definitions:
-- white space beyond Latin-1 where a header or a script is stripped, a resolver's address that
-- Python parses with a scope but not without, the RecursionError of a deeply nested keys file, a
-- script of the profiles that is no UTF-8, and the rounding of a progress.
pub mod Prelude
pub mod Admission
pub mod AccessKeys
pub mod AliasDefaults
pub mod ChatRoute
pub mod Dashboard
pub mod Escalation
pub mod FetchGuard
pub mod RagRefresh
pub mod Runner
pub mod Swap
pub mod TavilyCache
pub mod ToolLoop
pub mod VisionGuard
