-- ===== src/ToolLoop/Dispatch.antt =====
-- `dispatch_tool` and the choice of a format in `_format_tool_result` of
-- scripts/files/router-app.py. The text that a formatter writes is named by the formatter, and
-- `raised` is an exception of the handler or of the formatter.
use local_gpu_cluster.Prelude.{
  String, Bool, true, false, ◌||◌, Option, none, some, str_eq, if◌then◌else◌,
}
use local_gpu_cluster.Prelude.Json.{Value, obj, Fields, end, get}

-- The content of a role:"tool" message.
pub data Output : Type 0 where
  unknown_tool : (name : Option String) → Output
  invalid_json_arguments arguments_must_be_object tool_execution_failed : Output
  json_dumps : (result : Value) → Output
  tavily_search tavily_extract tavily_crawl_map : (result : Fields) → Output

pub data Outcome : Type 0 where
  returned : (result : Value) → Outcome
  raised : Outcome

-- The keys of TOOLS.
unfoldable pub registered : String → Bool
registered n =
    str_eq n "tavily_search"
    || str_eq n "tavily_extract"
    || str_eq n "tavily_crawl"
    || str_eq n "tavily_map"
    || str_eq n "web_fetch"

abbrev pub known : Option String → Bool
known none = false
known (some n) = registered n

-- "error" in result
abbrev pub holds_error : Option Value → Bool
holds_error none = false
holds_error (some v) = true

abbrev pub format_fields : String → Fields → Output
format_fields n r =
    if holds_error (get "error" r)
    then json_dumps (obj r)
    else if str_eq n "tavily_search"
    then tavily_search r
    else if str_eq n "tavily_extract"
    then tavily_extract r
    else if str_eq n "tavily_crawl" || str_eq n "tavily_map"
    then tavily_crawl_map r
    else json_dumps (obj r)

unfoldable pub format_tool_result : String → Value → Output
format_tool_result n (obj r) = format_fields n r
format_tool_result n v = json_dumps v

module _ (json_loads : String → Option Value) (handler : String → Fields → Outcome) where
  abbrev pub load_arguments : String → Option Value
  load_arguments s = if str_eq s "" then some (obj end) else json_loads s

  abbrev pub finish_tool : String → Outcome → Output
  finish_tool n (returned v) = format_tool_result n v
  finish_tool n raised = tool_execution_failed

  abbrev pub call_tool : String → Option Value → Output
  call_tool n none = invalid_json_arguments
  call_tool n (some (obj args)) = finish_tool n (handler n args)
  call_tool n (some v) = arguments_must_be_object

  abbrev pub dispatch_named : Option String → String → Output
  dispatch_named none args_json = unknown_tool none
  dispatch_named (some n) args_json = call_tool n (load_arguments args_json)

  unfoldable pub dispatch_tool : Option String → String → Output
  dispatch_tool name args_json =
      if known name then dispatch_named name args_json else unknown_tool name
