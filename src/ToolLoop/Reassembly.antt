-- ===== src/ToolLoop/Reassembly.antt =====
-- What `ToolCallAccumulator` of scripts/files/router-app.py makes of a stream of deltas: the
-- fragments of each call put together, whatever lies between them.
use Prim.Native.String.{◌++◌ as ◌+s◌}
use text.Mathlib.TextLemmas.{append-nil, append_assoc, nil-append}
use text.Mathlib.TextEquality.{eq_iff}
use local_gpu_cluster.Prelude.{
  ℕ, ◌≡◌, refl, sym, ◌∙◌, String, Bool, false, ◌||◌, Option, none, some, List, [], ◌∷◌, ◌++◌, ◌==◌,
  if◌then◌else◌, arith,
}
use local_gpu_cluster.ToolLoop.Accumulator.{
  Fragment, Call, Calls, blank, truthy, replaced, extended, merge, feed_one, feed,
}

abbrev pub lookup : ℕ → Calls → Option Call
lookup i [] = none
lookup i ((j, c) ∷ cs) = if j == i then some c else lookup i cs

abbrev pub keys : Calls → List ℕ
keys [] = []
keys ((i, c) ∷ cs) = i ∷ keys cs

abbrev pub mem : ℕ → List ℕ → Bool
mem i [] = false
mem i (j ∷ js) = (j == i) || mem i js

-- The call that the fragments of one index describe, put together on their own.
abbrev pub assemble : ℕ → List Fragment → Option Call → Option Call
assemble i [] c = c
assemble i (f ∷ fs) none = assemble i fs (if f.index == i then some (merge f blank) else none)
assemble i (f ∷ fs) (some c) = assemble i fs (if f.index == i then some (merge f c) else some c)

-- The indices in the order of their first fragments, behind those that are there.
abbrev pub first_seen : List Fragment → List ℕ → List ℕ
first_seen [] is = is
first_seen (f ∷ fs) is = first_seen fs (if mem f.index is then is else is ++ f.index ∷ [])

lookup-feed_one :
    (i : ℕ) (f : Fragment) (cs : Calls)
    → lookup i (feed_one f cs)
      ≡ (if f.index == i then assemble i (f ∷ []) (lookup i cs) else lookup i cs)
unfolding feed_one
lookup-feed_one i f [] = ground arith
lookup-feed_one i f ((j, c) ∷ cs) = ground (arith, lookup-feed_one i f cs)

keys-feed_one :
    (f : Fragment) (cs : Calls)
    → keys (feed_one f cs) ≡ (if mem f.index (keys cs) then keys cs else keys cs ++ f.index ∷ [])
unfolding feed_one
keys-feed_one f [] = refl
keys-feed_one f ((j, c) ∷ cs) = ground (arith, keys-feed_one f cs)

feed-assemble :
    (fs : List Fragment) (cs : Calls) (i : ℕ) → lookup i (feed fs cs) ≡ assemble i fs (lookup i cs)
unfolding feed
feed-assemble [] cs i = refl
feed-assemble (f ∷ fs) cs i =
    ground (arith, feed-assemble fs (feed_one f cs) i, lookup-feed_one i f cs)

keys-feed : (fs : List Fragment) (cs : Calls) → keys (feed fs cs) ≡ first_seen fs (keys cs)
unfolding feed
keys-feed [] cs = refl
keys-feed (f ∷ fs) cs = ground (arith, keys-feed fs (feed_one f cs), keys-feed_one f cs)

-- The fragments of one index, in their order.
abbrev pub of_index : ℕ → List Fragment → List Fragment
of_index i [] = []
of_index i (f ∷ fs) = let rest = of_index i fs in if f.index == i then f ∷ rest else rest

abbrev pub piece : Option String → String
piece none = ""
piece (some s) = s

-- The arguments of all fragments, one after the other.
abbrev pub joined : List Fragment → String
joined [] = ""
joined (f ∷ fs) = piece f.arguments +s joined fs

-- The last value that is not empty.
abbrev pub last_true : (Fragment → Option String) → List Fragment → Option String
last_true of [] = none
last_true of (f ∷ fs) = replaced (truthy (of f)) (last_true of fs)

-- The call that the fragments of one index describe.
abbrev pub described : List Fragment → Option Call
described [] = none
described (f ∷ fs) = some (record {
  id = last_true (λ g. g.id) (f ∷ fs);
  name = last_true (λ g. g.name) (f ∷ fs);
  arguments = joined (f ∷ fs);
})

extended-text : (old : String) (new : Option String) → extended old (truthy new) ≡ old +s piece new
extended-text old none = sym (append-nil old)
extended-text old (some s) = ground (arith, eq_iff s "", append-nil old)

replaced_assoc : (a b c : Option String) → replaced (replaced a b) c ≡ replaced a (replaced b c)
replaced_assoc a b none = refl
replaced_assoc a b (some s) = refl

replaced-none : (o : Option String) → replaced none o ≡ o
replaced-none none = refl
replaced-none (some s) = refl

abbrev continued : Call → List Fragment → Call
continued c fs = record {
  id = replaced c.id (last_true (λ g. g.id) fs);
  name = replaced c.name (last_true (λ g. g.name) fs);
  arguments = c.arguments +s joined fs;
}

merge-continued :
    (f : Fragment) (fs : List Fragment) (c : Call) → continued (merge f c) fs ≡ continued c (f ∷ fs)
unfolding merge
merge-continued f fs c = ground (
  arith,
  extended-text c.arguments f.arguments,
  append_assoc c.arguments (piece f.arguments) (joined fs),
  replaced_assoc c.id (truthy f.id) (last_true (λ g. g.id) fs),
  replaced_assoc c.name (truthy f.name) (last_true (λ g. g.name) fs),
)

assemble-continued :
    (i : ℕ) (fs : List Fragment) (c : Call)
    → assemble i fs (some c) ≡ some (continued c (of_index i fs))
assemble-continued i [] c = ground (arith, append-nil c.arguments)
assemble-continued i (f ∷ fs) c = ground (
  arith,
  assemble-continued i fs c,
  assemble-continued i fs (merge f c),
  merge-continued f (of_index i fs) c,
)

continued-blank :
    (f : Fragment) (fs : List Fragment) → some (continued blank (f ∷ fs)) ≡ described (f ∷ fs)
continued-blank f fs = ground (
  arith,
  nil-append (joined (f ∷ fs)),
  replaced-none (last_true (λ g. g.id) (f ∷ fs)),
  replaced-none (last_true (λ g. g.name) (f ∷ fs)),
)

assemble-described : (i : ℕ) (fs : List Fragment) → assemble i fs none ≡ described (of_index i fs)
assemble-described i [] = refl
assemble-described i (f ∷ fs) = ground (
  arith,
  assemble-described i fs,
  assemble-continued i fs (merge f blank),
  merge-continued f (of_index i fs) blank,
  continued-blank f (of_index i fs),
)

-- Whatever the deltas and however those of different calls mix, every index has in the end the
-- call that its own fragments describe: their arguments one after the other, and the last
-- identifier and the last name that are not empty; an index without fragments has none. The
-- calls stand in the order of their first fragments, each index once.
pub feed-Reassembles :
    (fs : List Fragment)
    → ((i : ℕ) → lookup i (feed fs []) ≡ described (of_index i fs))
      × (keys (feed fs []) ≡ first_seen fs [])
feed-Reassembles fs = (λ i. feed-assemble fs [] i ∙ assemble-described i fs, keys-feed fs [])

-- Where the stream is cut into deltas does not matter.
pub feed-append : (fs gs : List Fragment) (cs : Calls) → feed (fs ++ gs) cs ≡ feed gs (feed fs cs)
unfolding feed
feed-append [] gs cs = refl
feed-append (f ∷ fs) gs cs = feed-append fs gs (feed_one f cs)
