-- ===== src/Prelude/Json.antt =====
-- Python's view of parsed JSON. A float is a whole number of ticks, a fixed unit so small that
-- every finite float is a whole number of them, or not finite (JSON of Python admits NaN).
-- A dict has distinct keys, in insertion order.
use Prim.Native.String.{String}
use mathlib.Core.Path.{◌≡◌, refl}
use mathlib.Core.Bool.{Bool}
use mathlib.Core.Option.{Option, none, some}
use mathlib.Core.List.{List, [], ◌∷◌}
use native.Mathlib.Omega.{arith}
use text.Mathlib.Text.{◌==◌}
use text.Mathlib.TextEquality.{eq_iff}
use local_gpu_cluster.Prelude.Tests.{if◌then◌else◌}
use local_gpu_cluster.Prelude.Int.{ℤ}

pub data Float : Type 0 where
  finite : ℤ → Float
  not_finite : Float

mutual
  pub data Value : Type 0 where
    null : Value
    bool : (flag : Bool) → Value
    int : (number : ℤ) → Value
    float : (real : Float) → Value
    str : (text : String) → Value
    obj : (fields : Fields) → Value
    arr : (items : Items) → Value

  pub data Fields : Type 0 where
    end : Fields
    field : (name : String) (value : Value) (rest : Fields) → Fields

  pub data Items : Type 0 where
    nil : Items
    cons : (first : Value) (rest : Items) → Items

abbrev pub to_list : Items → List Value
to_list nil = []
to_list (cons v vs) = v ∷ to_list vs

-- d.get(k)
unfoldable pub get : String → Fields → Option Value
get k end = none
get k (field j v fs) = if j == k then some v else get k fs

-- {**d, k: v}
unfoldable pub put : String → Value → Fields → Fields
put k v end = field k v end
put k v (field j w fs) = if j == k then field j v fs else field j w (put k v fs)

pub get-put :
    (k j : String) (v : Value) (fs : Fields)
    → get j (put k v fs) ≡ (if k == j then some v else get j fs)
unfolding get put
get-put k j v end = refl
get-put k j v (field i w fs) = ground (arith, eq_iff k j, eq_iff i k, eq_iff i j, get-put k j v fs)
