-- ===== src/Prelude/IntDict.antt =====
-- Python's `dict` with integer keys, in insertion order.
use mathlib.Core.Path.{◌≡◌, refl}
use mathlib.Core.Option.{Option, none, some}
use mathlib.Core.List.{List, [], ◌∷◌, map}
use native.Mathlib.Omega.{arith}
use couchbase_lite_tests.Prelude.Tests.{◌==◌, if◌then◌else◌}
use couchbase_lite_tests.Prelude.Int.{ℤ, int_eq, int_beq_iff}

abbrev pub IntDict {ℓ} : Type ℓ → Type ℓ
IntDict V = List (ℤ × V)

module _ {ℓ} {V : Type ℓ} where
  abbrev pub int_keys : IntDict V → List ℤ
  int_keys = map (λ e. e.0)

  -- `d.get(k)`; `d[k]` is a `KeyError` where it is `none`
  unfoldable pub find : ℤ → IntDict V → Option V
  find k [] = none
  find k ((j, v) ∷ d) = if j == k then some v else find k d

  -- `d[k] = v`
  unfoldable pub put : ℤ → V → IntDict V → IntDict V
  put k v [] = (k, v) ∷ []
  put k v ((j, w) ∷ d) = if j == k then (j, v) ∷ d else (j, w) ∷ put k v d

  -- `d.pop(k, None)`
  unfoldable pub remove : ℤ → IntDict V → IntDict V
  remove k [] = []
  remove k ((j, w) ∷ d) = let rest = remove k d in if j == k then rest else (j, w) ∷ rest

  pub find-put :
      (j k : ℤ) (v : V) (d : IntDict V) → find j (put k v d) ≡ (if k == j then some v else find j d)
  unfolding find put
  find-put j k v [] = refl
  find-put j k v ((i, w) ∷ d) =
      ground (arith, int_beq_iff i k, int_beq_iff k j, int_beq_iff i j, find-put j k v d)

  pub find-remove :
      (j k : ℤ) (d : IntDict V) → find j (remove k d) ≡ (if k == j then none else find j d)
  unfolding find remove
  find-remove j k [] = ground arith
  find-remove j k ((i, w) ∷ d) =
      ground (arith, int_beq_iff i k, int_beq_iff k j, int_beq_iff i j, find-remove j k d)
