-- ===== src/Markers/Usages.antt =====
-- What scripts/check_topology_markers.py finds that a function requires.
use native.Mathlib.Nat.{le_trans}
use couchbase_lite_tests.Prelude.{
  ℕ, ◌≤◌, ◌≡◌, refl, Bool, true, false, Option, none, some, List, [], ◌∷◌, String, ℤ, arith, eq_iff,
  string_eq, ◌==◌, if◌then◌else◌, All, All-weaken,
}
use couchbase_lite_tests.Prelude.Dict.{Dict, lookup, lookup-insert}
use couchbase_lite_tests.Syntax.{attribute, subscript, Visit, walk}
use couchbase_lite_tests.Markers.{
  FunctionDef, infer_type, member_marker, constant_int_index, Usage, get_or_zero, max, require,
  needed_for, add_dynamic, add_index, add_usage, local_usage, type_env, require_all, function_usage,
}

get_or_zero-require :
    (m marker : String) (needed : ℕ) (required : Dict ℕ)
    → get_or_zero m (require marker needed required)
      ≡ (if marker == m then max (get_or_zero marker required) needed else get_or_zero m required)
unfolding require
get_or_zero-require m marker needed required =
    rw (get_or_zero, lookup-insert m marker (max (get_or_zero marker required) needed) required)
      (by_key (marker == m))
  where
    by_key :
        (b : Bool)
        → (elim (if b then some (max (get_or_zero marker required) needed) else lookup m required) [
          | none ↦ 0
          | some n ↦ n
        ])
          ≡ (if b then max (get_or_zero marker required) needed else get_or_zero m required)
    by_key true = refl
    by_key false = refl

require-grows :
    (m marker : String) (needed : ℕ) (required : Dict ℕ)
    → get_or_zero m required ≤ get_or_zero m (require marker needed required)
require-grows m marker needed required =
    rw (get_or_zero-require m marker needed required) (by_key (marker == m) refl)
  where
    by_key :
        (b : Bool)
        → (marker == m) ≡ b
        → get_or_zero m required
          ≤ (if b then max (get_or_zero marker required) needed else get_or_zero m required)
    by_key true h = rw (← (eq_iff marker m).0 h) (ground arith)
    by_key false h = omega arith

require-enough :
    (marker : String) (needed : ℕ) (required : Dict ℕ)
    → needed ≤ get_or_zero marker (require marker needed required)
require-enough marker needed required =
    rw (get_or_zero-require marker marker needed required, (eq_iff marker marker).1 refl)
      (ground arith)

-- At least as much is required of the marker.
abbrev Grows : String → Usage → Usage → Type 0
Grows m u w = get_or_zero m u.required ≤ get_or_zero m w.required

add_index-Grows :
    (m : String) (marker : Option String) (index : Option ℤ) (u : Usage)
    → Grows m u (add_index marker index u)
add_index-Grows m none index u = omega arith
add_index-Grows m (some marker) none u = omega arith
add_index-Grows m (some marker) (some index) u =
    require-grows m marker (needed_for index) u.required

add_dynamic-Grows :
    (m : String) (marker : Option String) (u : Usage) → Grows m u (add_dynamic marker u)
add_dynamic-Grows m none u = omega arith
add_dynamic-Grows m (some marker) u = omega arith

add_usage-Grows :
    (m : String) (env : Dict String) (v : Visit) (u : Usage) → Grows m u (add_usage env v u)
unfolding add_usage
add_usage-Grows m env (marked, subscript (attribute value attr) slice) u =
    add_index-Grows m (member_marker (infer_type value env) attr) (constant_int_index slice) u
add_usage-Grows m env (false, attribute value attr) u =
    add_dynamic-Grows m (member_marker (infer_type value env) attr) u
add_usage-Grows m env _ u = omega arith

local_usage-Grows :
    (m : String) (env : Dict String) (visits : List Visit) (u : Usage)
    → Grows m u (local_usage env visits u)
unfolding local_usage
local_usage-Grows m env [] u = omega arith
local_usage-Grows m env (v ∷ visits) u =
    le_trans (add_usage-Grows m env v u) (local_usage-Grows m env visits (add_usage env v u))

-- What is required of the marker is at least the index's need, where both are known.
abbrev pub IndexRequired : Option String → Option ℤ → Usage → Type 0
IndexRequired (some marker) (some index) u = needed_for index ≤ get_or_zero marker u.required
IndexRequired _ _ u = Unit

abbrev pub IsRequired : Dict String → Usage → Visit → Type 0
IsRequired env u (marked, subscript (attribute value attr) slice) =
    IndexRequired (member_marker (infer_type value env) attr) (constant_int_index slice) u
IsRequired env u _ = Unit

IndexRequired-Grows :
    (marker : Option String) (index : Option ℤ) (u w : Usage)
    → ((m : String) → Grows m u w)
    → IndexRequired marker index u
    → IndexRequired marker index w
IndexRequired-Grows (some marker) (some index) u w grows h = le_trans h (grows marker)
IndexRequired-Grows _ _ u w grows h = tt

IsRequired-Grows :
    (env : Dict String) (v : Visit) (u w : Usage)
    → ((m : String) → Grows m u w)
    → IsRequired env u v
    → IsRequired env w v
IsRequired-Grows env (marked, subscript (attribute value attr) slice) u w grows h =
    IndexRequired-Grows (member_marker (infer_type value env) attr) (constant_int_index slice) u w
      grows h
IsRequired-Grows env _ u w grows h = tt

add_index-IndexRequired :
    (marker : Option String) (index : Option ℤ) (u : Usage)
    → IndexRequired marker index (add_index marker index u)
add_index-IndexRequired (some marker) (some index) u =
    require-enough marker (needed_for index) u.required
add_index-IndexRequired (some marker) none u = tt
add_index-IndexRequired none index u = tt

add_usage-IsRequired :
    (env : Dict String) (v : Visit) (u : Usage) → IsRequired env (add_usage env v u) v
unfolding add_usage
add_usage-IsRequired env (marked, subscript (attribute value attr) slice) u =
    add_index-IndexRequired (member_marker (infer_type value env) attr) (constant_int_index slice) u
add_usage-IsRequired env _ u = tt

local_usage-IsRequired :
    (env : Dict String) (visits : List Visit) (u : Usage)
    → All (IsRequired env (local_usage env visits u)) visits
unfolding local_usage
local_usage-IsRequired env [] u = tt
local_usage-IsRequired env (v ∷ visits) u =
    let first = add_usage env v u in
    (
      IsRequired-Grows env v first (local_usage env visits first)
          (λ m. local_usage-Grows m env visits first) (add_usage-IsRequired env v u),
      local_usage-IsRequired env visits first,
    )

require_all-grows :
    (m : String) (more required : Dict ℕ)
    → get_or_zero m required ≤ get_or_zero m (require_all more required)
require_all-grows m [] required = omega arith
require_all-grows m ((marker, needed) ∷ more) required =
    le_trans (require-grows m marker needed required)
      (require_all-grows m more (require marker needed required))

pub function_usage-IsRequired :
    (helpers : Usage) (f : FunctionDef)
    → All (IsRequired (type_env f) (function_usage helpers f)) (walk f.tree)
unfolding function_usage
function_usage-IsRequired helpers f =
    let env = type_env f in
    let used = local_usage env (walk f.tree) (record { required = []; dynamic = [] }) in
    All-weaken (IsRequired env used) (IsRequired env (function_usage helpers f)) (walk f.tree)
      (λ v h.
        IsRequired-Grows env v used (function_usage helpers f)
          (λ m. require_all-grows m helpers.required used.required) h)
      (local_usage-IsRequired env (walk f.tree) (record { required = []; dynamic = [] }))
