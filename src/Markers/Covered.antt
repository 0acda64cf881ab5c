-- ===== src/Markers/Covered.antt =====
-- What it means that scripts/check_topology_markers.py has nothing to report.
use mathlib.Core.Path.{subst}
use couchbase_lite_tests.Prelude.{
  ℕ, suc, ◌≤◌, ◌<◌, ◌≡◌, ◌⊎◌, inl, inr, refl, Bool, true, false, Option, none, some, List, [], ◌∷◌,
  ◌++◌, String, codes, starts_with, ℤ, pos, negsuc, arith, eq_iff, string_eq, ◌==◌, if◌then◌else◌,
  All, All-weaken,
}
use couchbase_lite_tests.Prelude.Dict.{Dict, lookup}
use couchbase_lite_tests.Markers.Usages.{IndexRequired, IsRequired, function_usage-IsRequired}
use couchbase_lite_tests.Syntax.{attribute, subscript, Visit, walk}
use couchbase_lite_tests.Markers.{
  FunctionDef, infer_type, member_marker, constant_int_index, Usage, get_or_zero, needed_for,
  type_env, index_violation, needs_no_marker, index_violations, list_violations, declared_markers,
  function_usage, check_function,
}

-- Nothing is to be reported of the marker and what is required of it.
abbrev IsDeclared : Dict ℕ → String → ℕ → Type 0
IsDeclared declared marker needed =
    (needs_no_marker marker needed ≡ true)
    ⊎ ((have : ℕ) × (lookup marker declared ≡ some have) × (needed ≤ have))

index_violation-IsDeclared :
    (declared : Dict ℕ) (marker : String) (needed : ℕ)
    → index_violation marker needed (lookup marker declared) ≡ []
    → (have : ℕ) × (lookup marker declared ≡ some have) × (needed ≤ have)
index_violation-IsDeclared declared marker needed h = with_declared (lookup marker declared) h
  where
    with_declared :
        (found : Option ℕ)
        → index_violation marker needed found ≡ []
        → (have : ℕ) × (found ≡ some have) × (needed ≤ have)
    with_declared none e = cc
    with_declared (some have) e = (have, refl, ground arith)

both_nil {ℓ} : {A : Type ℓ} (xs ys : List A) → xs ++ ys ≡ [] → (xs ≡ []) × (ys ≡ [])
both_nil [] ys h = (refl, h)
both_nil (x ∷ xs) ys h = cc

index_violations-IsDeclared :
    (declared required : Dict ℕ) (marker : String) (needed : ℕ)
    → index_violations declared required ≡ []
    → lookup marker required ≡ some needed
    → IsDeclared declared marker needed
unfolding index_violations lookup
index_violations-IsDeclared declared [] marker needed h e = cc
index_violations-IsDeclared declared ((m, n) ∷ required) marker needed h e =
    let (here, later) = first_nothing (needs_no_marker m n) refl h in
    by_key (m == marker) refl e here
      (λ found. index_violations-IsDeclared declared required marker needed later found)
  where
    first_nothing :
        (b : Bool)
        → needs_no_marker m n ≡ b
        → (if b
            then index_violations declared required
            else index_violation m n (lookup m declared) ++ index_violations declared required)
          ≡ []
        → IsDeclared declared m n × (index_violations declared required ≡ [])
    first_nothing true no_marker nothing = (inl no_marker, nothing)
    first_nothing false a_marker nothing =
        let (own, others) =
          both_nil (index_violation m n (lookup m declared)) (index_violations declared required)
            nothing in
        (inr (index_violation-IsDeclared declared m n own), others)

    by_key :
        (b : Bool)
        → (m == marker) ≡ b
        → (if b then some n else lookup marker required) ≡ some needed
        → IsDeclared declared m n
        → (lookup marker required ≡ some needed → IsDeclared declared marker needed)
        → IsDeclared declared marker needed
    by_key true key found here later =
        let same_need : n ≡ needed = cc in
        subst (λ k. IsDeclared declared marker k) same_need
          (subst (λ k. IsDeclared declared k n) ((eq_iff m marker).0 key) here)
    by_key false key found here later = later found

IsDeclared-less :
    (declared : Dict ℕ) (marker : String) (needed n : ℕ)
    → needed ≤ n
    → IsDeclared declared marker n
    → IsDeclared declared marker needed
IsDeclared-less declared marker needed n l (inl h) = inl (ground arith)
IsDeclared-less declared marker needed n l (inr (have, e, m)) = inr (have, e, omega arith)

-- The marker is declared with enough for the index, or the index is the first or the last one of the
-- clusters. `negsuc k` counts from the end: it is the index -(k + 1).
abbrev pub AtIndex : Dict ℕ → String → ℤ → Type 0
AtIndex declared marker (pos k) =
    ((marker ≡ "min_clusters") × (k ≡ 0))
    ⊎ ((have : ℕ) × (lookup marker declared ≡ some have) × (k < have))
AtIndex declared marker (negsuc k) =
    ((marker ≡ "min_clusters") × (k ≡ 0))
    ⊎ ((have : ℕ) × (lookup marker declared ≡ some have) × (suc k ≤ have))

-- An index that the check can tell, of a list that it knows, is covered by a marker.
abbrev pub IndexCovered : Dict ℕ → Option String → Option ℤ → Type 0
IndexCovered declared (some marker) (some index) = AtIndex declared marker index
IndexCovered declared _ _ = Unit

abbrev pub IsCovered : Dict ℕ → Dict String → Visit → Type 0
IsCovered declared env (marked, subscript (attribute value attr) slice) =
    IndexCovered declared (member_marker (infer_type value env) attr) (constant_int_index slice)
IsCovered declared env _ = Unit

required-IsDeclared :
    (declared required : Dict ℕ) (marker : String) (k : ℕ)
    → index_violations declared required ≡ []
    → suc k ≤ get_or_zero marker required
    → IsDeclared declared marker (suc k)
required-IsDeclared declared required marker k h l = with_required (lookup marker required) refl l
  where
    with_required :
        (found : Option ℕ)
        → lookup marker required ≡ found
        → suc k ≤ (elim found [ none ↦ 0 | some n ↦ n ])
        → IsDeclared declared marker (suc k)
    with_required none e m = absurd (omega arith)
    with_required (some n) e m =
        IsDeclared-less declared marker (suc k) n m
          (index_violations-IsDeclared declared required marker n h e)

IsDeclared-AtIndex :
    (declared : Dict ℕ) (marker : String) (index : ℤ)
    → IsDeclared declared marker (needed_for index)
    → AtIndex declared marker index
IsDeclared-AtIndex declared marker (pos k) (inl no_marker) =
    inl (ground (arith, eq_iff marker "min_clusters"), ground arith)
IsDeclared-AtIndex declared marker (negsuc k) (inl no_marker) =
    inl (ground (arith, eq_iff marker "min_clusters"), ground arith)
IsDeclared-AtIndex declared marker (pos k) (inr (have, e, l)) = inr (have, e, omega arith)
IsDeclared-AtIndex declared marker (negsuc k) (inr (have, e, l)) = inr (have, e, l)

IndexRequired-IndexCovered :
    (declared : Dict ℕ) (marker : Option String) (index : Option ℤ) (u : Usage)
    → index_violations declared u.required ≡ []
    → IndexRequired marker index u
    → IndexCovered declared marker index
IndexRequired-IndexCovered declared (some marker) (some (pos k)) u h l =
    IsDeclared-AtIndex declared marker (pos k)
      (required-IsDeclared declared u.required marker k h l)
IndexRequired-IndexCovered declared (some marker) (some (negsuc k)) u h l =
    IsDeclared-AtIndex declared marker (negsuc k)
      (required-IsDeclared declared u.required marker k h l)
IndexRequired-IndexCovered declared (some marker) none u h l = tt
IndexRequired-IndexCovered declared none index u h l = tt

IsRequired-IsCovered :
    (declared : Dict ℕ) (env : Dict String) (u : Usage) (v : Visit)
    → index_violations declared u.required ≡ []
    → IsRequired env u v
    → IsCovered declared env v
IsRequired-IsCovered declared env u (marked, subscript (attribute value attr) slice) h l =
    IndexRequired-IndexCovered declared (member_marker (infer_type value env) attr)
      (constant_int_index slice) u h l
IsRequired-IsCovered declared env u _ h l = tt

-- Where nothing is reported of a test, whatever its helpers use, each constant index in it, of a list of
-- the topology on a receiver whose class is found, is covered: its marker is declared with more than the
-- index, or with at least n for an index -n. No marker is needed for the indices 0 and -1 of the clusters.
pub check_function-IsCovered :
    (class_markers : List (Dict ℕ)) (helpers : Usage) (f : FunctionDef)
    → starts_with (codes f.name) (codes "test_") ≡ true
    → check_function class_markers helpers f ≡ []
    → All (IsCovered (declared_markers class_markers f) (type_env f)) (walk f.tree)
unfolding check_function
check_function-IsCovered class_markers helpers f is_test nothing =
    let declared = declared_markers class_markers f in
    let used = function_usage helpers f in
    let (no_index, _) =
      both_nil (index_violations declared used.required)
        (list_violations declared used.required used.dynamic) (rw is_test at nothing) in
    All-weaken (IsRequired (type_env f) used) (IsCovered declared (type_env f)) (walk f.tree)
      (λ v h. IsRequired-IsCovered declared (type_env f) used v no_index h)
      (function_usage-IsRequired helpers f)
