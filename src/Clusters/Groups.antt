-- ===== src/Clusters/Groups.antt =====
-- What the builder of client/src/cbltest/__init__.py makes of the entries that it is given.
use mathlib.Core.List.{append-nil, append_assoc}
use couchbase_lite_tests.Prelude.{
  ℕ, zero, suc, ◌+◌, ◌<◌, ◌≤◌, ◌≡◌, ◌⊎◌, inl, inr, refl, sym, ap, Bool, true, false, ◌||◌, none,
  some, List, [], ◌∷◌, ◌++◌, ℤ, pos, int_eq, int_beq_iff, arith, ◌==◌, contains, if◌then◌else◌,
  length, All, Bool-cases,
}
use couchbase_lite_tests.Prelude.IntDict.{IntDict, int_keys, find, put, find-put}
use couchbase_lite_tests.Prelude.Members.{Distinct, pigeonhole}
use couchbase_lite_tests.Prelude.Result.{Error, ok, cbl_test_error, guard}
use couchbase_lite_tests.Setup.Hosts.{is_nil}
use couchbase_lite_tests.Setup.Valid.{InRange}
use couchbase_lite_tests.Clusters.{or_nil, add_entry, int_range, missing_keys, validate_keys}

module _ {ℓ} {A : Type ℓ} where
  -- The entries added in order, each under its index.
  abbrev pub add_all : List (ℤ × A) → IntDict (List A) → IntDict (List A)
  add_all [] d = d
  add_all ((index, x) ∷ entries) d = add_all entries (add_entry index x d)

  -- The entries of one index, in order.
  abbrev pub with_index : ℤ → List (ℤ × A) → List A
  with_index index [] = []
  with_index index ((j, x) ∷ entries) =
      let rest = with_index index entries in if j == index then x ∷ rest else rest

  pub or_nil-add_entry :
      (j index : ℤ) (x : A) (d : IntDict (List A))
      → or_nil (find j (add_entry index x d))
        ≡ (if index == j then or_nil (find j d) ++ x ∷ [] else or_nil (find j d))
  unfolding add_entry
  or_nil-add_entry j index x d =
      rw (find-put j index (or_nil (find index d) ++ x ∷ []) d) (same_key (index == j) refl)
    where
      same_key :
          (b : Bool)
          → (index == j) ≡ b
          → or_nil (if b then some (or_nil (find index d) ++ x ∷ []) else find j d)
            ≡ (if b then or_nil (find j d) ++ x ∷ [] else or_nil (find j d))
      same_key true h = rw (← (int_beq_iff index j).0 h) refl
      same_key false h = refl

  pub or_nil-add_all :
      (j : ℤ) (entries : List (ℤ × A)) (d : IntDict (List A))
      → or_nil (find j (add_all entries d)) ≡ or_nil (find j d) ++ with_index j entries
  or_nil-add_all j [] d = rw append-nil refl
  or_nil-add_all j ((index, x) ∷ entries) d =
      rw (or_nil-add_all j entries (add_entry index x d), or_nil-add_entry j index x d)
        (same_key (index == j))
    where
      same_key :
          (b : Bool)
          → (if b then or_nil (find j d) ++ x ∷ [] else or_nil (find j d)) ++ with_index j entries
            ≡ or_nil (find j d) ++ (if b then x ∷ with_index j entries else with_index j entries)
      same_key true = rw append_assoc refl
      same_key false = refl

  -- The dict has the key.
  abbrev pub HasKey : IntDict (List A) → ℤ → Type 0
  HasKey d j = contains (int_keys d) j ≡ true

  keys-put :
      (j k : ℤ) (xs : List A) (d : IntDict (List A))
      → contains (int_keys (put k xs d)) j ≡ (k == j || contains (int_keys d) j)
  unfolding put
  keys-put j k xs [] = refl
  keys-put j k xs ((i, w) ∷ d) =
      ground (arith, int_beq_iff i k, int_beq_iff k j, int_beq_iff i j, keys-put j k xs d)

  pub keys-find : (j : ℤ) (d : IntDict (List A)) → contains (int_keys d) j ≡ false → find j d ≡ none
  unfolding find
  keys-find j [] h = refl
  keys-find j ((i, w) ∷ d) h = ground (arith, keys-find j d)

  keys-add_all-old :
      (j : ℤ) (entries : List (ℤ × A)) (d : IntDict (List A))
      → HasKey d j
      → HasKey (add_all entries d) j
  unfolding add_entry
  keys-add_all-old j [] d h = h
  keys-add_all-old j ((index, x) ∷ entries) d h =
      keys-add_all-old j entries (add_entry index x d)
        (grind (arith, keys-put j index (or_nil (find index d) ++ x ∷ []) d))

  pub keys-add_all :
      (entries : List (ℤ × A)) (d : IntDict (List A))
      → All (λ (e : ℤ × A). HasKey (add_all entries d) e.0) entries
  unfolding add_entry
  keys-add_all [] d = tt
  keys-add_all ((index, x) ∷ entries) d = (
    keys-add_all-old index entries (add_entry index x d) (
        grind (
          arith,
          keys-put index index (or_nil (find index d) ++ x ∷ []) d,
          int_beq_iff index index,
        )),
    keys-add_all entries (add_entry index x d),
  )

pub contains-range :
    (start count k : ℕ)
    → start ≤ k
    → k < start + count
    → contains (int_range start count) (pos k) ≡ true
contains-range start zero k l m = absurd (omega arith)
contains-range start (suc count) k l m = elim (Bool-cases (pos start == pos k)) [
  | inl e ↦ rw e refl
  | inr n ↦ rw n (contains-range (suc start) count k (ground arith) (omega arith))
]

-- The range holds what lies between its ends.
contains-int_range :
    (start count : ℕ) (i : ℤ)
    → contains (int_range start count) i ≡ true
    → (k : ℕ) × (i ≡ pos k) × (start ≤ k) × (k < start + count)
contains-int_range start zero i h = cc
contains-int_range start (suc count) i h = elim (Bool-cases (pos start == i)) [
  | inl e ↦ (start, sym ((int_beq_iff (pos start) i).0 e), omega arith, omega arith)
  | inr n ↦
      let (k, e, l, m) = contains-int_range (suc start) count i (rw n at h) in
      (k, e, omega arith, omega arith)
]

Distinct-int_range : (start count : ℕ) → Distinct (int_range start count)
Distinct-int_range start zero = tt
Distinct-int_range start (suc count) = (
  not_later (Bool-cases (contains (int_range (suc start) count) (pos start))),
  Distinct-int_range (suc start) count,
)
  where
    not_later :
        (contains (int_range (suc start) count) (pos start) ≡ true)
          ⊎ (contains (int_range (suc start) count) (pos start) ≡ false)
        → contains (int_range (suc start) count) (pos start) ≡ false
    not_later (inr e) = e
    not_later (inl e) =
        let (k, same_index, l, m) = contains-int_range (suc start) count (pos start) e in
        absurd (ground arith)

pub none_missing :
    (expected keys : List ℤ)
    → is_nil (missing_keys expected keys) ≡ true
    → (i : ℤ) → contains expected i ≡ true
    → contains keys i ≡ true
none_missing [] keys h i m = cc
none_missing (j ∷ expected) keys h i m = elim (Bool-cases (contains keys j)) [
  | inl has ↦ elim (Bool-cases (j == i)) [
    | inl e ↦ rw (← (int_beq_iff j i).0 e) has
    | inr n ↦ none_missing expected keys (rw has at h) i (rw n at m)
  ]
  | inr hasnt ↦ cc
]

pub guard-true : (b : Bool) (raised : Error) → guard b raised ≡ ok tt → b ≡ true
guard-true true raised h = refl
guard-true false raised h = cc

length-int_range : (start count : ℕ) → length (int_range start count) ≡ count
length-int_range start zero = refl
length-int_range start (suc count) = ap suc (length-int_range (suc start) count)

length-int_keys {ℓ} : {A : Type ℓ} (d : IntDict A) → length (int_keys d) ≡ length d
length-int_keys [] = refl
length-int_keys (e ∷ d) = ap suc (length-int_keys d)

-- The keys of a `dict` that passes are the numbers below its length.
pub validate_keys-InRange {ℓ} :
    {A : Type ℓ} (d : IntDict A) (i : ℤ)
    → validate_keys d ≡ ok tt
    → contains (int_keys d) i ≡ true
    → InRange (length d) i
validate_keys-InRange d i h m =
    let inside =
      pigeonhole (int_range 0 (length d)) (int_keys d) (Distinct-int_range 0 (length d))
        (none_missing (int_range 0 (length d)) (int_keys d) (
          guard-true (is_nil (missing_keys (int_range 0 (length d)) (int_keys d))) cbl_test_error
            h))
        (omega (arith, length-int_range 0 (length d), length-int_keys d)) i m in
    let (k, e, l, less) = contains-int_range 0 (length d) i inside in rw e (omega arith)
