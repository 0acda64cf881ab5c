-- ===== src/DocsCompare/Same.antt =====
-- `_compare_revisions` beside an own description of when two revisions are the same.
use couchbase_lite_tests.Prelude.{
  ℕ, zero, suc, ◌-◌, ◌<◌, ◌≡◌, ◌≢◌, ◌↔◌, ◌⊎◌, inl, inr, refl, sym, ap, ◌∙◌, true, false, Option,
  none, some, List, [], ◌∷◌, ◌++◌, nat_eq, nat_beq, text_eq, text_beq_iff, arith, Text, codes,
  find_code, length, take, drop, Bool-cases, Option-cases,
}
use couchbase_lite_tests.DocsCompare.{
  SgRevision, is_text, compare_revisions, ends_in_star, matches_cv,
}
use couchbase_lite_tests.DocsCompare.Revisions.{has_code, ends_in_star-append, matches_cv-append}

-- A revision that ends in `@*` fits the version vector that begins with what stands before it, up to the
-- first `@`, where that is not empty.
abbrev pub IsStarred : Text → SgRevision → Type 0
IsStarred rev sg =
    (x : Text) × (source : Text) × (rev ≡ x ++ codes "@*")
    × (sg.cv ≡ some (x ++ (b'@' ∷ source)))
    × (has_code b'@' x ≡ false)
    × (0 < length x)

-- Any other one fits a revision or a version vector that it equals.
abbrev pub IsSame : Text → SgRevision → Type 0
IsSame rev sg =
    (((x : Text) → rev ≢ (x ++ codes "@*")) × ((sg.revid ≡ some rev) ⊎ (sg.cv ≡ some rev)))
    ⊎ IsStarred rev sg

append-take-drop {ℓ} : {A : Type ℓ} (n : ℕ) (xs : List A) → take n xs ++ drop n xs ≡ xs
append-take-drop zero xs = refl
append-take-drop (suc n) [] = refl
append-take-drop (suc n) (x ∷ xs) = ap (◌∷◌ x) (append-take-drop n xs)

ends_in_star-split : (rev : Text) → ends_in_star rev ≡ true → (x : Text) × (rev ≡ x ++ codes "@*")
ends_in_star-split rev h =
    let e : drop (length rev - 2) rev ≡ codes "@*" =
      (text_beq_iff (drop (length rev - 2) rev) (codes "@*")).0 (ground arith) in
    (
      take (length rev - 2) rev,
      sym (append-take-drop (length rev - 2) rev)
          ∙ ap (λ (s : Text). take (length rev - 2) rev ++ s) e,
    )

find_code-split :
    (c : ℕ) (s : Text) (i : ℕ)
    → find_code c s ≡ some i
    → (x : Text) × (rest : Text) × (s ≡ x ++ (c ∷ rest)) × (has_code c x ≡ false) × (length x ≡ i)
unfolding find_code
find_code-split c [] i h = cc
find_code-split c (d ∷ s) i h = elim (Bool-cases (nat_beq d c)) [
  | inl here ↦ ([], s, ap (λ (k : ℕ). k ∷ s) (ground arith), refl, ground arith)
  | inr later ↦ elim (Option-cases (find_code c s)) [
    | inl absent ↦ absurd (ground arith)
    | inr (j, found) ↦
        let (x, rest, e, first, n) = find_code-split c s j found in
        (d ∷ x, rest, ap (◌∷◌ d) e, ground arith, ground arith)
  ]
]

is_equal : (s : Text) (o : Option Text) → is_text s o ≡ true → o ≡ some s
is_equal s none h = cc
is_equal s (some t) h = ap some (sym ((text_beq_iff s t).0 h))

matches_cv-split :
    (x : Text) (cv : Option Text)
    → matches_cv (x ++ codes "@*") cv ≡ true
    → (source : Text) × (cv ≡ some (x ++ (b'@' ∷ source)))
      × (has_code b'@' x ≡ false)
      × (0 < length x)
matches_cv-split x none h = cc
matches_cv-split x (some cv) h = elim (Option-cases (find_code b'@' cv)) [
  | inl absent ↦ absurd (ground arith)
  | inr (i, found) ↦
      let (y, source, e, first, n) = find_code-split b'@' cv i found in
      let positive : 0 < length y = ground arith in
      let same : x ≡ y =
        (text_beq_iff x y).0 (sym (matches_cv-append x y source first positive) ∙ (rw (← e) h)) in
      (source, rw same (ap some e), rw same first, rw same positive)
]

equal_is : (s : Text) (o : Option Text) → o ≡ some s → is_text s o ≡ true
equal_is s o e = rw e ((text_beq_iff s s).1 refl)

IsStarred-same : (rev : Text) (sg : SgRevision) → IsStarred rev sg → compare_revisions rev sg ≡ true
unfolding compare_revisions
IsStarred-same rev sg (x, source, e, cv, first, positive) =
    let fits : matches_cv rev sg.cv ≡ true =
      rw (e, cv, matches_cv-append x x source first positive) ((text_beq_iff x x).1 refl) in
    let star : ends_in_star rev ≡ true = rw e (ends_in_star-append x) in rw star fits

same-IsStarred :
    (rev : Text) (sg : SgRevision)
    → ends_in_star rev ≡ true
    → compare_revisions rev sg ≡ true
    → IsStarred rev sg
unfolding compare_revisions
same-IsStarred rev sg star h =
    let (x, e) = ends_in_star-split rev star in
    let fits : matches_cv rev sg.cv ≡ true = rw star at h in
    let (source, cv, first, positive) = matches_cv-split x sg.cv (rw e at fits) in
    (x, source, e, cv, first, positive)

same-plain :
    (rev : Text) (sg : SgRevision)
    → ends_in_star rev ≡ false
    → compare_revisions rev sg ≡ true
    → (sg.revid ≡ some rev) ⊎ (sg.cv ≡ some rev)
unfolding compare_revisions
same-plain rev sg plain h = elim (Bool-cases (is_text rev sg.revid)) [
  | inl revid ↦ inl (is_equal rev sg.revid revid)
  | inr other ↦ inr (is_equal rev sg.cv (rw (plain, other) at h))
]

plain-same :
    (rev : Text) (sg : SgRevision)
    → ends_in_star rev ≡ false
    → (sg.revid ≡ some rev) ⊎ (sg.cv ≡ some rev)
    → compare_revisions rev sg ≡ true
unfolding compare_revisions
plain-same rev sg plain (inl revid) = rw (plain, equal_is rev sg.revid revid) refl
plain-same rev sg plain (inr cv) = ground (arith, plain, equal_is rev sg.cv cv)

plain-unstarred : (rev x : Text) → ends_in_star rev ≡ false → rev ≢ (x ++ codes "@*")
plain-unstarred rev x plain e =
    let star : ends_in_star rev ≡ true = rw e (ends_in_star-append x) in absurd (cc)

-- `_compare_revisions` finds a revision of Couchbase Lite the same exactly in these cases: it does not end
-- in `@*`, and equals the revision ID or the version vector of Sync Gateway; or it is `x@*`, and the version
-- vector is x, an `@` and a source, with x not empty and without an `@`.
pub compare_revisions_iff :
    (rev : Text) (sg : SgRevision) → (compare_revisions rev sg ≡ true) ↔ IsSame rev sg
compare_revisions_iff rev sg = elim (Bool-cases (ends_in_star rev)) [
  | inl star ↦ (
    λ h. inr (same-IsStarred rev sg star h),
    λ s. elim s [
      | inl (unstarred, _) ↦ let (x, e) = ends_in_star-split rev star in absurd (unstarred x e)
      | inr starred ↦ IsStarred-same rev sg starred
    ],
  )
  | inr plain ↦ (
    λ h. inl (λ x. plain-unstarred rev x plain, same-plain rev sg plain h),
    λ s. elim s [
      | inl (_, equal) ↦ plain-same rev sg plain equal
      | inr starred ↦ IsStarred-same rev sg starred
    ],
  )
]
