-- ===== src/DocsCompare/Revisions.antt =====
-- `_compare_revisions` on the revisions of version vectors.
use couchbase_lite_tests.Prelude.{
  ℕ, ◌-◌, ◌<◌, ◌≡◌, refl, ap, Bool, true, false, ◌||◌, some, List, [], ◌∷◌, ◌++◌, ◌==◌, nat_eq,
  nat_beq, text_eq, arith, Text, codes, find_code, length, take, drop-length_append, length-append,
}
use couchbase_lite_tests.DocsCompare.{ends_in_star, matches_cv}

-- Whether a character stands in a text.
abbrev pub has_code : ℕ → Text → Bool
has_code c [] = false
has_code c (d ∷ s) = nat_beq d c || has_code c s

find_code-first :
    (c : ℕ) (s rest : Text) → has_code c s ≡ false → find_code c (s ++ (c ∷ rest)) ≡ some (length s)
unfolding find_code
find_code-first c [] rest absent = ground arith
find_code-first c (d ∷ s) rest absent = ground (arith, find_code-first c s rest)

take-length_append {ℓ} : {A : Type ℓ} (xs ys : List A) → take (length xs) (xs ++ ys) ≡ xs
take-length_append [] ys = refl
take-length_append (x ∷ xs) ys = ap (◌∷◌ x) (take-length_append xs ys)

two_more : (x : Text) → length (x ++ codes "@*") - 2 ≡ length x
two_more x = omega (arith, length-append x (codes "@*"))

pub ends_in_star-append : (x : Text) → ends_in_star (x ++ codes "@*") ≡ true
ends_in_star-append x =
    rw (two_more x, drop-length_append x (codes "@*"))
      (ground (arith, length-append x (codes "@*")))

matches_cv-at :
    (rev cv : Text) (i : ℕ)
    → find_code b'@' cv ≡ some i
    → 0 < i
    → matches_cv rev (some cv) ≡ (take (length rev - 2) rev == take i cv)
matches_cv-at rev cv i found positive = ground arith

pub matches_cv-append :
    (x y source : Text)
    → has_code b'@' y ≡ false
    → 0 < length y
    → matches_cv (x ++ codes "@*") (some (y ++ (b'@' ∷ source))) ≡ (x == y)
matches_cv-append x y source absent positive =
    rw
      (
        matches_cv-at (x ++ codes "@*") (y ++ (b'@' ∷ source)) (length y)
            (find_code-first b'@' y source absent) positive,
        two_more x,
        take-length_append x (codes "@*"),
        take-length_append y (b'@' ∷ source),
      )
      refl
