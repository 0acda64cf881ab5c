-- ===== src/Prelude/Codes.antt =====
-- Texts as lists of code points, where the program looks inside a text.
use Prim.Native.Nat.{ℕ, zero, suc, ◌+◌, ◌-◌, ◌*◌}
use Prim.Native.Char.{code}
use Prim.Native.String.{String}
use mathlib.Core.Path.{◌≡◌, refl}
use mathlib.Core.Logic.{◌↔◌}
use mathlib.Core.Bool.{Bool, true, false, ◌&&◌, ◌||◌}
use mathlib.Core.Option.{Option, none, some}
use mathlib.Core.Option
use mathlib.Core.List.{List, [], ◌∷◌, map}
use native.Mathlib.Omega.{arith}
use couchbase_lite_tests.Prelude.Int.{ℤ, pos, negsuc}
use couchbase_lite_tests.Prelude.Tests.{leb, nat_beq, Eq, if◌then◌else◌}

-- A text as the list of its code points.
abbrev pub Text : Type 0
Text = List ℕ

abbrev pub codes : String → Text
codes String.[] = []
codes (String.◌∷◌ c s) = code c ∷ codes s

abbrev pub text_beq : Text → Text → Bool
text_beq [] [] = true
text_beq (a ∷ s) (b ∷ t) = nat_beq a b && text_beq s t
text_beq _ _ = false

pub text_beq_iff : (s t : Text) → (text_beq s t ≡ true) ↔ (s ≡ t)
text_beq_iff [] [] = (λ _. refl, λ _. refl)
text_beq_iff [] (b ∷ t) = (λ h. cc, λ h. cc)
text_beq_iff (a ∷ s) [] = (λ h. cc, λ h. cc)
text_beq_iff (a ∷ s) (b ∷ t) =
    (λ h. ground (arith, text_beq_iff s t), λ h. ground (arith, text_beq_iff s t))

instance abbrev pub text_eq : Eq Text
text_eq = record { beq = text_beq; beq_iff = text_beq_iff }

-- `str.upper` on ASCII; the words that the harness compares with are ASCII.
unfoldable pub upper_code : ℕ → ℕ
upper_code c = if leb b'a' c && leb c b'z' then c - 32 else c

unfoldable pub upper : Text → Text
unfolding upper_code
upper = map upper_code

-- `s.startswith(prefix)`
unfoldable pub starts_with : Text → Text → Bool
starts_with s [] = true
starts_with [] (p ∷ prefix) = false
starts_with (c ∷ s) (p ∷ prefix) = nat_beq c p && starts_with s prefix

-- `part in s`
unfoldable pub has_text : Text → Text → Bool
unfolding starts_with
has_text [] part = starts_with [] part
has_text (c ∷ s) part = starts_with (c ∷ s) part || has_text s part

-- `s.find(c)` of one character
unfoldable pub find_code : ℕ → Text → Option ℕ
find_code c [] = none
find_code c (d ∷ s) =
    let rest = find_code c s in
    if nat_beq d c then some 0 else elim rest [ none ↦ none | some i ↦ some (suc i) ]

abbrev onto_first : ℕ → List Text → List Text
onto_first c [] = (c ∷ []) ∷ []
onto_first c (part ∷ parts) = (c ∷ part) ∷ parts

-- `s.split(c)` by one character: the parts between its occurrences, one more than these.
unfoldable pub split : ℕ → Text → List Text
split c [] = [] ∷ []
split c (d ∷ s) = let rest = split c s in if nat_beq d c then [] ∷ rest else onto_first d rest

-- The ASCII characters that `str.strip` takes away.
abbrev pub is_space : ℕ → Bool
is_space c = nat_beq c 32 || (leb 9 c && leb c 13) || (leb 28 c && leb c 31)

unfoldable pub lstrip : (ℕ → Bool) → Text → Text
lstrip away [] = []
lstrip away (c ∷ s) = let rest = lstrip away s in if away c then rest else c ∷ s

unfoldable pub rstrip : (ℕ → Bool) → Text → Text
rstrip away [] = []
rstrip away (c ∷ s) = elim (rstrip away s) [
  | [] ↦ if away c then [] else c ∷ []
  | d ∷ rest ↦ c ∷ d ∷ rest
]

-- `s.strip()`
unfoldable pub strip : Text → Text
unfolding lstrip rstrip
strip s = rstrip is_space (lstrip is_space s)

-- Decimal digits, where one underscore may stand between two digits; `after_digit` tells what is before.
unfoldable pub read_digits : Bool → ℕ → Text → Option ℕ
read_digits true value [] = some value
read_digits false value [] = none
read_digits after_digit value (c ∷ s) =
    let more = read_digits true (value * 10 + (c - 48)) s in
    let next = read_digits false value s in
    if leb 48 c && leb c 57 then more else if nat_beq c b'_' && after_digit then next else none

abbrev negative : ℕ → ℤ
negative zero = pos 0
negative (suc n) = negsuc n

abbrev with_sign : Text → Option ℤ
with_sign [] = none
with_sign (c ∷ s) =
    if nat_beq c b'-'
    then Option.map negative (read_digits false 0 s)
    else if nat_beq c b'+'
    then Option.map pos (read_digits false 0 s)
    else Option.map pos (read_digits false 0 (c ∷ s))

-- `int(s)` of an ASCII text; a `ValueError` is `none`.
unfoldable pub parse_int : Text → Option ℤ
unfolding read_digits strip
parse_int s = with_sign (strip s)
