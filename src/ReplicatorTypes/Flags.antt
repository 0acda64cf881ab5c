-- ===== src/ReplicatorTypes/Flags.antt =====
-- `ReplicatorDocumentFlags`: reading flags from words, and writing them.
use couchbase_lite_tests.Prelude.{
  ◌≡◌, refl, sym, ap, Bool, true, false, ◌||◌, ◌&&◌, List, [], ◌∷◌, ◌++◌, String, arith, ◌==◌, Text,
  text_eq, upper, codes, text_beq_iff, Bool-cases, inl, inr, if◌then◌else◌, map,
}
use couchbase_lite_tests.Prelude.Result.{
  Result, ok, err, value_error, assertion_error, ◌>>=◌, >>=-eq-ok,
}
use couchbase_lite_tests.Json.{Value, null, bool, int, str, arr, obj}

-- The two bits; `NONE` has neither.
pub record ReplicatorDocumentFlags : Type 0 where
  pub deleted : Bool
  pub access_removed : Bool

abbrev pub no_flags : ReplicatorDocumentFlags
no_flags = record { deleted = false; access_removed = false }

abbrev pub deleted_flag : ReplicatorDocumentFlags
deleted_flag = record { deleted = true; access_removed = false }

abbrev pub access_removed_flag : ReplicatorDocumentFlags
access_removed_flag = record { deleted = false; access_removed = true }

-- `a | b`
abbrev pub flags_or : ReplicatorDocumentFlags → ReplicatorDocumentFlags → ReplicatorDocumentFlags
flags_or a b = record {
  deleted = a.deleted || b.deleted;
  access_removed = a.access_removed || b.access_removed;
}

abbrev pub bool_beq : Bool → Bool → Bool
bool_beq true b = b
bool_beq false true = false
bool_beq false false = true

abbrev pub flags_beq : ReplicatorDocumentFlags → ReplicatorDocumentFlags → Bool
flags_beq a b = bool_beq a.deleted b.deleted && bool_beq a.access_removed b.access_removed

-- `parse` of a text
unfoldable pub parse_word : Text → Result ReplicatorDocumentFlags
parse_word input =
    let word = upper input in
    if word == codes "NONE"
    then ok no_flags
    else if word == codes "DELETED"
    then ok deleted_flag
    else if word == codes "ACCESSREMOVED"
    then ok access_removed_flag
    else err value_error

-- `parse`, which asserts that its input is a text
unfoldable pub parse : Value → Result ReplicatorDocumentFlags
unfolding parse_word
parse (str s) = parse_word (codes s)
parse _ = err assertion_error

-- The loop of `parse_all` over its accumulator.
unfoldable pub parse_onto : ReplicatorDocumentFlags → List Value → Result ReplicatorDocumentFlags
parse_onto flags [] = ok flags
parse_onto flags (i ∷ input) = do f ← parse i; parse_onto (flags_or flags f) input

unfoldable pub parse_all : List Value → Result ReplicatorDocumentFlags
unfolding parse_onto
parse_all input = parse_onto no_flags input

-- The list `flags` of `__str__`, which joins it by `|`, and the one word of no flag.
unfoldable pub flag_names : ReplicatorDocumentFlags → List String
flag_names f =
    if flags_beq f no_flags
    then "NONE" ∷ []
    else (if f.deleted then "DELETED" ∷ [] else [])
      ++ (if f.access_removed then "ACCESSREMOVED" ∷ [] else [])

flag_names_bits :
    (d a : Bool)
    → let f : ReplicatorDocumentFlags = record { deleted = d; access_removed = a } in
      parse_all (map str (flag_names f)) ≡ ok f
unfolding parse_all parse flag_names upper
flag_names_bits true true = refl
flag_names_bits true false = refl
flag_names_bits false true = refl
flag_names_bits false false = refl

-- The words that are written for a set of flags are read back as that set.
pub parse_all-flag_names : (f : ReplicatorDocumentFlags) → parse_all (map str (flag_names f)) ≡ ok f
parse_all-flag_names f = flag_names_bits f.deleted f.access_removed

-- Whether some element of the list is the word, whatever its case.
abbrev is_word : Text → Value → Bool
is_word word v = elim v [ str s ↦ upper (codes s) == word | _ ↦ false ]

pub has_word : Text → List Value → Bool
has_word word [] = false
has_word word (i ∷ input) = is_word word i || has_word word input

-- The flags that a word in upper case stands for, if it stands for any.
abbrev word_bits : Text → ReplicatorDocumentFlags
word_bits w = record { deleted = w == codes "DELETED"; access_removed = w == codes "ACCESSREMOVED" }

abbrev classify : Text → Result ReplicatorDocumentFlags
classify w =
    if w == codes "NONE"
    then ok no_flags
    else if w == codes "DELETED"
    then ok deleted_flag
    else if w == codes "ACCESSREMOVED"
    then ok access_removed_flag
    else err value_error

ok-injective {ℓ} : {A : Type ℓ} {a b : A} → ok a ≡ ok b → a ≡ b
ok-injective h = cc

classify-word_bits : (w : Text) (f : ReplicatorDocumentFlags) → classify w ≡ ok f → f ≡ word_bits w
classify-word_bits w f h = elim (Bool-cases (w == codes "NONE")) [
  | inl e ↦
      let q : w ≡ codes "NONE" = (text_beq_iff w (codes "NONE")).0 e in
      let r : no_flags ≡ f = ok-injective (rw q at h) in rw q (sym r)
  | inr n ↦ elim (Bool-cases (w == codes "DELETED")) [
    | inl e ↦
        let q : w ≡ codes "DELETED" = (text_beq_iff w (codes "DELETED")).0 e in
        let r : deleted_flag ≡ f = ok-injective (rw q at h) in rw q (sym r)
    | inr m ↦ elim (Bool-cases (w == codes "ACCESSREMOVED")) [
      | inl e ↦
          let q : w ≡ codes "ACCESSREMOVED" = (text_beq_iff w (codes "ACCESSREMOVED")).0 e in
          let r : access_removed_flag ≡ f = ok-injective (rw q at h) in rw q (sym r)
      | inr k ↦ let bad : err value_error ≡ ok f = rw (n, m, k) at h in cc
    ]
  ]
]

abbrev bits : Value → ReplicatorDocumentFlags
bits i = record {
  deleted = is_word (codes "DELETED") i;
  access_removed = is_word (codes "ACCESSREMOVED") i;
}

parse-bits : (i : Value) (f : ReplicatorDocumentFlags) → parse i ≡ ok f → f ≡ bits i
unfolding parse
parse-bits (str s) f h = classify-word_bits (upper (codes s)) f h
parse-bits null f h = cc
parse-bits (bool _) f h = cc
parse-bits (int _) f h = cc
parse-bits (arr _) f h = cc
parse-bits (obj _) f h = cc

||_false : (b : Bool) → b ≡ (b || false)
||_false b = ground arith

or_step :
    (start g word rest f : Bool)
    → g ≡ word
    → f ≡ ((start || g) || rest)
    → f ≡ (start || (word || rest))
or_step start g word rest f h k = ground arith

parse_onto-has_word :
    (input : List Value) (start f : ReplicatorDocumentFlags)
    → parse_onto start input ≡ ok f
    → (f.deleted ≡ (start.deleted || has_word (codes "DELETED") input))
      × (f.access_removed ≡ (start.access_removed || has_word (codes "ACCESSREMOVED") input))
unfolding parse_onto has_word
parse_onto-has_word [] start f h =
    let q : start ≡ f = ok-injective h in
    rw (← q) (||_false start.deleted, ||_false start.access_removed)
parse_onto-has_word (i ∷ input) start f h =
    let (g, parsed, rest) = >>=-eq-ok (parse i) (λ g. parse_onto (flags_or start g) input) h in
    let q : g ≡ bits i = parse-bits i g parsed in
    let (d, a) = parse_onto-has_word input (flags_or start g) f rest in
    (
      or_step _ _ _ _ _ (ap (λ (f : ReplicatorDocumentFlags). f.deleted) q) d,
      or_step _ _ _ _ _ (ap (λ (f : ReplicatorDocumentFlags). f.access_removed) q) a,
    )

-- Where every word is read, a flag is set exactly if its word is among them, whatever its case,
-- its place and how often it stands there.
pub parse_all-has_word :
    (input : List Value) (f : ReplicatorDocumentFlags)
    → parse_all input ≡ ok f
    → (f.deleted ≡ has_word (codes "DELETED") input)
      × (f.access_removed ≡ has_word (codes "ACCESSREMOVED") input)
unfolding parse_all
parse_all-has_word input f h = parse_onto-has_word input no_flags f h
