-- ===== src/Prelude/Int.antt =====
-- Python's `int` over the native numbers, under the library's names.
use Prim.Native.Nat.{ℕ, zero, suc, ◌+◌, ◌-◌}
use mathlib.Core.Path.{◌≡◌, refl}
use mathlib.Core.Logic.{◌↔◌}
use mathlib.Core.Bool.{Bool, true, false, not}
use native.Mathlib.Omega.{arith}
use couchbase_lite_tests.Prelude.Tests.{leb, nat_beq, Eq, if◌then◌else◌}

-- `negsuc n` is -(n + 1).
pub data ℤ : Type 0 where
  pos : ℕ → ℤ
  negsuc : ℕ → ℤ

abbrev pub int_beq : ℤ → ℤ → Bool
int_beq (pos a) (pos b) = nat_beq a b
int_beq (negsuc a) (negsuc b) = nat_beq a b
int_beq _ _ = false

pub int_beq_iff : (a b : ℤ) → (int_beq a b ≡ true) ↔ (a ≡ b)
int_beq_iff (pos a) (pos b) = ground arith
int_beq_iff _ _ = ground arith

instance abbrev pub int_eq : Eq ℤ
int_eq = record { beq = int_beq; beq_iff = int_beq_iff }

-- `True` is 1 and `False` is 0.
abbrev pub of_bool : Bool → ℤ
of_bool true = pos 1
of_bool false = pos 0

-- `x <= y` and `x < y`
abbrev pub int_leb : (x y : ℤ) → Bool
int_leb (pos a) (pos b) = leb a b
int_leb (pos a) (negsuc b) = false
int_leb (negsuc a) (pos b) = true
int_leb (negsuc a) (negsuc b) = leb b a

abbrev pub int_ltb : (x y : ℤ) → Bool
int_ltb x y = not (int_leb y x)

-- `max(x, y)`
abbrev pub int_max : (x y : ℤ) → ℤ
int_max x y = if int_leb y x then x else y

-- `x + 1` and `x - 1`
abbrev pub plus_one : ℤ → ℤ
plus_one (pos a) = pos (suc a)
plus_one (negsuc zero) = pos 0
plus_one (negsuc (suc a)) = negsuc a

abbrev pub minus_one : ℤ → ℤ
minus_one (pos zero) = negsuc 0
minus_one (pos (suc a)) = pos a
minus_one (negsuc a) = negsuc (suc a)

infixl 60 ◌+ℤ◌
-- `a - b` of two naturals, and `x + y`
abbrev pub sub_nat : (a b : ℕ) → ℤ
sub_nat a b = if leb b a then pos (a - b) else negsuc (b - a - 1)

abbrev pub ◌+ℤ◌ : (x y : ℤ) → ℤ
pos a +ℤ pos b = pos (a + b)
pos a +ℤ negsuc b = sub_nat a (suc b)
negsuc a +ℤ pos b = sub_nat b (suc a)
negsuc a +ℤ negsuc b = negsuc (suc (a + b))

pub minus_one-leb : (x y : ℤ) → int_leb (minus_one x) y ≡ int_leb x (plus_one y)
minus_one-leb (pos zero) (pos b) = ground arith
minus_one-leb (pos (suc a)) (pos b) = ground arith
minus_one-leb (negsuc a) (pos b) = refl
minus_one-leb (pos zero) (negsuc zero) = ground arith
minus_one-leb (pos (suc a)) (negsuc zero) = ground arith
minus_one-leb (negsuc a) (negsuc zero) = ground arith
minus_one-leb (pos zero) (negsuc (suc b)) = ground arith
minus_one-leb (pos (suc a)) (negsuc (suc b)) = refl
minus_one-leb (negsuc a) (negsuc (suc b)) = ground arith

pub int_leb_refl : (x : ℤ) → int_leb x x ≡ true
int_leb_refl (pos a) = ground arith
int_leb_refl (negsuc a) = ground arith

pub int_leb_trans : (x y z : ℤ) → int_leb x y ≡ true → int_leb y z ≡ true → int_leb x z ≡ true
int_leb_trans (pos a) (pos b) (pos c) h k = ground arith
int_leb_trans (negsuc a) (negsuc b) (negsuc c) h k = ground arith
int_leb_trans (negsuc a) y (pos c) h k = refl
int_leb_trans (pos a) (pos b) (negsuc c) h k = k
int_leb_trans (pos a) (negsuc b) z h k = cc
int_leb_trans (negsuc a) (pos b) (negsuc c) h k = cc

pub int_leb-max : (x y : ℤ) → (int_leb x (int_max x y) ≡ true) × (int_leb y (int_max x y) ≡ true)
int_leb-max (pos a) (pos b) = ground arith
int_leb-max (pos a) (negsuc b) = ground arith
int_leb-max (negsuc a) (pos b) = ground arith
int_leb-max (negsuc a) (negsuc b) = ground arith
