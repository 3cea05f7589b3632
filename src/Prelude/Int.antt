-- ===== src/Prelude/Int.antt =====
-- Signed numbers (`int`, `long`), as long as they do not overflow, with the Boolean tests on them.
use Prim.Native.Nat.{ℕ, suc, ◌+◌, ◌-◌}
use mathlib.Core.Path.{◌≡◌, refl}
use mathlib.Core.Bool.{Bool, true, false}
use native.Mathlib.Omega.{arith}
use coflo.Prelude.Tests.{ltb, ◌==◌, if◌then◌else◌}

-- `negsuc n` is -(n + 1).
pub data ℤ : Type 0 where
  pos : ℕ → ℤ
  negsuc : ℕ → ℤ

abbrev pub ltb_ℤ : ℤ → ℤ → Bool
ltb_ℤ (pos a) (pos b) = ltb a b
ltb_ℤ (pos a) (negsuc b) = false
ltb_ℤ (negsuc a) (pos b) = true
ltb_ℤ (negsuc a) (negsuc b) = ltb b a

abbrev pub eqb_ℤ : ℤ → ℤ → Bool
eqb_ℤ (pos a) (pos b) = a == b
eqb_ℤ (negsuc a) (negsuc b) = a == b
eqb_ℤ _ _ = false

abbrev pub inc : ℤ → ℤ
inc (pos a) = pos (a + 1)
inc (negsuc a) = if a == 0 then pos 0 else negsuc (a - 1)

abbrev pub dec : ℤ → ℤ
dec (pos a) = if a == 0 then negsuc 0 else pos (a - 1)
dec (negsuc a) = negsuc (a + 1)

pub ltb_ℤ_irrefl : (x : ℤ) → ltb_ℤ x x ≡ false
ltb_ℤ_irrefl (pos a) = ground arith
ltb_ℤ_irrefl (negsuc a) = ground arith

pub eqb_ℤ_eq : (x y : ℤ) → eqb_ℤ x y ≡ true → x ≡ y
eqb_ℤ_eq (pos a) (pos b) h = ground arith
eqb_ℤ_eq (negsuc a) (negsuc b) h = ground arith
eqb_ℤ_eq (pos a) (negsuc b) h = cc
eqb_ℤ_eq (negsuc a) (pos b) h = cc

pub eqb_ℤ_refl : (x : ℤ) → eqb_ℤ x x ≡ true
eqb_ℤ_refl (pos a) = ground arith
eqb_ℤ_refl (negsuc a) = ground arith

pub ltb_ℤ_trans : (x y z : ℤ) → ltb_ℤ x y ≡ true → ltb_ℤ y z ≡ true → ltb_ℤ x z ≡ true
ltb_ℤ_trans (pos a) (pos b) (pos c) h k = ground arith
ltb_ℤ_trans (pos a) (pos b) (negsuc c) h k = cc
ltb_ℤ_trans (pos a) (negsuc b) z h k = cc
ltb_ℤ_trans (negsuc a) y (pos c) h k = refl
ltb_ℤ_trans (negsuc a) (pos b) (negsuc c) h k = cc
ltb_ℤ_trans (negsuc a) (negsuc b) (negsuc c) h k = ground arith

pub ltb_ℤ_total : (x y : ℤ) → ltb_ℤ x y ≡ false → ltb_ℤ y x ≡ false → x ≡ y
ltb_ℤ_total (pos a) (pos b) h k = ground arith
ltb_ℤ_total (pos a) (negsuc b) h k = cc
ltb_ℤ_total (negsuc a) (pos b) h k = cc
ltb_ℤ_total (negsuc a) (negsuc b) h k = ground arith

pub ltb_ℤ_asym : (x y : ℤ) → ltb_ℤ x y ≡ true → ltb_ℤ y x ≡ false
ltb_ℤ_asym (pos a) (pos b) h = ground arith
ltb_ℤ_asym (pos a) (negsuc b) h = cc
ltb_ℤ_asym (negsuc a) (pos b) h = refl
ltb_ℤ_asym (negsuc a) (negsuc b) h = ground arith

pub dec-suc : (n : ℕ) → dec (pos (suc n)) ≡ pos n
dec-suc n = ground arith
