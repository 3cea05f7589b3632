-- ===== src/Prelude/Decimal.antt =====
-- Numbers as decimal texts.
use Prim.Native.Char.{Char, code}
use Prim.Native.Nat.{ℕ, zero, suc, ◌+◌, ◌-◌, ◌*◌, ◌/◌, ◌%◌, ◌<◌}
use mathlib.Core.Path.{◌≡◌, refl, ◌∙◌, ap}
use mathlib.Core.Bool.{true}
use mathlib.Core.List.{List, [], ◌∷◌}
use mathlib.Core.Logic.{inl, inr}
use native.Mathlib.Omega.{arith}
use coflo.Prelude.Tests.{◌==◌, if◌then◌else◌, Bool-cases, ==_iff, if_keeps}
use coflo.Prelude.Chars.{is_digit, value_from, is_numeral}

abbrev digit_char : ℕ → Char
digit_char zero = "0"
digit_char (suc zero) = "1"
digit_char (suc (suc zero)) = "2"
digit_char (suc (suc (suc zero))) = "3"
digit_char (suc (suc (suc (suc zero)))) = "4"
digit_char (suc (suc (suc (suc (suc zero))))) = "5"
digit_char (suc (suc (suc (suc (suc (suc zero)))))) = "6"
digit_char (suc (suc (suc (suc (suc (suc (suc zero))))))) = "7"
digit_char (suc (suc (suc (suc (suc (suc (suc (suc zero)))))))) = "8"
digit_char _ = "9"

-- The digits of a number before a text; the number itself is enough fuel.
decimal_onto : ℕ → ℕ → List Char → List Char
decimal_onto zero n s = s
decimal_onto (suc fuel) n s =
    let rest = decimal_onto fuel (n / 10) (digit_char (n % 10) ∷ s) in
    if n / 10 == 0 then digit_char (n % 10) ∷ s else rest

unfoldable pub decimal : ℕ → List Char
unfolding decimal_onto
decimal n = decimal_onto (suc n) n []

code-digit_char : (d : ℕ) → d < 10 → code (digit_char d) ≡ d + 48
code-digit_char zero p = refl
code-digit_char (suc zero) p = refl
code-digit_char (suc (suc zero)) p = refl
code-digit_char (suc (suc (suc zero))) p = refl
code-digit_char (suc (suc (suc (suc zero)))) p = refl
code-digit_char (suc (suc (suc (suc (suc zero))))) p = refl
code-digit_char (suc (suc (suc (suc (suc (suc zero)))))) p = refl
code-digit_char (suc (suc (suc (suc (suc (suc (suc zero))))))) p = refl
code-digit_char (suc (suc (suc (suc (suc (suc (suc (suc zero)))))))) p = refl
code-digit_char (suc (suc (suc (suc (suc (suc (suc (suc (suc zero))))))))) p = refl
code-digit_char (suc (suc (suc (suc (suc (suc (suc (suc (suc (suc d)))))))))) p =
    absurd (omega (arith, p))

value-decimal_onto :
    (fuel n : ℕ) (s : List Char) → n < fuel → value_from 0 (decimal_onto fuel n s) ≡ value_from n s
unfolding decimal_onto
value-decimal_onto zero n s p = absurd (omega (arith, p))
value-decimal_onto (suc fuel) n s p =
    let c = digit_char (n % 10) in
    let digit : 10 * (n / 10) + (code c - 48) ≡ n =
      omega (arith, code-digit_char (n % 10) (omega arith)) in
    let pushed : value_from (n / 10) (c ∷ s) ≡ value_from n s = ap (λ k. value_from k s) digit in
    elim (Bool-cases (n / 10 == 0)) [
      | inl last ↦
          let zero_left : 0 ≡ n / 10 = omega (arith, (==_iff (n / 10) 0).0 last) in
          rw last (ap (λ k. value_from k (c ∷ s)) zero_left ∙ pushed)
      | inr more ↦
          rw more (value-decimal_onto fuel (n / 10) (c ∷ s) (ground (arith, p, more)) ∙ pushed)
    ]

pub value-decimal : (n : ℕ) → value_from 0 (decimal n) ≡ n
unfolding decimal
value-decimal n = value-decimal_onto (suc n) n [] (omega arith)

is_digit-digit_char : (d : ℕ) → d < 10 → is_digit (digit_char d) ≡ true
is_digit-digit_char d p = ground (arith, code-digit_char d p)

numeral-decimal_onto :
    (fuel n : ℕ) (s : List Char) → is_numeral s ≡ true → is_numeral (decimal_onto fuel n s) ≡ true
unfolding decimal_onto
numeral-decimal_onto zero n s p = p
numeral-decimal_onto (suc fuel) n s p =
    let more : is_numeral (digit_char (n % 10) ∷ s) ≡ true =
      ground (arith, is_digit-digit_char (n % 10) (omega arith), p) in
    if_keeps (λ x. is_numeral x ≡ true) (n / 10 == 0) _ _ more
      (numeral-decimal_onto fuel (n / 10) (digit_char (n % 10) ∷ s) more)

pub numeral-decimal : (n : ℕ) → is_numeral (decimal n) ≡ true
unfolding decimal
numeral-decimal n = numeral-decimal_onto (suc n) n [] refl

abbrev IsCons : List Char → Type 0
IsCons s = (c : Char) × (t : List Char) × (s ≡ c ∷ t)

IsCons-decimal_onto : (fuel n : ℕ) (s : List Char) → IsCons s → IsCons (decimal_onto fuel n s)
unfolding decimal_onto
IsCons-decimal_onto zero n s p = p
IsCons-decimal_onto (suc fuel) n s p =
    if_keeps IsCons (n / 10 == 0) _ _ (digit_char (n % 10), s, refl)
      (IsCons-decimal_onto fuel (n / 10) (digit_char (n % 10) ∷ s) (digit_char (n % 10), s, refl))

-- There is a first digit.
pub decimal-cons : (n : ℕ) → (c : Char) × (t : List Char) × (decimal n ≡ c ∷ t)
unfolding decimal decimal_onto
decimal-cons n =
    if_keeps IsCons (n / 10 == 0) _ _ (digit_char (n % 10), [], refl)
      (IsCons-decimal_onto n (n / 10) (digit_char (n % 10) ∷ []) (digit_char (n % 10), [], refl))
