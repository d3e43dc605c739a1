-- ===== src/Common/Decimal.antt =====
-- The decimal numbers read back: the conversions of a text that starts with a printed number.
use Prim.Native.Nat.{ℕ, zero, suc, ◌+◌, ◌-◌, ◌*◌, ◌/◌, ◌%◌, ◌≤◌, ◌<◌}
use mathlib.Core.Path.{◌≡◌, refl, ap, ◌∙◌}
use mathlib.Core.Logic.{inl, inr}
use mathlib.Core.Bool.{true, false}
use mathlib.Core.Option.{some}
use mathlib.Core.List.{List, [], ◌∷◌, ◌++◌, append_assoc}
use native.Mathlib.Omega.{arith}
use new_thinbt.Common.Lists.{All, All-append}
use new_thinbt.Common.Tests.{leb, ltb, ◌==◌, Bool-cases, ltb→lt}
use new_thinbt.Common.Text.{
  is_digit, digits, decimal, digits_value, unsigned_value, is_space, skip_space, strip_sign, value,
  unsigned_result, signed_result, stoull,
}

-- A text that starts with a digit.
unfoldable pub StartsDigit : List ℕ → Type 0
StartsDigit [] = false ≡ true
StartsDigit (c ∷ text) = (48 ≤ c) × (c ≤ 57)

-- A text that does not.
unfoldable pub EndsNumber : List ℕ → Type 0
EndsNumber [] = Unit {0}
EndsNumber (c ∷ text) = is_digit c ≡ false

pub digit-StartsDigit : (c : ℕ) (text : List ℕ) → is_digit c ≡ true → StartsDigit (c ∷ text)
unfolding is_digit StartsDigit
digit-StartsDigit c text digit = ground (arith, digit)

pub digits-StartsDigit :
    (fuel n : ℕ) (rest : List ℕ) → n ≤ fuel → StartsDigit (digits fuel n ++ rest)
unfolding digits StartsDigit
digits-StartsDigit zero n rest le = (omega arith, omega arith)
digits-StartsDigit (suc fuel) n rest le = elim (Bool-cases (ltb n 10)) [
  | inl small ↦ rw (digits, small) (omega arith, omega (arith, ltb→lt n 10 small))
  | inr large ↦
      rw (digits, large, append_assoc (digits fuel (n / 10)) ((48 + n % 10) ∷ []) rest)
        (digits-StartsDigit fuel (n / 10) ((48 + n % 10) ∷ rest) (omega arith))
]

-- What holds of every digit holds of every byte of a number.
pub digits-All :
    (P : ℕ → Type 0)
    → ((d : ℕ) → d < 10 → P (48 + d))
    → (fuel n : ℕ) → n ≤ fuel
    → All P (digits fuel n)
unfolding digits
digits-All P each zero n le = (each n (omega arith), tt)
digits-All P each (suc fuel) n le = elim (Bool-cases (ltb n 10)) [
  | inl small ↦ rw (digits, small) (each n (ltb→lt n 10 small), tt)
  | inr large ↦
      rw (digits, large)
        (All-append P (digits fuel (n / 10)) ((48 + n % 10) ∷ [])
          (digits-All P each fuel (n / 10) (omega arith)) (each (n % 10) (omega arith), tt))
]

digit_next :
    (n d : ℕ) (rest : List ℕ)
    → d < 10
    → digits_value n ((48 + d) ∷ rest) ≡ digits_value (n * 10 + d) rest
unfolding digits_value is_digit
digit_next n d rest lt =
    let e : n * 10 + (48 + d - 48) ≡ n * 10 + d = omega arith in
    let digit : is_digit (48 + d) ≡ true = ground arith in rw (digits_value, digit, e) refl

digit_first :
    (d : ℕ) (rest : List ℕ) → d < 10 → digits_value 0 ((48 + d) ∷ rest) ≡ digits_value d rest
digit_first d rest lt =
    let e : 0 * 10 + d ≡ d = omega arith in
    digit_next 0 d rest lt ∙ ap (λ (k : ℕ). digits_value k rest) e

digits_value-digits :
    (fuel n : ℕ) (rest : List ℕ)
    → n ≤ fuel
    → digits_value 0 (digits fuel n ++ rest) ≡ digits_value n rest
unfolding digits
digits_value-digits zero n rest le = digit_first n rest (omega arith)
digits_value-digits (suc fuel) n rest le = elim (Bool-cases (ltb n 10)) [
  | inl small ↦ rw (digits, small) (digit_first n rest (ltb→lt n 10 small))
  | inr large ↦
      let e : n / 10 * 10 + n % 10 ≡ n = omega arith in
      rw (digits, large, append_assoc (digits fuel (n / 10)) ((48 + n % 10) ∷ []) rest)
        (digits_value-digits fuel (n / 10) ((48 + n % 10) ∷ rest) (omega arith)
          ∙ digit_next (n / 10) (n % 10) rest (omega arith)
          ∙ ap (λ (k : ℕ). digits_value k rest) e)
]

digits_value-end : (n : ℕ) (rest : List ℕ) → EndsNumber rest → digits_value n rest ≡ n
unfolding digits_value EndsNumber
digits_value-end n [] ends = refl
digits_value-end n (c ∷ rest) ends = rw (digits_value, ends) refl

pub unsigned_value-starts :
    (text : List ℕ) → StartsDigit text → unsigned_value text ≡ some (digits_value 0 text)
unfolding unsigned_value StartsDigit
unsigned_value-starts [] starts = cc
unsigned_value-starts (c ∷ text) starts =
    let digit : is_digit c ≡ true = ground (arith, is_digit, starts) in
    rw (unsigned_value, digit) refl

pub skip_space-starts : (text : List ℕ) → StartsDigit text → skip_space text ≡ text
unfolding skip_space StartsDigit
skip_space-starts [] starts = refl
skip_space-starts (c ∷ text) starts =
    let other : is_space c ≡ false = ground (arith, is_space, starts) in rw (skip_space, other) refl

pub strip_sign-starts : (text : List ℕ) → StartsDigit text → strip_sign text ≡ (false, text)
unfolding strip_sign StartsDigit
strip_sign-starts [] starts = refl
strip_sign-starts (c ∷ text) starts =
    let other : (c == 45) ≡ false = ground (arith, starts) in
    let other' : (c == 43) ≡ false = ground (arith, starts) in rw (strip_sign, other, other') refl

-- What a sign, spaces and digits are read as where the text starts with a printed number.
pub strip_sign-skip-decimal :
    (n : ℕ) (rest : List ℕ)
    → strip_sign (skip_space (decimal n ++ rest)) ≡ (false, decimal n ++ rest)
unfolding decimal
strip_sign-skip-decimal n rest =
    let starts = digits-StartsDigit n n rest (omega arith) in
    ap strip_sign (skip_space-starts _ starts) ∙ strip_sign-starts _ starts

pub unsigned_value-decimal :
    (n : ℕ) (rest : List ℕ) → EndsNumber rest → unsigned_value (decimal n ++ rest) ≡ some n
unfolding decimal
unsigned_value-decimal n rest ends =
    unsigned_value-starts _ (digits-StartsDigit n n rest (omega arith))
    ∙ ap some (digits_value-digits n n rest (omega arith) ∙ digits_value-end n rest ends)

pub stoull-decimal :
    (n : ℕ) (rest : List ℕ)
    → n < 18446744073709551616
    → EndsNumber rest
    → stoull (decimal n ++ rest) ≡ value n
unfolding stoull signed_result unsigned_result
stoull-decimal n rest lt ends =
    let small : leb 18446744073709551616 n ≡ false = ground arith in
    ap signed_result (strip_sign-skip-decimal n rest)
    ∙ ap (unsigned_result false) (unsigned_value-decimal n rest ends)
    ∙ rw (unsigned_result, small) refl
