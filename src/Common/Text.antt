-- ===== src/Common/Text.antt =====
-- Texts as lists of their bytes: std::string::find, the decimal numbers that `<<` and std::to_string
-- write, and the conversions strtol and stoull of the C++ library.
use Prim.Native.Char.{code}
use Prim.Native.String.{String}
use Prim.Native.Nat.{ℕ, zero, suc, ◌+◌, ◌-◌, ◌*◌, ◌/◌, ◌%◌}
use mathlib.Core.Bool.{Bool, true, false, ◌&&◌, ◌||◌}
use mathlib.Core.Option.{Option, none, some}
use mathlib.Core.List.{List, [], ◌∷◌, ◌++◌}
use new_thinbt.Common.Tests.{leb, ltb, ◌==◌, if◌then◌else◌}

-- The bytes of an ASCII text.
abbrev pub codes : String → List ℕ
codes String.[] = []
codes (String.◌∷◌ c s) = code c ∷ codes s

-- What follows a prefix.
unfoldable pub strip_prefix : List ℕ → List ℕ → Option (List ℕ)
strip_prefix [] text = some text
strip_prefix (p ∷ pattern) [] = none
strip_prefix (p ∷ pattern) (c ∷ text) = if p == c then strip_prefix pattern text else none

-- What follows the first occurrence of a pattern that is not empty.
unfoldable pub after : List ℕ → List ℕ → Option (List ℕ)
unfolding strip_prefix
after pattern [] = none
after pattern (c ∷ text) = elim (strip_prefix pattern (c ∷ text)) [
  | some rest ↦ some rest
  | none ↦ after pattern text
]

-- What stands before the first occurrence of a byte.
unfoldable pub before : ℕ → List ℕ → Option (List ℕ)
before b [] = none
before b (c ∷ text) =
    if c == b then some [] else elim (before b text) [ none ↦ none | some cs ↦ some (c ∷ cs) ]

unfoldable pub is_digit : ℕ → Bool
is_digit c = leb 48 c && leb c 57

-- The digits of a number, the most significant first. The first argument is at least the number, so
-- that it counts more divisions by ten than there are.
unfoldable pub digits : ℕ → ℕ → List ℕ
digits zero n = (48 + n) ∷ []
digits (suc fuel) n = elim (ltb n 10) [
  | true ↦ (48 + n) ∷ []
  | false ↦ digits fuel (n / 10) ++ ((48 + n % 10) ∷ [])
]

unfoldable pub decimal : ℕ → List ℕ
unfolding digits
decimal n = digits n n

-- The digits that a text starts with, read after a number.
unfoldable pub digits_value : ℕ → List ℕ → ℕ
unfolding is_digit
digits_value n [] = n
digits_value n (c ∷ text) = elim (is_digit c) [
  | true ↦ digits_value (n * 10 + (c - 48)) text
  | false ↦ n
]

-- No conversion without a digit.
unfoldable pub unsigned_value : List ℕ → Option ℕ
unfolding is_digit digits_value
unsigned_value [] = none
unsigned_value (c ∷ text) = if is_digit c then some (digits_value 0 (c ∷ text)) else none

-- isspace in the C locale.
unfoldable pub is_space : ℕ → Bool
is_space c = c == 32 || (leb 9 c && leb c 13)

unfoldable pub skip_space : List ℕ → List ℕ
unfolding is_space
skip_space [] = []
skip_space (c ∷ text) = elim (is_space c) [ true ↦ skip_space text | false ↦ c ∷ text ]

-- An optional sign, and whether it is a minus.
unfoldable pub strip_sign : List ℕ → Bool × List ℕ
strip_sign [] = (false, [])
strip_sign (c ∷ text) =
    if c == 45 then (true, text) else if c == 43 then (false, text) else (false, c ∷ text)

-- std::stoull
pub data Stoull : Type 0 where
  value : ℕ → Stoull
  invalid_argument : Stoull
  out_of_range : Stoull

unfoldable pub unsigned_result : Bool → Option ℕ → Stoull
unsigned_result minus none = invalid_argument
unsigned_result minus (some n) =
    if leb 18446744073709551616 n
    then out_of_range
    else value (if minus then (18446744073709551616 - n) % 18446744073709551616 else n)

unfoldable pub signed_result : Bool × List ℕ → Stoull
unfolding unsigned_value unsigned_result
signed_result (minus, rest) = unsigned_result minus (unsigned_value rest)

unfoldable pub stoull : List ℕ → Stoull
unfolding skip_space strip_sign signed_result
stoull text = signed_result (strip_sign (skip_space text))
