-- ===== src/Common/Strings.antt =====
-- The runes of a text.
use Prim.Native.Char.{code}
use Prim.Native.Nat.{ℕ, zero, suc, ◌+◌}
use Prim.Native.String.{String, ◌++◌ as str_append}
use mathlib.Core.List.{List, [], ◌∷◌}
use mathlib.Core.Logic.{inl, inr}
use mathlib.Core.Path.{◌≡◌, sym, ◌∙◌}
use text.Mathlib.Text.{◌==◌ as str_eq}
use text.Mathlib.TextEquality.{eq_iff}
use tg_guard_bot.Common.Int.{ℤ, pos, negsuc}
use tg_guard_bot.Common.Tests.{Bool-cases, ◌==◌, if◌then◌else◌}

abbrev pub runes : String → List ℕ
runes String.[] = []
runes (String.◌∷◌ c s) = code c ∷ runes s

-- The digits of the number after, the last first.
abbrev next_digits : List ℕ → List ℕ
next_digits [] = 1 ∷ []
next_digits (d ∷ ds) = let rest = next_digits ds in if d == 9 then 0 ∷ rest else (d + 1) ∷ ds

abbrev digits_of : ℕ → List ℕ
digits_of zero = 0 ∷ []
digits_of (suc n) = next_digits (digits_of n)

abbrev digit_text : ℕ → String
digit_text d =
    if d == 0
    then "0"
    else if d == 1
    then "1"
    else if d == 2
    then "2"
    else if d == 3
    then "3"
    else if d == 4
    then "4"
    else if d == 5
    then "5"
    else if d == 6
    then "6"
    else if d == 7
    then "7"
    else if d == 8
    then "8"
    else "9"

abbrev digits_text : List ℕ → String
digits_text [] = ""
digits_text (d ∷ ds) = str_append (digits_text ds) (digit_text d)

-- The decimal notation of a number.
abbrev pub decimal : ℕ → String
decimal n = digits_text (digits_of n)

abbrev pub decimal_ℤ : ℤ → String
decimal_ℤ (pos n) = decimal n
decimal_ℤ (negsuc n) = str_append "-" (decimal (suc n))

pub str_eq_sym : (a b : String) → str_eq a b ≡ str_eq b a
str_eq_sym a b = elim (Bool-cases (str_eq a b)) [
  | inl e ↦ e ∙ sym ((eq_iff b a).1 (sym ((eq_iff a b).0 e)))
  | inr n ↦ elim (Bool-cases (str_eq b a)) [
    | inl e ↦ cc ((eq_iff a b).1 (sym ((eq_iff b a).0 e)))
    | inr m ↦ n ∙ sym m
  ]
]
