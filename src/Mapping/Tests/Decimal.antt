-- ===== src/Mapping/Tests/Decimal.antt =====
-- Decimal numbers, as an example of `str`, `isdigit` and `int`.
use mathlib.Core.List.{reverse, reverse-reverse, reverse-append}
use personal_world.Prelude.{
  ℕ, suc, zero, ◌+◌, ◌*◌, ◌-◌, ◌/◌, ◌%◌, ◌<◌, Bool, true, some, [], ◌∷◌, ◌&&◌, ◌≡◌, arith, refl, ap,
  ◌∙◌, Text, leb, All, All-append, all, if◌then◌else◌,
}
use personal_world.Mapping.Path.{Digits}
use personal_world.Mapping.Printing.{IsDigit, DigitLaws}

-- The digits from the last one on.
unfoldable pub digits : ℕ → ℕ → Text
digits zero n = []
digits (suc fuel) n =
    let rest = digits fuel (n / 10) in if leb n 9 then (n % 10 + 48) ∷ [] else (n % 10 + 48) ∷ rest

unfoldable pub number : Text → ℕ
number [] = 0
number (c ∷ t) = (c - 48) + 10 * number t

number-digits : (fuel n : ℕ) → n < fuel → number (digits fuel n) ≡ n
unfolding number digits
number-digits zero n h = absurd (omega arith)
number-digits (suc fuel) n h = ground (arith, number-digits fuel (n / 10))

digits-All : (fuel n : ℕ) → All IsDigit (digits fuel n)
unfolding digits
digits-All zero n = tt
digits-All (suc fuel) n = ground (arith, digits-All fuel (n / 10))

All-reverse : (xs : Text) → All IsDigit xs → All IsDigit (reverse xs)
All-reverse [] h = tt
All-reverse (x ∷ xs) h =
    rw (reverse-append (x ∷ []) xs)
      (All-append _ (reverse xs) (x ∷ []) (All-reverse xs h.1) (h.0, tt))

is_ascii : ℕ → Bool
is_ascii c = leb 48 c && leb c 57

all-is_ascii : (xs : Text) → All IsDigit xs → all is_ascii xs ≡ true
unfolding all is_ascii
all-is_ascii [] h = refl
all-is_ascii (x ∷ xs) h = ground (arith, all-is_ascii xs h.1)

unfoldable pub decimal : ℕ → Text
unfolding digits
decimal n = reverse (digits (suc n) n)

abbrev pub decimals : Digits
unfolding all is_ascii number
decimals = record { is_digits = λ t. all is_ascii t; to_int = λ t. some (number (reverse t)) }

pub decimals_hold : DigitLaws decimals decimal
unfolding decimal decimals
decimals_hold = record {
  ascii = λ n. All-reverse (digits (suc n) n) (digits-All (suc n) n);
  known = λ n.
      all-is_ascii (reverse (digits (suc n) n))
        (All-reverse (digits (suc n) n) (digits-All (suc n) n));
  reads = λ n.
      ap (λ t. some (number t)) (reverse-reverse (digits (suc n) n))
      ∙ ap some (number-digits (suc n) n (omega arith));
}
