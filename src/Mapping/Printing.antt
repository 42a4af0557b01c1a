-- ===== src/Mapping/Printing.antt =====
-- Field paths written out, and read back.
use personal_world.Prelude.{
  ℕ, ◌≤◌, true, false, some, List, [], ◌∷◌, ◌++◌, ◌≡◌, arith, refl, Text, All, all, nat_eq,
  same_text,
}
use personal_world.Prelude.Int.{pos, negsuc}
use personal_world.Tx.{ok}
use personal_world.Mapping.Path.{
  Segment, name, index, wildcard, Digits, is_name_body, bad_name, span_name, to_close, bracket,
  read_bracket,
}

module _ (str : ℕ → Text) where
  -- A step in the syntax of the grammar; `str` writes a number.
  unfoldable pub print_step : Segment → Text
  print_step (name n) = b'.' ∷ n
  print_step (index (pos n)) = b'[' ∷ (str n ++ b']' ∷ [])
  print_step (index (negsuc n)) = b'[' ∷ b'-' ∷ b'1' ∷ b']' ∷ []
  print_step wildcard = b'[' ∷ b'*' ∷ b']' ∷ []

  unfoldable pub print_steps : List Segment → Text
  unfolding print_step
  print_steps [] = []
  print_steps (s ∷ steps) = print_step s ++ print_steps steps

  unfoldable pub print_path : List Segment → Text
  unfolding print_steps
  print_path steps = b'$' ∷ print_steps steps

-- The steps that the grammar has.
abbrev pub IsStep : Segment → Type 0
IsStep (name n) = (bad_name n ≡ false) × (all is_name_body n ≡ true)
IsStep (index (pos n)) = Unit
IsStep (index (negsuc n)) = n ≡ 0
IsStep wildcard = Unit

abbrev pub IsDigit : ℕ → Type 0
IsDigit c = (b'0' ≤ c) × (c ≤ b'9')

-- What Python documents of `str`, `isdigit` and `int` on the numbers from 0 on.
pub record DigitLaws (d : Digits) (str : ℕ → Text) : Type 0 where
  pub ascii : (n : ℕ) → All IsDigit (str n)
  pub known : (n : ℕ) → d.is_digits (str n) ≡ true
  pub reads : (n : ℕ) → d.to_int (str n) ≡ some n

-- A text that no name character begins.
abbrev pub Stops : Text → Type 0
Stops [] = Unit
Stops (c ∷ t) = is_name_body c ≡ false

pub span_name-append :
    (n rest : Text) → all is_name_body n ≡ true → Stops rest → span_name (n ++ rest) ≡ (n, rest)
unfolding span_name all
span_name-append [] [] h s = refl
span_name-append [] (c ∷ rest) h s = rw s
span_name-append (c ∷ n) rest h s = ground (arith, span_name-append n rest)

to_close-append :
    (inner rest : Text) → All IsDigit inner → to_close (inner ++ b']' ∷ rest) ≡ some (inner, rest)
unfolding to_close
to_close-append [] rest h = refl
to_close-append (c ∷ inner) rest h = ground (arith, to_close-append inner rest h.1)

bracket_digits :
    (d : Digits) (inner : Text) (n : ℕ)
    → All IsDigit inner
    → d.is_digits inner ≡ true
    → d.to_int inner ≡ some n
    → bracket d inner ≡ ok (index (pos n))
unfolding bracket same_text
bracket_digits d [] n a k r = ground arith
bracket_digits d (c ∷ inner) n a k r = ground arith

module _ (d : Digits) (str : ℕ → Text) (laws : DigitLaws d str) where
  pub read_index :
      (n : ℕ) (rest : Text) → read_bracket d (str n ++ b']' ∷ rest) ≡ ok (index (pos n), rest)
  unfolding read_bracket
  read_index n rest = rw (
    to_close-append (str n) rest (laws.ascii n),
    bracket_digits d (str n) n (laws.ascii n) (laws.known n) (laws.reads n),
  )

  pub steps_stop : (steps : List Segment) → Stops (print_steps str steps)
  unfolding print_steps print_step
  steps_stop [] = tt
  steps_stop (name n ∷ steps) = refl
  steps_stop (index (pos n) ∷ steps) = refl
  steps_stop (index (negsuc n) ∷ steps) = refl
  steps_stop (wildcard ∷ steps) = refl
