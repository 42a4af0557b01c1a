-- ===== src/Mapping/RoundTrip.antt =====
-- Reading back what `print_path` writes.
use mathlib.Core.List.{append_assoc}
use personal_world.Prelude.{
  ℕ, suc, zero, ◌<◌, List, [], ◌∷◌, ◌++◌, ◌≡◌, arith, refl, Text, length, All, length-append,
  nat_eq,
}
use personal_world.Prelude.Int.{pos, negsuc}
use personal_world.Tx.{ok}
use personal_world.Mapping.Path.{
  Segment, name, index, wildcard, Digits, read_name, bracket, read_bracket, read_step, read_steps,
  parse_path,
}
use personal_world.Mapping.Printing.{
  print_steps, print_path, IsStep, DigitLaws, span_name-append, read_index, steps_stop, Stops,
}

module _ (d : Digits) (str : ℕ → Text) (laws : DigitLaws d str) where
  read_name-append :
      (n rest : Text) → IsStep (name n) → Stops rest → read_name (n ++ rest) ≡ ok (name n, rest)
  unfolding read_name
  read_name-append n rest h s = rw (span_name-append n rest h.1 s, h.0)

  -- One round reads one step, if it knows how to go on.
  one_round :
      (fuel c : ℕ) (t rest : Text) (s : Segment) (steps : List Segment)
      → read_step d c t ≡ ok (s, rest)
      → read_steps d fuel rest ≡ ok steps
      → read_steps d (suc fuel) (c ∷ t) ≡ ok (s ∷ steps)
  unfolding read_steps
  one_round fuel c t rest s steps e h = rw (e, h)

  read_print :
      (fuel : ℕ) (steps : List Segment)
      → All IsStep steps
      → length (print_steps str steps) < fuel
      → read_steps d fuel (print_steps str steps) ≡ ok steps
  unfolding print_steps
  read_print zero steps a h = absurd (omega arith)
  read_print (suc fuel) [] a h = unfold read_steps in refl
  read_print (suc fuel) (name n ∷ steps) a h =
      one_round fuel b'.' (n ++ print_steps str steps) (print_steps str steps) (name n) steps
        (unfold read_step in
          read_name-append n (print_steps str steps) a.0 (steps_stop d str laws steps))
        (read_print fuel steps a.1 (omega (arith, length-append n (print_steps str steps))))
  read_print (suc fuel) (index (pos n) ∷ steps) a h =
      rw (append_assoc (str n) (b']' ∷ []) (print_steps str steps)) (
        one_round fuel b'[' (str n ++ b']' ∷ print_steps str steps) (print_steps str steps)
          (index (pos n)) steps
          (unfold read_step in read_index d str laws n (print_steps str steps))
          (read_print fuel steps a.1 (
            omega (
              arith,
              length-append (str n ++ b']' ∷ []) (print_steps str steps),
              length-append (str n) (b']' ∷ []),
            ))))
  read_print (suc fuel) (index (negsuc n) ∷ steps) a h =
      one_round fuel b'[' (b'-' ∷ b'1' ∷ b']' ∷ print_steps str steps) (print_steps str steps)
        (index (negsuc n)) steps (rw (a.0) (unfold read_step read_bracket bracket in refl))
        (read_print fuel steps a.1 (omega arith))
  read_print (suc fuel) (wildcard ∷ steps) a h =
      one_round fuel b'[' (b'*' ∷ b']' ∷ print_steps str steps) (print_steps str steps) wildcard
        steps (unfold read_step read_bracket bracket in refl)
        (read_print fuel steps a.1 (omega arith))

  -- A path that is written from steps of the grammar parses to these steps.
  pub parse_path-print_path :
      (steps : List Segment) → All IsStep steps → parse_path d (print_path str steps) ≡ ok steps
  unfolding parse_path print_path
  parse_path-print_path steps a =
      read_print (suc (length (print_steps str steps))) steps a (omega arith)
