-- ===== src/Mapping/Parsing.antt =====
-- The loop of `parse_path` ends.
use personal_world.Prelude.{
  ℕ, suc, zero, ◌≤◌, ◌<◌, some, List, [], ◌∷◌, ◌≡◌, ◌≢◌, arith, Text, length, inl, inr, Bool-cases,
  Option-cases, refl, ap, ◌∙◌, ◌==◌, nat_eq,
}
use personal_world.Tx.{Result, ok, err}
use personal_world.Mapping.Path.{
  Segment, PathError, no_fuel, Digits, span_name, read_name, to_close, read_bracket, read_step,
  read_steps, parse_path, bracket, bad_name, with_rest, continue, add_step,
}

length-span_name : (t : Text) → length (span_name t).1 ≤ length t
unfolding span_name
length-span_name [] = omega arith
length-span_name (c ∷ t) = ground (arith, length-span_name t)

-- A reader leaves no more than it got, and it does not run out of fuel.
abbrev Shrinks : ℕ → Result PathError (Segment × Text) → Type 0
Shrinks n (ok p) = length p.1 ≤ n
Shrinks n (err e) = e ≢ no_fuel

to_close-le : (t : Text) {p : Text × Text} → to_close t ≡ some p → length p.1 ≤ length t
unfolding to_close
to_close-le [] h = cc
to_close-le (c ∷ t) {p} h = elim (Option-cases (to_close t)) [
  | inl e ↦ ground (arith, e)
  | inr (q, e) ↦ ground (arith, e, to_close-le t e)
]

bracket-ne-no_fuel : (d : Digits) (inner : Text) → bracket d inner ≢ err no_fuel
unfolding bracket
bracket-ne-no_fuel d inner = λ e. ground (arith, e)

closed-Shrinks :
    (d : Digits) (n : ℕ) (inner rest : Text) (r : Result PathError Segment)
    → bracket d inner ≡ r
    → length rest ≤ n
    → Shrinks n (with_rest r rest)
closed-Shrinks d n inner rest (ok s) e h = h
closed-Shrinks d n inner rest (err x) e h = λ f. bracket-ne-no_fuel d inner (e ∙ ap err f)

read_bracket-Shrinks : (d : Digits) (t : Text) → Shrinks (length t) (read_bracket d t)
unfolding read_bracket
read_bracket-Shrinks d t = elim (Option-cases (to_close t)) [
  | inl e ↦ rw e (λ f. cc)
  | inr (p, e) ↦ rw e (closed-Shrinks d (length t) p.0 p.1 (bracket d p.0) refl (to_close-le t e))
]

read_name-Shrinks : (t : Text) → Shrinks (length t) (read_name t)
unfolding read_name
read_name-Shrinks t = elim (Bool-cases (bad_name (span_name t).0)) [
  | inl e ↦ rw e (λ f. cc)
  | inr e ↦ rw e (length-span_name t)
]

read_step-Shrinks : (d : Digits) (c : ℕ) (t : Text) → Shrinks (length t) (read_step d c t)
unfolding read_step
read_step-Shrinks d c t = elim (Bool-cases (c == b'.')) [
  | inl e ↦ rw e (read_name-Shrinks t)
  | inr e ↦ elim (Bool-cases (c == b'[')) [
    | inl f ↦ rw (e, f) (read_bracket-Shrinks d t)
    | inr f ↦ rw (e, f) (λ g. cc)
  ]
]

add_step-ne :
    (s : Segment) (r : Result PathError (List Segment))
    → r ≢ err no_fuel
    → add_step s r ≢ err no_fuel
add_step-ne s (ok steps) h = λ e. cc
add_step-ne s (err x) h = h

read_steps_total :
    (d : Digits) (fuel : ℕ) (t : Text) → length t < fuel → read_steps d fuel t ≢ err no_fuel
unfolding read_steps
read_steps_total d zero t h = absurd (omega arith)
read_steps_total d (suc fuel) [] h = λ e. cc
read_steps_total d (suc fuel) (c ∷ t) h =
    by_step (read_step d c t) (read_step-Shrinks d c t)
      (λ rest l. read_steps_total d fuel rest (omega arith))
  where
    by_step :
        (r : Result PathError (Segment × Text))
        → Shrinks (length t) r
        → ((rest : Text) → length rest ≤ length t → read_steps d fuel rest ≢ err no_fuel)
        → continue r (λ rest. read_steps d fuel rest) ≢ err no_fuel
    by_step (err x) s k = λ e. s (ground arith)
    by_step (ok p) s k = add_step-ne p.0 (read_steps d fuel p.1) (k p.1 s)

-- `parse_path` always ends, with the steps or with an exception, within as many rounds as the path
-- has characters.
pub parse_path_total : (d : Digits) (path : Text) → parse_path d path ≢ err no_fuel
unfolding parse_path
parse_path_total d [] = λ e. cc
parse_path_total d (c ∷ t) = elim (Bool-cases (c == b'$')) [
  | inl e ↦ rw e (read_steps_total d (suc (length t)) t (omega arith))
  | inr e ↦ rw e (λ f. cc)
]
