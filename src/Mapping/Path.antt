-- ===== src/Mapping/Path.antt =====
-- `parse_path` of worlds/mapping.py: the tokenizer of field paths. The code walks `path` by offsets;
-- here each reader takes the text from the offset on and gives back what is left of it.
use personal_world.Prelude.{
  ℕ, suc, zero, Bool, true, Option, none, some, List, [], ◌∷◌, ◌&&◌, ◌||◌, leb, not, Text, ◌==◌,
  nat_eq, length, same_text, starts_with, if◌then◌else◌,
}
use personal_world.Prelude.Int.{ℤ, pos, negsuc}
use personal_world.Tx.{Result, ok, err}

-- `_Name`, `_Index`, `_Wildcard`
pub data Segment : Type 0 where
  name : Text → Segment
  index : ℤ → Segment
  wildcard : Segment

-- `MappingError`; the `ValueError` that `int` raises on a text that only `isdigit` takes for a number;
-- `no_fuel` is none of Python's.
pub data PathError : Type 0 where
  mapping_error value_error no_fuel : PathError

-- `str.isdigit` and `int` on such a text, which may raise.
pub record Digits : Type 0 where
  pub is_digits : Text → Bool
  pub to_int : Text → Option ℕ

abbrev between : ℕ → ℕ → ℕ → Bool
between lo hi c = leb lo c && leb c hi

-- `_NAME_START`
abbrev pub is_name_start : ℕ → Bool
is_name_start c = between b'a' b'z' c || between b'A' b'Z' c || (c == b'_')

-- `_NAME_BODY`
abbrev pub is_name_body : ℕ → Bool
is_name_body c = is_name_start c || between b'0' b'9' c || (c == b'-')

-- The longest prefix of name characters, and the rest
unfoldable pub span_name : Text → Text × Text
span_name [] = ([], [])
span_name (c ∷ t) =
    let rest = span_name t in if is_name_body c then (c ∷ rest.0, rest.1) else ([], c ∷ t)

abbrev pub bad_name : Text → Bool
bad_name [] = true
bad_name (c ∷ t) = not (is_name_start c) || starts_with (c ∷ t) (b'_' ∷ b'_' ∷ [])

abbrev pub named : Text × Text → Result PathError (Segment × Text)
named p = if bad_name p.0 then err mapping_error else ok (name p.0, p.1)

-- `_read_name`, from behind the dot
unfoldable pub read_name : Text → Result PathError (Segment × Text)
unfolding span_name starts_with
read_name t = named (span_name t)

abbrev pub onto : ℕ → Option (Text × Text) → Option (Text × Text)
onto c none = none
onto c (some p) = some (c ∷ p.0, p.1)

-- `path.find("]")`: what stands before the first one, and behind it
unfoldable pub to_close : Text → Option (Text × Text)
to_close [] = none
to_close (c ∷ t) = let rest = to_close t in if c == b']' then some ([], t) else onto c rest

abbrev pub int_index : Option ℕ → Result PathError Segment
int_index none = err value_error
int_index (some n) = ok (index (pos n))

-- What stands in the brackets; the two refusals of the code are one error.
unfoldable pub bracket : Digits → Text → Result PathError Segment
unfolding same_text
bracket d inner =
    if same_text inner (b'*' ∷ [])
    then ok wildcard
    else if same_text inner (b'-' ∷ b'1' ∷ [])
    then ok (index (negsuc 0))
    else if d.is_digits inner
    then int_index (d.to_int inner)
    else err mapping_error

abbrev pub with_rest : Result PathError Segment → Text → Result PathError (Segment × Text)
with_rest (ok s) rest = ok (s, rest)
with_rest (err e) rest = err e

abbrev pub closed : Digits → Option (Text × Text) → Result PathError (Segment × Text)
closed d none = err mapping_error
closed d (some p) = with_rest (bracket d p.0) p.1

-- `_read_bracket`, from behind the bracket
unfoldable pub read_bracket : Digits → Text → Result PathError (Segment × Text)
unfolding to_close bracket
read_bracket d t = closed d (to_close t)

-- One round of the loop, at the character `c`
unfoldable pub read_step : Digits → ℕ → Text → Result PathError (Segment × Text)
unfolding read_name read_bracket
read_step d c t =
    if c == b'.' then read_name t else if c == b'[' then read_bracket d t else err mapping_error

abbrev pub add_step : Segment → Result PathError (List Segment) → Result PathError (List Segment)
add_step s (ok steps) = ok (s ∷ steps)
add_step s (err e) = err e

abbrev pub continue :
    Result PathError (Segment × Text)
    → (Text → Result PathError (List Segment))
    → Result PathError (List Segment)
continue (err e) k = err e
continue (ok p) k = add_step p.0 (k p.1)

-- The loop, with a bound on its rounds
unfoldable pub read_steps : Digits → ℕ → Text → Result PathError (List Segment)
unfolding read_step
read_steps d zero t = err no_fuel
read_steps d (suc fuel) [] = ok []
read_steps d (suc fuel) (c ∷ t) = continue (read_step d c t) (λ rest. read_steps d fuel rest)

-- `parse_path`; each round takes a character at least, so the length of the path bounds the rounds.
unfoldable pub parse_path : Digits → Text → Result PathError (List Segment)
unfolding read_steps
parse_path d [] = err mapping_error
parse_path d (c ∷ t) = if c == b'$' then read_steps d (suc (length t)) t else err mapping_error
