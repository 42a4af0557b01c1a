-- ===== src/Mapping/Tests.antt =====
-- Field paths at concrete inputs.
mod Decimal
use personal_world.Prelude.{
  ℕ, suc, zero, ◌+◌, ◌*◌, ◌-◌, ◌/◌, ◌%◌, ◌≤◌, ◌<◌, Bool, true, false, Option, none, some, List, [],
  ◌∷◌, ◌++◌, ◌≡◌, ◌≢◌, arith, refl, ap, sym, ◌∙◌, Text, length, leb, All, all, codes, starts_with,
  same_text, any,
}
use personal_world.Prelude.Int.{ℤ, pos, negsuc}
use personal_world.Value.{Value, arr, obj, num, nil, cons, end, field}
use personal_world.Tx.{Result, ok, err}
use personal_world.Mapping.Path.{
  Segment, name, index, wildcard, PathError, no_fuel, Digits, parse_path, read_steps, read_step,
  read_name, read_bracket, bracket, span_name, to_close,
}
use personal_world.Mapping.Resolve.{resolve, pick, resolve_steps, advance, items, get_name}
use personal_world.Mapping.Parsing.{parse_path_total}
use personal_world.Mapping.Printing.{
  IsDigit, IsStep, DigitLaws, print_path, print_steps, print_step,
}
use personal_world.Mapping.RoundTrip.{parse_path-print_path}
use personal_world.Mapping.Selection.{resolve_single, IsSingle}
use personal_world.Mapping.Format.{relative_parts, unit_seconds, TimeUnit, day, format_duration}
use personal_world.Mapping.Tests.Decimal.{decimals, decimal, decimals_hold, digits, number}

abbrev steps : List Segment
steps = name (codes "items") ∷ index (pos 12) ∷ wildcard ∷ index (negsuc 0) ∷ []

parse_path_total_example : parse_path decimals (codes "$.a[") ≢ err no_fuel
parse_path_total_example = parse_path_total decimals (codes "$.a[")

parse_path-print_path_example : parse_path decimals (print_path decimal steps) ≡ ok steps
unfolding all starts_with
parse_path-print_path_example =
    parse_path-print_path decimals decimal decimals_hold steps
      ((refl, refl), (tt, (tt, (refl, tt))))

abbrev doc : Value
doc = obj (
    field "a"
      (arr
        (cons (obj (field "b" (num (pos 1)) end)) (cons (obj (field "b" (num (pos 2)) end)) nil)))
      end)

abbrev every : List Segment
every = name (codes "a") ∷ wildcard ∷ name (codes "b") ∷ []

abbrev last_one : List Segment
last_one = name (codes "a") ∷ index (negsuc 0) ∷ []

last_is_single : length {A = Value} (obj (field "b" (num (pos 2)) end) ∷ []) ≤ 1
unfolding parse_path read_steps read_step read_name read_bracket bracket span_name to_close
    same_text starts_with resolve resolve_steps advance pick items get_name
last_is_single =
    resolve_single decimals doc (codes "$.a[-1]") {steps = last_one}
      {r = record { values = obj (field "b" (num (pos 2)) end) ∷ []; found = true }} refl
      (tt, (tt, tt)) refl

an_hour : format_duration decimal false 3725 ≡ codes "1h 2m"
unfolding format_duration decimal digits
an_hour = refl
