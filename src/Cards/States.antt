-- ===== src/Cards/States.antt =====
-- `_source_state_from_status` and `_field_value` of worlds/cards.py.
use personal_world.Prelude.{
  ℕ, Text, String, Bool, true, false, Option, none, some, List, [], ◌∷◌, ◌++◌, ◌&&◌, not, any, all,
  codes, if◌then◌else◌,
}
use personal_world.Prelude.Int.{int_ltb}
use personal_world.Value.{Value, num, arr, Items, nil, cons}
use personal_world.Tx.{Result, ok, err}
use personal_world.Mapping.Path.{Digits, PathError, mapping_error, value_error, no_fuel}
use personal_world.Mapping.Resolve.{Resolved, resolve, count_of, has_wildcard}
use personal_world.Runner.Fetch.{Raised, path_raised}
use personal_world.Config.Files.Objects.{
  Format, number, count, CardField, SourceState, healthy, needs_attention, degraded, unknown, Above,
  Mode, first, all_of, any_of, StatusMap,
}

-- `try: res = resolve(...)`, with its `except MappingError`: any other exception goes on.
abbrev pub caught : {A : Type 0} → A → (Resolved → A) → Result PathError Resolved → Result Raised A
caught a f (ok res) = ok (f res)
caught a f (err mapping_error) = ok a
caught a f (err value_error) = err (path_raised value_error)
caught a f (err no_fuel) = err (path_raised no_fuel)

-- Python's `==` and what worlds/mapping.py makes of a value
pub record ShowOps : Type 0 where
  pub equal : Value → Value → Bool
  pub format_value : Value → Format → Option String → ℕ → Text
  pub whole : ℕ → Value

-- `v in vs`
unfoldable pub is_in : ShowOps → List Value → Value → Bool
unfolding any
is_in ops vs v = any (ops.equal v) vs

-- The threshold, at the first value
abbrev pub above_state : Option Above → Value → Option SourceState
above_state none v = none
above_state (some a) (num n) =
    if int_ltb a.value n then some (if a.degrades then degraded else needs_attention) else none
above_state (some a) v = none

abbrev pub or_state : Option SourceState → SourceState → SourceState
or_state none s = s
or_state (some t) s = t

unfoldable pub by_mode : ShowOps → StatusMap → Mode → Value → List Value → SourceState
unfolding is_in any all
by_mode ops s first v vs =
    if is_in ops s.healthy v
    then healthy
    else if is_in ops s.needs_attention v
    then needs_attention
    else unknown
by_mode ops s all_of v vs =
    if any (is_in ops s.needs_attention) (v ∷ vs)
    then needs_attention
    else if all (is_in ops s.healthy) (v ∷ vs)
    then healthy
    else unknown
by_mode ops s any_of v vs =
    if any (is_in ops s.needs_attention) (v ∷ vs)
    then needs_attention
    else if any (is_in ops s.healthy) (v ∷ vs)
    then healthy
    else unknown

abbrev pub of_values : ShowOps → StatusMap → Bool → List Value → SourceState
of_values ops s exists [] = if exists && s.empty_is_healthy then healthy else unknown
of_values ops s exists (v ∷ vs) = or_state (above_state s.above v) (by_mode ops s s.mode v vs)

abbrev pub of_resolved : ShowOps → StatusMap → Result PathError Resolved → Result Raised SourceState
of_resolved ops s answer = caught unknown (λ res. of_values ops s res.found res.values) answer

-- `_source_state_from_status`
unfoldable pub source_state :
    ShowOps → Digits → Option StatusMap → Value → Result Raised SourceState
unfolding by_mode resolve
source_state ops d none document = ok healthy
source_state ops d (some s) document = of_resolved ops s (resolve d document (codes s.path))

-- `{"text": ..., "raw": ...}`, where `raw` may be left out
pub record FieldValue : Type 0 where
  pub text : Text
  pub raw : Option Value

-- `_NO_MATCH`
abbrev pub no_match : FieldValue
no_match = record { text = codes "unknown"; raw = none }

abbrev pub to_items : List Value → Items
to_items [] = nil
to_items (v ∷ vs) = cons v (to_items vs)

abbrev pub joined : List Text → Text
joined [] = []
joined (t ∷ []) = t
joined (t ∷ u ∷ ts) = t ++ (codes ", " ++ joined (u ∷ ts))

abbrev pub or_none : Text → Text
or_none [] = codes "none"
or_none (c ∷ t) = c ∷ t

abbrev shown_value : ShowOps → CardField → ℕ → Value → FieldValue
shown_value ops f now v = record { text = ops.format_value v f.format f.unit now; raw = some v }

abbrev pub counted : ShowOps → CardField → ℕ → Option ℕ → FieldValue
counted ops f now none = no_match
counted ops f now (some n) = record {
  text = ops.format_value (ops.whole n) number f.unit now;
  raw = some (ops.whole n);
}

abbrev pub texts : ShowOps → CardField → ℕ → List Value → List Text
texts ops f now [] = []
texts ops f now (v ∷ vs) = ops.format_value v f.format f.unit now ∷ texts ops f now vs

abbrev pub of_list : ShowOps → CardField → ℕ → List Value → FieldValue
of_list ops f now [] = no_match
of_list ops f now (v ∷ []) = shown_value ops f now v
of_list ops f now (v ∷ w ∷ vs) = shown_value ops f now (arr (to_items (v ∷ w ∷ vs)))

abbrev pub is_count : Format → Bool
is_count count = true
is_count _ = false

abbrev pub of_found : ShowOps → CardField → ℕ → Resolved → FieldValue
of_found ops f now res =
    if not res.found
    then no_match
    else if is_count f.format
    then counted ops f now (count_of res (codes f.path))
    else if has_wildcard (codes f.path)
    then record {
      text = or_none (joined (texts ops f now res.values));
      raw = some (arr (to_items res.values));
    }
    else of_list ops f now res.values

abbrev pub of_answer :
    ShowOps → CardField → ℕ → Result PathError Resolved → Result Raised FieldValue
of_answer ops f now answer = caught no_match (of_found ops f now) answer

-- `_field_value`
unfoldable pub field_value : ShowOps → Digits → Value → CardField → ℕ → Result Raised FieldValue
unfolding resolve count_of has_wildcard
field_value ops d document f now = of_answer ops f now (resolve d document (codes f.path))
