-- ===== src/Mapping/Resolve.antt =====
-- `resolve`, `count_of` and `extract` of worlds/mapping.py.
use personal_world.Prelude.{
  ℕ, suc, zero, Bool, true, false, Option, none, some, List, [], ◌∷◌, ◌++◌, ◌||◌, not, Text, codes,
  length, get_elem?, starts_with, if◌then◌else◌,
}
use personal_world.Prelude.Int.{ℤ, pos, negsuc}
use personal_world.Value.{Value, arr, obj, Items, nil, cons, Fields, end, field}
use personal_world.Tx.{Result, ok, err}
use personal_world.Mapping.Path.{Segment, name, index, wildcard, PathError, Digits, parse_path}
use personal_world.Prelude.{same_text}

-- A list of JSON values
unfoldable pub items : Items → List Value
items nil = []
items (cons v vs) = v ∷ items vs

-- `node[step.name]`, if the key is there; a key is a text
unfoldable pub get_name : Text → Fields → Option Value
unfolding same_text
get_name n end = none
get_name n (field key v rest) =
    let later = get_name n rest in if same_text (codes key) n then some v else later

-- `node[-1]`
unfoldable pub last_of : List Value → Option Value
last_of [] = none
last_of (v ∷ []) = some v
last_of (v ∷ w ∷ vs) = last_of (w ∷ vs)

abbrev at_index : ℤ → List Value → Option Value
at_index (pos n) vs = get_elem? vs n
at_index (negsuc zero) vs = last_of vs
at_index (negsuc (suc n)) vs = none

abbrev one : Option Value → Option (List Value)
one none = none
one (some v) = some (v ∷ [])

-- What one step finds at one node; `none` where the code sets `skipped`
unfoldable pub pick : Segment → Value → Option (List Value)
unfolding items get_name last_of
pick (name n) (obj fs) = one (get_name n fs)
pick (index i) (arr vs) = one (at_index i (items vs))
pick wildcard (arr vs) = some (items vs)
pick s v = none

abbrev pub found_here : Option (List Value) → List Value
found_here none = []
found_here (some vs) = vs

abbrev pub is_skip : Option (List Value) → Bool
is_skip none = true
is_skip (some vs) = false

-- The inner loop: the nodes of the next round, and whether a node was skipped
unfoldable pub advance : Segment → List Value → List Value × Bool
unfolding pick
advance s [] = ([], false)
advance s (v ∷ vs) =
    let rest = advance s vs in (found_here (pick s v) ++ rest.0, is_skip (pick s v) || rest.1)

pub record Resolved : Type 0 where
  pub values : List Value
  pub found : Bool

-- `if not current: return`
abbrev pub stop_or : List Value → Bool → (List Value → Resolved) → Resolved
stop_or [] skipped k = record { values = []; found = not skipped }
stop_or (v ∷ vs) skipped k = k (v ∷ vs)

-- The loop over the steps; it stops early when nothing is left.
unfoldable pub resolve_steps : List Segment → Bool → List Value → Resolved
resolve_steps [] skipped current = record { values = current; found = true }
resolve_steps (s ∷ steps) skipped current =
    let now_skipped = skipped || (advance s current).1 in
    stop_or (advance s current).0 now_skipped (λ vs. resolve_steps steps now_skipped vs)

abbrev pub then_resolve : Value → Result PathError (List Segment) → Result PathError Resolved
then_resolve doc (err e) = err e
then_resolve doc (ok steps) = ok (resolve_steps steps false (doc ∷ []))

-- `resolve`
unfoldable pub resolve : Digits → Value → Text → Result PathError Resolved
unfolding resolve_steps
resolve d doc path = then_resolve doc (parse_path d path)

-- `"[*]" in path`
unfoldable pub has_wildcard : Text → Bool
unfolding starts_with
has_wildcard [] = false
has_wildcard (c ∷ t) = starts_with (c ∷ t) (b'[' ∷ b'*' ∷ b']' ∷ []) || has_wildcard t

abbrev count_list : List Value → Option ℕ
count_list (arr vs ∷ []) = some (length (items vs))
count_list vs = none

-- `count_of`
unfoldable pub count_of : Resolved → Text → Option ℕ
unfolding has_wildcard
count_of res path =
    if not res.found
    then none
    else if has_wildcard path
    then some (length res.values)
    else count_list res.values

abbrev values_of : Result PathError Resolved → Result PathError (List Value)
values_of (ok r) = ok r.values
values_of (err e) = err e

-- `extract`
unfoldable pub extract : Digits → Value → Text → Result PathError (List Value)
unfolding resolve
extract d doc path = values_of (resolve d doc path)
