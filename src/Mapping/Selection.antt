-- ===== src/Mapping/Selection.antt =====
-- `resolve` against the meaning of a path: the values that its steps reach, in document order.
use mathlib.Core.List.{append_assoc, append-nil}
use personal_world.Prelude.{
  ◌≤◌, Bool, true, false, List, [], ◌∷◌, ◌++◌, ◌≡◌, ◌↔◌, refl, arith, ap, sym, ◌∙◌, Text, length,
  All, ◌||◌, ◌&&◌, any, not, length-append,
}
use personal_world.Value.{Value}
use personal_world.Tx.{Result, ok, err}
use personal_world.Mapping.Path.{Segment, name, index, wildcard, PathError, Digits, parse_path}
use personal_world.Mapping.Resolve.{
  pick, found_here, is_skip, advance, Resolved, stop_or, resolve_steps, resolve,
}

concat_map : {A B : Type 0} → (A → List B) → List A → List B
concat_map f [] = []
concat_map f (x ∷ xs) = f x ++ concat_map f xs

concat_map-append :
    {A B : Type 0} (f : A → List B) (xs ys : List A)
    → concat_map f (xs ++ ys) ≡ concat_map f xs ++ concat_map f ys
unfolding concat_map
concat_map-append f [] ys = refl
concat_map-append f (x ∷ xs) ys =
    ap (λ zs. f x ++ zs) (concat_map-append f xs ys)
    ∙ sym (append_assoc (f x) (concat_map f xs) (concat_map f ys))

concat_map-concat_map :
    {A B C : Type 0} (f : A → List B) (g : B → List C) (xs : List A)
    → concat_map (λ x. concat_map g (f x)) xs ≡ concat_map g (concat_map f xs)
unfolding concat_map
concat_map-concat_map f g [] = refl
concat_map-concat_map f g (x ∷ xs) =
    ap (λ zs. concat_map g (f x) ++ zs) (concat_map-concat_map f g xs)
    ∙ sym (concat_map-append g (f x) (concat_map f xs))

concat_map_one : {A : Type 0} (xs : List A) → concat_map (λ x. x ∷ []) xs ≡ xs
unfolding concat_map
concat_map_one [] = refl
concat_map_one (x ∷ xs) = ap (λ zs. x ∷ zs) (concat_map_one xs)

any-append :
    {A : Type 0} (p : A → Bool) (xs ys : List A) → any p (xs ++ ys) ≡ (any p xs || any p ys)
unfolding any
any-append p [] ys = refl
any-append p (x ∷ xs) ys = ground (arith, any-append p xs ys)

-- The values below one value: each step is taken at each value that the steps before it reach.
pub select : List Segment → Value → List Value
unfolding concat_map
select [] v = v ∷ []
select (s ∷ steps) v = concat_map (select steps) (found_here (pick s v))

-- Whether some step finds nothing at a value that the steps before it reach.
pub misses : List Segment → Value → Bool
unfolding any
misses [] v = false
misses (s ∷ steps) v = is_skip (pick s v) || any (misses steps) (found_here (pick s v))

advance-values :
    (s : Segment) (current : List Value)
    → (advance s current).0 ≡ concat_map (λ v. found_here (pick s v)) current
unfolding advance concat_map
advance-values s [] = refl
advance-values s (v ∷ vs) = ap (λ zs. found_here (pick s v) ++ zs) (advance-values s vs)

misses_split :
    (s : Segment) (steps : List Segment) (current : List Value)
    → any (misses (s ∷ steps)) current
      ≡ ((advance s current).1 || any (misses steps) (advance s current).0)
unfolding advance misses any
misses_split s steps [] = refl
misses_split s steps (v ∷ vs) = ground (
  arith,
  misses_split s steps vs,
  any-append (misses steps) (found_here (pick s v)) (advance s vs).0,
)

abbrev is_nil : List Value → Bool
is_nil [] = true
is_nil (v ∷ vs) = false

any-nil : {A : Type 0} (p : A → Bool) → any p [] ≡ false
unfolding any
any-nil p = refl

concat_map-nil : {A B : Type 0} (f : A → List B) → concat_map f [] ≡ []
unfolding concat_map
concat_map-nil f = refl

-- One round of the loop.
abbrev Agrees : List Segment → Bool → List Value → Resolved → Type 0
Agrees steps skipped current r =
    (r.values ≡ concat_map (select steps) current)
    × (r.found ≡ not (is_nil r.values && (skipped || any (misses steps) current)))

select_step :
    (s : Segment) (steps : List Segment) (current : List Value)
    → concat_map (select (s ∷ steps)) current ≡ concat_map (select steps) (advance s current).0
unfolding select
select_step s steps current =
    concat_map-concat_map (λ w. found_here (pick s w)) (select steps) current
    ∙ ap (concat_map (select steps)) (sym (advance-values s current))

step-Agrees :
    (s : Segment) (steps : List Segment) (skipped : Bool) (current : List Value) (r : Resolved)
    → Agrees steps (skipped || (advance s current).1) (advance s current).0 r
    → Agrees (s ∷ steps) skipped current r
step-Agrees s steps skipped current r h =
    (h.0 ∙ sym (select_step s steps current), ground (arith, h.1, misses_split s steps current))

stop_or-Agrees :
    (steps : List Segment) (skipped : Bool) (k : List Value → Resolved) (next : List Value)
    → ((v : Value) (vs : List Value) → Agrees steps skipped (v ∷ vs) (k (v ∷ vs)))
    → Agrees steps skipped next (stop_or next skipped k)
stop_or-Agrees steps skipped k [] h =
    (sym (concat_map-nil (select steps)), ground (arith, any-nil (misses steps)))
stop_or-Agrees steps skipped k (v ∷ vs) h = h v vs

resolve_steps-Agrees :
    (steps : List Segment) (skipped : Bool) (v : Value) (vs : List Value)
    → Agrees steps skipped (v ∷ vs) (resolve_steps steps skipped (v ∷ vs))
unfolding resolve_steps
resolve_steps-Agrees [] skipped v vs = (sym (unfold select in concat_map_one (v ∷ vs)), refl)
resolve_steps-Agrees (s ∷ steps) skipped v vs =
    step-Agrees s steps skipped (v ∷ vs) (resolve_steps (s ∷ steps) skipped (v ∷ vs)) (
      stop_or-Agrees steps (skipped || (advance s (v ∷ vs)).1) _ (advance s (v ∷ vs)).0
        (λ w ws. resolve_steps-Agrees steps (skipped || (advance s (v ∷ vs)).1) w ws))

pub resolve_selects :
    (d : Digits) (doc : Value) (path : Text) {steps : List Segment}
    → parse_path d path ≡ ok steps
    → (r : Resolved) × (resolve d doc path ≡ ok r)
      × (r.values ≡ select steps doc)
      × ((r.found ≡ false) ↔ ((select steps doc ≡ []) × (misses steps doc ≡ true)))
unfolding resolve
resolve_selects d doc path {steps} h =
    (resolve_steps steps false (doc ∷ []), rw h, values, by_values (select steps doc) refl)
  where
    agrees : Agrees steps false (doc ∷ []) (resolve_steps steps false (doc ∷ []))
    agrees = resolve_steps-Agrees steps false doc []

    values : (resolve_steps steps false (doc ∷ [])).values ≡ select steps doc
    values = agrees.0 ∙ (unfold concat_map in append-nil (select steps doc))

    missed : any (misses steps) (doc ∷ []) ≡ misses steps doc
    missed = unfold any in ground arith

    by_values :
        (vs : List Value)
        → select steps doc ≡ vs
        → ((resolve_steps steps false (doc ∷ [])).found ≡ false)
          ↔ ((select steps doc ≡ []) × (misses steps doc ≡ true))
    by_values [] e = (
      λ f. (e, ground (arith, agrees.1, values, missed)),
      λ g. ground (arith, agrees.1, values, missed, e, g.1),
    )
    by_values (v ∷ vs) e =
        (λ f. absurd (ground (arith, agrees.1, values, missed, e)), λ g. absurd (cc (e, g.0)))

abbrev values_or : Result PathError Resolved → List Value
values_or (ok r) = r.values
values_or (err e) = []

abbrev pub IsSingle : Segment → Type 0
IsSingle wildcard = ⊥
IsSingle s = Unit

length-pick : (s : Segment) (v : Value) → IsSingle s → length (found_here (pick s v)) ≤ 1
unfolding pick
length-pick (name n) v h = ground arith
length-pick (index i) v h = ground arith
length-pick wildcard v h = absurd h

length-select :
    (steps : List Segment) (v : Value) → All IsSingle steps → length (select steps v) ≤ 1
unfolding select
length-select [] v h = omega arith
length-select (s ∷ steps) v h =
    by_found (found_here (pick s v)) (length-pick s v h.0) (λ w. length-select steps w h.1)
  where
    by_found :
        (ws : List Value)
        → length ws ≤ 1
        → ((w : Value) → length (select steps w) ≤ 1)
        → length (concat_map (select steps) ws) ≤ 1
    by_found [] l k = omega arith
    by_found (w ∷ []) l k = omega (arith, k w, length-append (select steps w) [])
    by_found (w ∷ x ∷ ws) l k = absurd (omega arith)

-- A path with no wildcard gives one value at most.
pub resolve_single :
    (d : Digits) (doc : Value) (path : Text) {steps : List Segment} {r : Resolved}
    → parse_path d path ≡ ok steps
    → All IsSingle steps
    → resolve d doc path ≡ ok r
    → length r.values ≤ 1
resolve_single d doc path {steps} {r} h single e =
    let (s, same, values, found) = resolve_selects d doc path h in
    omega (
      arith,
      length-select steps doc single,
      ap length values,
      ap (λ (x : Result PathError Resolved). length (values_or x)) (sym e ∙ same),
    )
