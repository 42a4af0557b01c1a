-- ===== src/Cards/Honest.antt =====
-- When a card of worlds/cards.py says that it is healthy.
use personal_world.Prelude.{
  Bool, true, false, Option, none, some, List, [], ◌∷◌, ◌≡◌, ◌↔◌, inl, inr, refl, ap, sym, subst,
  arith, string_eq, any, all, All, codes, if◌then◌else◌, Bool-cases,
}
use personal_world.Value.{Value, null, bool, num, str, arr, obj}
use personal_world.Tx.{ok_inj, Result, ok, err}
use personal_world.Mapping.Path.{Digits, PathError, mapping_error, value_error, no_fuel}
use personal_world.Mapping.Resolve.{Resolved, resolve}
use personal_world.Config.Files.Objects.{
  SourceState, healthy, needs_attention, unknown, Above, Mode, first, all_of, any_of, StatusMap,
}
use personal_world.Cards.States.{
  ShowOps, is_in, above_state, or_state, by_mode, of_values, of_resolved, source_state,
}

-- What a status map calls healthy, for the values that its path reaches: by mode, the first value
-- is in the healthy list; or no value needs attention and all are in it; or none does and not all
-- are outside.
abbrev pub HealthyBy : ShowOps → StatusMap → Mode → Value → List Value → Type 0
HealthyBy ops s first v vs = is_in ops s.healthy v ≡ true
HealthyBy ops s all_of v vs =
    All (λ w. (is_in ops s.needs_attention w ≡ false) × (is_in ops s.healthy w ≡ true)) (v ∷ vs)
HealthyBy ops s any_of v vs =
    All (λ w. is_in ops s.needs_attention w ≡ false) (v ∷ vs)
    × ¬ (All (λ w. is_in ops s.healthy w ≡ false) (v ∷ vs))

abbrev pub HealthyValues : ShowOps → StatusMap → Bool → List Value → Type 0
HealthyValues ops s exists [] = (exists ≡ true) × (s.empty_is_healthy ≡ true)
HealthyValues ops s exists (v ∷ vs) = (above_state s.above v ≡ none) × HealthyBy ops s s.mode v vs

abbrev pub IsHealthy : ShowOps → Digits → Option StatusMap → Value → Type 0
IsHealthy ops d none doc = Unit
IsHealthy ops d (some s) doc =
    (res : Resolved) × (resolve d doc (codes s.path) ≡ ok res)
    × HealthyValues ops s res.found res.values

any-false : (p : Value → Bool) (vs : List Value) → (any p vs ≡ false) ↔ All (λ w. p w ≡ false) vs
unfolding any
any-false p [] = (λ h. tt, λ h. refl)
any-false p (v ∷ vs) = (
  λ h. (ground (arith, h), (any-false p vs).0 (ground (arith, h))),
  λ h. ground (arith, h.0, (any-false p vs).1 h.1),
)

all-true : (p : Value → Bool) (vs : List Value) → (all p vs ≡ true) ↔ All (λ w. p w ≡ true) vs
unfolding all
all-true p [] = (λ h. tt, λ h. refl)
all-true p (v ∷ vs) = (
  λ h. (ground (arith, h), (all-true p vs).0 (ground (arith, h))),
  λ h. ground (arith, h.0, (all-true p vs).1 h.1),
)

any-true :
    (p : Value → Bool) (vs : List Value) → (any p vs ≡ true) ↔ (¬ (All (λ w. p w ≡ false) vs))
any-true p vs = (
  λ h k. ground (arith, h, (any-false p vs).1 k),
  λ h. elim (Bool-cases (any p vs)) [ inl e ↦ e | inr e ↦ absurd (h ((any-false p vs).0 e)) ],
)

All-zip : (P Q : Value → Type 0) (vs : List Value) → All (λ w. P w × Q w) vs ↔ (All P vs × All Q vs)
All-zip P Q [] = (λ h. (tt, tt), λ h. tt)
All-zip P Q (v ∷ vs) = (
  λ h. let (a, b) = (All-zip P Q vs).0 h.1 in ((h.0.0, a), (h.0.1, b)),
  λ h. ((h.0.0, h.1.0), (All-zip P Q vs).1 (h.0.1, h.1.1)),
)

decided :
    (bad good : Bool)
    → (◌≡◌ {A = SourceState}
        (if bad then needs_attention else if good then healthy else unknown)
        healthy)
      ↔ ((bad ≡ false) × (good ≡ true))
decided true good = (λ h. absurd (ground (arith, h)), λ h. absurd (ground (arith, h.0)))
decided false true = (λ h. (refl, refl), λ h. refl)
decided false false = (λ h. absurd (ground (arith, h)), λ h. absurd (ground (arith, h.1)))

first_decided :
    (good bad : Bool)
    → (◌≡◌ {A = SourceState}
        (if good then healthy else if bad then needs_attention else unknown)
        healthy)
      ↔ (good ≡ true)
first_decided true bad = (λ h. refl, λ h. refl)
first_decided false true = (λ h. absurd (ground (arith, h)), λ h. absurd (ground (arith, h)))
first_decided false false = (λ h. absurd (ground (arith, h)), λ h. absurd (ground (arith, h)))

module _ (ops : ShowOps) (s : StatusMap) where
  by_mode_iff :
      (m : Mode) (v : Value) (vs : List Value)
      → (by_mode ops s m v vs ≡ healthy) ↔ HealthyBy ops s m v vs
  unfolding by_mode
  by_mode_iff first v vs = first_decided (is_in ops s.healthy v) (is_in ops s.needs_attention v)
  by_mode_iff all_of v vs =
      let d =
        decided (any (is_in ops s.needs_attention) (v ∷ vs)) (all (is_in ops s.healthy) (v ∷ vs)) in
      let a = any-false (is_in ops s.needs_attention) (v ∷ vs) in
      let b = all-true (is_in ops s.healthy) (v ∷ vs) in
      let z =
        All-zip (λ w. is_in ops s.needs_attention w ≡ false) (λ w. is_in ops s.healthy w ≡ true)
          (v ∷ vs) in
      (λ h. z.1 (a.0 (d.0 h).0, b.0 (d.0 h).1), λ h. d.1 (a.1 (z.0 h).0, b.1 (z.0 h).1))
  by_mode_iff any_of v vs =
      let d =
        decided (any (is_in ops s.needs_attention) (v ∷ vs)) (any (is_in ops s.healthy) (v ∷ vs)) in
      let a = any-false (is_in ops s.needs_attention) (v ∷ vs) in
      let b = any-true (is_in ops s.healthy) (v ∷ vs) in
      (λ h. (a.0 (d.0 h).0, b.0 (d.0 h).1), λ h. d.1 (a.1 h.0, b.1 h.1))

  or_state_iff :
      (a : Option Above) (v : Value) (t : SourceState)
      → (or_state (above_state a v) t ≡ healthy) ↔ ((above_state a v ≡ none) × (t ≡ healthy))
  or_state_iff none v t = (λ h. (refl, h), λ h. h.1)
  or_state_iff (some a) (num n) t =
      (λ h. (ground (arith, h), ground (arith, h)), λ h. ground (arith, h.0, h.1))
  or_state_iff (some a) null t = (λ h. (refl, h), λ h. h.1)
  or_state_iff (some a) (bool b) t = (λ h. (refl, h), λ h. h.1)
  or_state_iff (some a) (str b) t = (λ h. (refl, h), λ h. h.1)
  or_state_iff (some a) (arr b) t = (λ h. (refl, h), λ h. h.1)
  or_state_iff (some a) (obj b) t = (λ h. (refl, h), λ h. h.1)

  of_values_iff :
      (exists : Bool) (vs : List Value)
      → (of_values ops s exists vs ≡ healthy) ↔ HealthyValues ops s exists vs
  of_values_iff true [] = ground arith
  of_values_iff false [] = ground arith
  of_values_iff exists (v ∷ vs) =
      let o = or_state_iff s.above v (by_mode ops s s.mode v vs) in
      let m = by_mode_iff s.mode v vs in (λ h. ((o.0 h).0, m.0 (o.0 h).1), λ h. o.1 (h.0, m.1 h.1))

pub source_state-IsHealthy :
    (ops : ShowOps) (d : Digits) (status : Option StatusMap) (doc : Value)
    → (source_state ops d status doc ≡ ok healthy) ↔ IsHealthy ops d status doc
unfolding source_state
source_state-IsHealthy ops d none doc = (λ h. tt, λ h. refl)
source_state-IsHealthy ops d (some s) doc = by_answer (resolve d doc (codes s.path))
  where
    by_answer :
        (o : Result PathError Resolved)
        → (of_resolved ops s o ≡ ok healthy)
          ↔ ((res : Resolved) × (o ≡ ok res) × HealthyValues ops s res.found res.values)
    by_answer (err mapping_error) =
        (λ h. absurd (ground (arith, h)), λ h. absurd (ground (arith, h.1)))
    by_answer (err value_error) =
        (λ h. absurd (ground (arith, h)), λ h. absurd (ground (arith, h.1)))
    by_answer (err no_fuel) = (λ h. absurd (ground (arith, h)), λ h. absurd (ground (arith, h.1)))
    by_answer (ok r) = (
      λ h. (r, refl, (of_values_iff ops s r.found r.values).0 (ok_inj h)),
      λ h. ap ok (
          (of_values_iff ops s r.found r.values).1
            (subst (λ z. HealthyValues ops s z.found z.values) (ok_inj (sym h.1)) h.2)),
    )
