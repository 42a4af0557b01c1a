-- ===== src/Scheduler/Ticks.antt =====
-- What ticks fire.
use personal_world.Prelude.{
  ℕ, ◌+◌, ◌≤◌, ◌<◌, suc, zero, Bool, true, false, Option, none, some, ◌⊎◌, nat_eq, String, List, [],
  ◌∷◌, ◌≡◌, refl, arith, ap, Bool-cases, inl, inr, string_eq, ◌&&◌, not, if◌then◌else◌,
}
use personal_world.Table.{select_where}
use personal_world.Scheduler.Reminders.{
  Reminder, Store, Moment, is_due, fire, save_if, check_and_fire,
}

-- The texts of the reminders that pass a test, in their order.
unfoldable pub texts_of : (Reminder → Bool) → List Reminder → List String
unfolding select_where
texts_of test [] = []
texts_of test (r ∷ rest) =
    let later = texts_of test rest in if test r then r.text ∷ later else later

-- A reminder that fired at `at` is not due at any moment less than a minute later.
stamped_waits :
    (now : Moment) (t at : ℕ) (r : Reminder)
    → 1 ≤ at
    → t < at + 60
    → is_due now t (record r { last_fired = some at }) ≡ false
unfolding is_due
stamped_waits now t zero r pos soon = absurd (omega (arith, pos))
stamped_waits now t (suc n) r pos soon = ground (arith, soon)

second_texts :
    (now later : Moment) (read stamp read' stamp' : String → ℕ) (rs : List Reminder)
    → ((name : String) → 1 ≤ stamp name)
    → ((name : String) → read' name < stamp name + 60)
    → (fire later read' stamp' (fire now read stamp rs).1).0
      ≡ texts_of (λ r. not (is_due now (read r.id) r) && is_due later (read' r.id) r) rs
unfolding fire texts_of
second_texts now later read stamp read' stamp' [] pos soon = refl
second_texts now later read stamp read' stamp' (r ∷ rest) pos soon =
    elim (Bool-cases (is_due now (read r.id) r)) [
      | inl e ↦
          rw (e, stamped_waits later (read' r.id) (stamp r.id) r (pos r.id) (soon r.id))
            (second_texts now later read stamp read' stamp' rest pos soon)
      | inr e ↦ elim (Bool-cases (is_due later (read' r.id) r)) [
        | inl f ↦
            rw (e, f)
              (ap (λ ts. r.text ∷ ts)
                (second_texts now later read stamp read' stamp' rest pos soon))
        | inr f ↦ rw (e, f) (second_texts now later read stamp read' stamp' rest pos soon)
      ]
    ]

saved_or_not :
    (ts : List String) (rs : List Reminder) (s : Store) → (save_if ts rs s).reminders ≡ rs
saved_or_not [] rs s = refl
saved_or_not (t ∷ ts) rs s = refl

-- A setting that names the number, or none, which is any
abbrev pub Matches : {A : Type 0} → Option A → A → Type 0
Matches o x = (o ≡ none) ⊎ (o ≡ some x)

-- When a reminder is due; one whose time is kept as 0 counts as never fired.
pub record IsDue (now : Moment) (t : ℕ) (r : Reminder) : Type 0 where
  pub switched_on : r.enabled ≡ true
  pub at_hour : Matches r.cron_hour now.hour
  pub at_minute : Matches r.cron_minute now.minute
  pub on_day : Matches r.cron_day now.day_name
  pub rested : (n : ℕ) → r.last_fired ≡ some n → (n ≡ 0) ⊎ (n + 60 ≤ t)

-- One tick: from the reminders, the texts that fire and the reminders as they are kept
pub data Firing (now : Moment) (read stamp : String → ℕ)
    : List Reminder → List String → List Reminder → Type 0 where
  done : Firing now read stamp [] [] []
  due :
      {r : Reminder} {rs kept : List Reminder} {texts : List String}
      → IsDue now (read r.id) r
      → Firing now read stamp rs texts kept
      → Firing now read stamp
          (r ∷ rs)
          (r.text ∷ texts)
          (record r { last_fired = some (stamp r.id) } ∷ kept)
  waits :
      {r : Reminder} {rs kept : List Reminder} {texts : List String}
      → (¬ (IsDue now (read r.id) r))
      → Firing now read stamp rs texts kept
      → Firing now read stamp (r ∷ rs) texts (r ∷ kept)

-- A second tick, less than a minute after the times that the first one kept, fires exactly the
-- reminders that are due then and were not fired by the first.
pub no_double_fire :
    (now later : Moment) (read stamp read' stamp' : String → ℕ) (s : Store)
    → ((name : String) → 1 ≤ stamp name)
    → ((name : String) → read' name < stamp name + 60)
    → (check_and_fire later read' stamp' (check_and_fire now read stamp s).1).0
      ≡ texts_of (λ r. not (is_due now (read r.id) r) && is_due later (read' r.id) r) s.reminders
unfolding check_and_fire
no_double_fire now later read stamp read' stamp' s pos soon =
    rw (saved_or_not (fire now read stamp s.reminders).0 (fire now read stamp s.reminders).1 s)
      (second_texts now later read stamp read' stamp' s.reminders pos soon)
