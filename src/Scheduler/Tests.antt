-- ===== src/Scheduler/Tests.antt =====
-- The scheduler at concrete inputs.
use personal_world.Prelude.{true, none, some, [], ◌∷◌, ◌≡◌, ◌&&◌, not, arith, refl}
use personal_world.Scheduler.Reminders.{Reminder, Store, Moment, is_due, fire, check_and_fire}
use personal_world.Scheduler.Ticks.{texts_of, no_double_fire}

abbrev tea : Reminder
tea = record {
  id = "tea";
  text = "tea time";
  cron_hour = some 16;
  cron_minute = some 30;
  cron_day = none;
  enabled = true;
  last_fired = none;
  created_at = 1;
}

abbrev store : Store
store = record { reminders = tea ∷ []; saved = [] }

abbrev four_thirty : Moment
four_thirty = record { hour = 16; minute = 30; day_name = "mon" }

tea_is_due : (check_and_fire four_thirty (λ n. 100) (λ n. 100) store).0 ≡ "tea time" ∷ []
unfolding check_and_fire fire is_due
tea_is_due = refl

no_double_fire_example :
    (check_and_fire four_thirty
      (λ n. 130)
      (λ n. 130)
      (check_and_fire four_thirty (λ n. 100) (λ n. 100) store).1).0
    ≡ texts_of (λ r. not (is_due four_thirty 100 r) && is_due four_thirty 130 r) store.reminders
no_double_fire_example =
    no_double_fire four_thirty four_thirty (λ n. 100) (λ n. 100) (λ n. 130) (λ n. 130) store
      (λ n. omega arith) (λ n. omega arith)
