-- ===== src/Scheduler/Reminders.antt =====
-- `Reminder` and the store of `Scheduler` in scheduler.py. The file holds what was saved last; a
-- call of `add`, `remove` or `toggle` answers whether it found the id.
use personal_world.Prelude.{
  ℕ, ◌+◌, zero, suc, Bool, true, false, Option, none, some, String, List, [], ◌∷◌, ◌&&◌, not, ltb,
  ◌==◌, nat_eq, string_eq, if◌then◌else◌,
}
use personal_world.Table.{update_where, delete_where}

pub record Reminder : Type 0 where
  pub id : String
  pub text : String
  pub cron_hour : Option ℕ
  pub cron_minute : Option ℕ
  pub cron_day : Option String
  pub enabled : Bool
  pub last_fired : Option ℕ
  pub created_at : ℕ

-- The dict in its order, and the file
pub record Store : Type 0 where
  pub reminders : List Reminder
  pub saved : List Reminder

abbrev pub has_id : String → Reminder → Bool
has_id name r = r.id == name

unfoldable pub is_known : String → List Reminder → Bool
is_known name [] = false
is_known name (r ∷ rest) = let later = is_known name rest in if has_id name r then true else later

-- `self._reminders[reminder.id] = reminder`
unfoldable pub put : Reminder → List Reminder → List Reminder
put r [] = r ∷ []
put r (s ∷ rest) = let later = put r rest in if has_id r.id s then r ∷ rest else s ∷ later

abbrev save : List Reminder → Store
save rs = record { reminders = rs; saved = rs }

-- `add`
unfoldable pub add : Reminder → Store → Store
unfolding put
add r s = save (put r s.reminders)

-- `remove`
unfoldable pub remove : String → Store → Bool × Store
unfolding is_known
remove name s =
    if is_known name s.reminders
    then (true, save (delete_where (has_id name) s.reminders))
    else (false, s)

-- `toggle`
unfoldable pub toggle : String → Bool → Store → Bool × Store
unfolding is_known
toggle name on s =
    if is_known name s.reminders
    then (true, save (update_where (has_id name) (λ r. record r { enabled = on }) s.reminders))
    else (false, s)

-- What `datetime.now` says.
pub record Moment : Type 0 where
  pub hour : ℕ
  pub minute : ℕ
  pub day_name : String

abbrev pub is_or_any : Option ℕ → ℕ → Bool
is_or_any none n = true
is_or_any (some m) n = n == m

abbrev pub day_or_any : Option String → String → Bool
day_or_any none day = true
day_or_any (some d) day = day == d

-- `r.last_fired and (time.time() - r.last_fired) < 60`
abbrev pub just_fired : Option ℕ → ℕ → Bool
just_fired none t = false
just_fired (some zero) t = false
just_fired (some (suc n)) t = ltb t (suc n + 60)

-- The tests of `check_and_fire` on one reminder, `t` what the clock says
unfoldable pub is_due : Moment → ℕ → Reminder → Bool
is_due now t r =
    r.enabled
    && is_or_any r.cron_hour now.hour
    && is_or_any r.cron_minute now.minute
    && day_or_any r.cron_day now.day_name
    && not (just_fired r.last_fired t)

-- The loop; `read` is the clock's reading in a reminder's test, `stamp` the one that is kept.
unfoldable pub fire :
    Moment → (String → ℕ) → (String → ℕ) → List Reminder → List String × List Reminder
unfolding is_due
fire now read stamp [] = ([], [])
fire now read stamp (r ∷ rest) =
    let later = fire now read stamp rest in
    if is_due now (read r.id) r
    then (r.text ∷ later.0, record r { last_fired = some (stamp r.id) } ∷ later.1)
    else (later.0, r ∷ later.1)

abbrev pub save_if : List String → List Reminder → Store → Store
save_if [] rs s = record s { reminders = rs }
save_if (t ∷ ts) rs s = save rs

-- `check_and_fire`, with the texts that fired
unfoldable pub check_and_fire : Moment → (String → ℕ) → (String → ℕ) → Store → List String × Store
unfolding fire
check_and_fire now read stamp s =
    let r = fire now read stamp s.reminders in (r.0, save_if r.0 r.1 s)
