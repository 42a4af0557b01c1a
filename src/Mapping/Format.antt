-- ===== src/Mapping/Format.antt =====
-- `_format_duration`, `_format_relative` and `_relate` of worlds/mapping.py, on whole seconds.
use personal_world.Prelude.{
  ℕ, ◌+◌, ◌*◌, ◌/◌, ◌%◌, ◌≤◌, ◌<◌, Bool, Option, none, some, [], ◌++◌, ◌≡◌, arith, codes, Text, ltb,
  ◌==◌, nat_eq, if◌then◌else◌,
}

abbrev is_zero : ℕ → Bool
is_zero n = n == 0

-- `_format_duration`, at a duration that `int(round(...))` gives; `str` writes a number.
unfoldable pub format_duration : (ℕ → Text) → Bool → ℕ → Text
format_duration str negative total =
    let hours = total / 3600 in
    let rest = total % 3600 in
    let minutes = rest / 60 in
    let secs = rest % 60 in
    if negative
    then codes "unknown"
    else if ltb 0 hours
    then (if ltb 0 minutes
        then str hours ++ codes "h " ++ str minutes ++ codes "m"
        else str hours ++ codes "h")
    else if ltb 0 minutes
    then (if ltb 0 secs
        then str minutes ++ codes "m " ++ str secs ++ codes "s"
        else str minutes ++ codes "m")
    else str secs ++ codes "s"

pub data TimeUnit : Type 0 where
  minute hour day week month year : TimeUnit

unfoldable pub unit_name : TimeUnit → Text
unit_name minute = codes "minute"
unit_name hour = codes "hour"
unit_name day = codes "day"
unit_name week = codes "week"
unit_name month = codes "month"
unit_name year = codes "year"

-- The count and the unit that `_format_relative` shows, at the seconds between the two moments
unfoldable pub relative_parts : ℕ → Option (ℕ × TimeUnit)
relative_parts seconds =
    let minutes = seconds / 60 in
    let hours = seconds / 3600 in
    let days = seconds / 86400 in
    if ltb seconds 60
    then none
    else if ltb minutes 60
    then some (minutes, minute)
    else if ltb hours 24
    then some (hours, hour)
    else if ltb days 7
    then some (days, day)
    else if ltb days 30
    then some (days / 7, week)
    else if ltb days 365
    then some (days / 30, month)
    else some (days / 365, year)

-- `_relate`
unfoldable pub relate : (ℕ → Text) → Bool → ℕ → TimeUnit → Text
unfolding unit_name
relate str future count u =
    let plural : Text = if count == 1 then [] else codes "s" in
    if future
    then codes "in " ++ str count ++ codes " " ++ unit_name u ++ plural
    else str count ++ codes " " ++ unit_name u ++ plural ++ codes " ago"

abbrev relative_text : (ℕ → Text) → Bool → Option (ℕ × TimeUnit) → Text
relative_text str future none = codes "just now"
relative_text str future (some p) = relate str future p.0 p.1

-- `_format_relative`, once both moments are read
unfoldable pub format_relative : (ℕ → Text) → Bool → ℕ → Text
unfolding relative_parts relate
format_relative str future seconds = relative_text str future (relative_parts seconds)

abbrev pub unit_seconds : TimeUnit → ℕ
unit_seconds minute = 60
unit_seconds hour = 3600
unit_seconds day = 86400
unit_seconds week = 604800
unit_seconds month = 2592000
unit_seconds year = 31536000

-- A relative time shows at least one of its unit, and the time that has passed lies between the count
-- and the next one: a time is never shown as 0 and never rounded up.
relative_parts_bounds :
    (seconds n : ℕ) (u : TimeUnit)
    → relative_parts seconds ≡ some (n, u)
    → (1 ≤ n) × (n * unit_seconds u ≤ seconds) × (seconds < (n + 1) * unit_seconds u)
unfolding relative_parts
relative_parts_bounds seconds n minute h = ground arith
relative_parts_bounds seconds n hour h = ground arith
relative_parts_bounds seconds n day h = ground arith
relative_parts_bounds seconds n week h = ground arith
relative_parts_bounds seconds n month h = ground arith
relative_parts_bounds seconds n year h = ground arith
