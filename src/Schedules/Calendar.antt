-- ===== src/Schedules/Calendar.antt =====
-- app/schedules.py: `next_after`, on the days and minutes of one time zone.
use bless_forge.Base.{
  ℕ, zero, suc, ◌+◌, ◌*◌, ◌%◌, Bool, not, ◌&&◌, ◌||◌, Option, none, some, List, [], ◌∷◌, ltb, leb,
  eqb, if◌then◌else◌, nat_eq, string_eq, text_eq, contains,
}
use bless_forge.Schedules.Spec.{Five}

-- `datetime.date` with `isoweekday() % 7`
pub record Day : Type 0 where
  pub year : ℕ
  pub month : ℕ
  pub day : ℕ
  pub weekday : ℕ

abbrev pub is_leap : ℕ → Bool
is_leap y = eqb (y % 4) 0 && (not (eqb (y % 100) 0) || eqb (y % 400) 0)

abbrev pub days_in_month : ℕ → ℕ → ℕ
days_in_month y m =
    if eqb m 2
    then (if is_leap y then 29 else 28)
    else if contains (4 ∷ 6 ∷ 9 ∷ 11 ∷ []) m
    then 30
    else 31

-- `day + timedelta(days=1)`
unfoldable pub next_day : Day → Day
next_day d =
    let weekday = (d.weekday + 1) % 7 in
    if ltb d.day (days_in_month d.year d.month)
    then record { year = d.year; month = d.month; day = d.day + 1; weekday = weekday }
    else if ltb d.month 12
    then record { year = d.year; month = d.month + 1; day = 1; weekday = weekday }
    else record { year = d.year + 1; month = 1; day = 1; weekday = weekday }

-- Whether the fields name the day: with `*` in one of the two day fields both must fit, else one
abbrev pub day_fits : Five → Day → Bool
day_fits f d =
    let dom_ok = contains f.doms d.day in
    let dow_ok = contains f.dows d.weekday in
    contains f.months d.month
    && (if f.dom_star || f.dow_star then dom_ok && dow_ok else dom_ok || dow_ok)

-- `sorted(values)`
abbrev pub insert_number : ℕ → List ℕ → List ℕ
insert_number n [] = n ∷ []
insert_number n (m ∷ ms) = let rest = insert_number n ms in if leb n m then n ∷ m ∷ ms else m ∷ rest

abbrev pub sorted_numbers : List ℕ → List ℕ
sorted_numbers [] = []
sorted_numbers (n ∷ ns) = insert_number n (sorted_numbers ns)

-- The loop over the minutes of an hour; a time is its minutes since midnight
unfoldable pub first_minute : ℕ → ℕ → List ℕ → Option ℕ
first_minute from h [] = none
first_minute from h (m ∷ ms) =
    let later = first_minute from h ms in if leb from (h * 60 + m) then some (h * 60 + m) else later

abbrev pub or_later : Option ℕ → Option ℕ → Option ℕ
or_later (some t) later = some t
or_later none later = later

-- The loop over the hours
unfoldable pub first_time : ℕ → List ℕ → List ℕ → Option ℕ
first_time from [] minutes = none
first_time from (h ∷ hs) minutes =
    or_later (first_minute from h minutes) (first_time from hs minutes)

abbrev pub day_time : Five → Day → ℕ → Option ℕ
day_time f d from =
    if day_fits f d
    then first_time from (sorted_numbers f.hours) (sorted_numbers f.minutes)
    else none

abbrev pub or_next_day : Day → Option ℕ → Option (Day × ℕ) → Option (Day × ℕ)
or_next_day d (some t) later = some (d, t)
or_next_day d none later = later

-- The loop over the days, from a time of the first
unfoldable pub search_days : Five → ℕ → Day → ℕ → Option (Day × ℕ)
search_days f zero d from = none
search_days f (suc left) d from =
    or_next_day d (day_time f d from) (search_days f left (next_day d) 0)

abbrev pub max_days : ℕ
max_days = 366 * 5

-- The five fields' next time, after a minute of a day: `local` is one minute later
unfoldable pub next_local : Five → Day → ℕ → Option (Day × ℕ)
unfolding next_day
next_local f d minute =
    if leb 1439 minute
    then search_days f max_days (next_day d) 0
    else search_days f max_days d (minute + 1)

-- `while nxt <= after: nxt += step`
unfoldable pub step_past : ℕ → ℕ → ℕ → ℕ → ℕ
step_past zero after step next = next
step_past (suc fuel) after step next =
    let later = step_past fuel after step (next + step) in if leb next after then later else next

-- `last_run or after`
abbrev pub or_now : ℕ → Option ℕ → ℕ
or_now after none = after
or_now after (some ran) = ran

-- `@every` a number of minutes, in seconds: from the last run, or from now
unfoldable pub next_every : ℕ → ℕ → Option ℕ → ℕ
next_every minutes after last_run =
    let base = or_now after last_run in
    step_past (after + 1) after (minutes * 60) (base + minutes * 60)
