-- ===== src/Examples/Times.antt =====
-- Runs of the clock's tasks (app/schedules.py).
use bless_forge.Base.{
  ℕ, ◌+◌, ◌*◌, ◌≤◌, ◌<◌, ◌≡◌, refl, ◌⊎◌, false, some, [], ◌∷◌, arith, nat_eq, string_eq, text_eq,
  codes, ok, raise,
}
use bless_forge.Base.Strings.{strip, lower, lstrip, words, starts_with, is_space}
use bless_forge.Schedules.Cron.{field, part_values, span, stepped}
use bless_forge.Schedules.Spec.{Five, every, at, front_digits, every_minutes, five_of, parse}
use bless_forge.Schedules.Calendar.{
  Day, next_day, first_minute, first_time, search_days, next_local, step_past, next_every,
}
use bless_forge.Schedules.Next.{IsNext}
use bless_forge.Schedules.Fires.{next_local-Answers, next_every-lem}

abbrev jan_mornings : Five
jan_mornings = record {
  minutes = 30 ∷ [];
  hours = 4 ∷ [];
  doms = 1 ∷ [];
  dom_star = false;
  months = 1 ∷ [];
  dows = 5 ∷ [];
  dow_star = false;
}

abbrev thursday : Day
thursday = record { year = 2026; month = 12; day = 31; weekday = 4 }

jan_mornings-parse : parse (codes " 30 4 1 jan FRI ") ≡ ok (at jan_mornings)
unfolding parse strip lower words every_minutes five_of lstrip starts_with field front_digits
    is_space part_values span stepped
jan_mornings-parse = refl

next_local-run : next_local jan_mornings thursday 271 ≡ some (next_day thursday, 270)
unfolding next_local search_days first_time first_minute next_day
next_local-run = refl

next_local-Answers_example : (p : ℕ) × IsNext jan_mornings thursday 272 (next_day thursday, 270) p
unfolding next_local search_days first_time first_minute next_day
next_local-Answers_example =
    next_local-Answers (codes " 30 4 1 jan FRI ") jan_mornings-parse thursday 271 (omega arith)

ninety-parse : parse (codes "@every 90min") ≡ ok (every 90)
unfolding parse strip lower every_minutes lstrip starts_with front_digits is_space
ninety-parse = refl

half_days-parse : parse (codes "@Every 12 hours") ≡ ok (every 720)
unfolding parse strip lower every_minutes lstrip starts_with front_digits is_space
half_days-parse = refl

too_often-parse : parse (codes "@every 0m") ≡ raise "@every is between 1 minute and 31 days" 400
unfolding parse strip lower every_minutes lstrip starts_with front_digits is_space
too_often-parse = refl

next_every-lem_example :
    (100000 < 104000)
    × ((104000 ≡ 50000 + 5400) ⊎ (104000 ≤ 100000 + 5400))
    × ((k : ℕ) × (104000 ≡ 50000 + 5400 + k * 5400))
unfolding next_every step_past
next_every-lem_example = next_every-lem (codes "@every 90min") ninety-parse 100000 (some 50000)
