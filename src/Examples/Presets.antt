-- ===== src/Examples/Presets.antt =====
-- The chain of a daily restart (app/schedules.py: `preset`).
use bless_forge.Base.{
  ℕ, ◌*◌, ◌/◌, ◌≡◌, refl, true, ◌&&◌, Option, none, some, List, [], ◌∷◌, map, arith, ltb, leb,
  nat_eq, string_eq, Text, text_eq, contains, codes, Result, ok, err, Yields,
}
use bless_forge.Base.Strings.{strip, lower, lstrip, rstrip_space, words, starts_with, is_space}
use bless_forge.Properties.Lines.{splitlines}
use bless_forge.Schedules.Cron.{field, part_values, span, stepped}
use bless_forge.Schedules.Spec.{front_digits, every_minutes, five_of, parse}
use bless_forge.Schedules.Calendar.{next_day, first_minute, first_time, search_days, next_local}
use bless_forge.Schedules.Tasks.{Task, Table, clean_payload}
use bless_forge.Schedules.Store.{Zone, find_task, timing, create}
use bless_forge.Schedules.Presets.{Options, make_chain, daily_restart, preset}
use bless_forge.Schedules.OnTime.{descends}
use bless_forge.Schedules.Linked.{RestartRows, Begins, daily_restart-lem}

abbrev gmt : Zone
gmt = record {
  local = λ tz now. (record { year = 1970; month = 1; day = 1; weekday = 4 }, now / 60);
  moment = λ tz found. found.1 * 60;
}

abbrev options : Options
options = record {
  tz = [];
  time = codes "0:03";
  warn = 1 ∷ 5 ∷ 200 ∷ 1 ∷ [];
  cron = [];
  message = [];
  hours = 0;
  keep = 0;
}

abbrev summary : Task → Text × ℕ × Option ℕ × Text
summary t = (t.payload.name, t.payload.delay, t.payload.parent, t.cron)

abbrev rows_made : Table × Result (List Task) → List (Text × ℕ × Option ℕ × Text)
rows_made (db, ok rows) = map summary rows
rows_made (db, err problem) = []

preset-run :
    rows_made (
      preset gmt 0 (record { tasks = []; next_id = 1 }) (codes "s") (codes "daily_restart") options)
    ≡ ((codes "Daily restart at 00:03", 0, none, codes "58 23 * * *")
        ∷ (codes "say (1 min)", 240, some 1, [])
        ∷ (codes "restart (0 min)", 60, some 2, [])
        ∷ [])
unfolding preset daily_restart make_chain create clean_payload timing find_task splitlines strip
    lstrip rstrip_space is_space lower parse every_minutes starts_with front_digits words five_of
    field part_values span stepped next_local search_days first_time first_minute next_day
preset-run = refl

daily_restart-lem_example :
    ((w : ℕ)
      → contains (5 ∷ 1 ∷ []) w ≡ (contains (1 ∷ 5 ∷ 200 ∷ 1 ∷ []) w && (ltb 0 w && leb w 120)))
    × (descends 120 (5 ∷ 1 ∷ []) ≡ true)
    × Yields
        (λ rows. RestartRows 5 0 none (5 ∷ 1 ∷ []) rows × Begins 0 3 5 rows)
        (daily_restart gmt 0
          (record { tasks = []; next_id = 1 })
          (codes "s")
          options
          (some (0, 3))).1
daily_restart-lem_example =
    daily_restart-lem gmt 0 (record { tasks = []; next_id = 1 }) (codes "s") options 0 3
      (omega arith) (omega arith)
