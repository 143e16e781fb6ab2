-- ===== src/Schedules/Presets.antt =====
-- app/schedules.py: `preset`, whose numbers are naturals. Each task is made in a session of its own, so
-- what was made stays when a later one is refused.
use bless_forge.Base.{
  ℕ, ◌+◌, ◌-◌, ◌*◌, ◌/◌, ◌%◌, true, false, ◌&&◌, Option, none, some, List, [], ◌∷◌, ◌++◌, ltb, leb,
  eqb, if◌then◌else◌, ◌==◌, nat_eq, string_eq, Text, text_eq, codes, all, Result, ok, err, raise,
}
use bless_forge.Base.Strings.{is_digit}
use bless_forge.Schedules.Tasks.{Payload, Task, Table}
use bless_forge.Schedules.Store.{Zone, create}

-- The options that the presets read
pub record Options : Type 0 where
  pub tz : Text
  pub time : Text
  pub warn : List ℕ
  pub cron : Text
  pub message : Text
  pub hours : ℕ
  pub keep : ℕ

-- `str(n)`, below 1000
abbrev pub show_number : ℕ → Text
show_number n =
    if ltb n 10
    then (b'0' + n) ∷ []
    else if ltb n 100
    then (b'0' + n / 10) ∷ (b'0' + n % 10) ∷ []
    else (b'0' + n / 100) ∷ (b'0' + n / 10 % 10) ∷ (b'0' + n % 10) ∷ []

-- `sorted({...}, reverse=True)`
abbrev pub insert_down : ℕ → List ℕ → List ℕ
insert_down n [] = n ∷ []
insert_down n (m ∷ ms) =
    let rest = insert_down n ms in
    if eqb n m then m ∷ ms else if ltb m n then n ∷ m ∷ ms else m ∷ rest

abbrev pub warnings_of : List ℕ → List ℕ
warnings_of [] = []
warnings_of (w ∷ ws) =
    let rest = warnings_of ws in if ltb 0 w && leb w 120 then insert_down w rest else rest

-- `int` of digits
abbrev pub read_digits : ℕ → Text → ℕ
read_digits n [] = n
read_digits n (c ∷ s) = read_digits (10 * n + (c - b'0')) s

-- `(\d{1,2}):(\d{2})`, as hour and minute
abbrev of_digits : Text → Text → Option (ℕ × ℕ)
of_digits hh mm =
    let h = read_digits 0 hh in
    let m = read_digits 0 mm in
    if all is_digit (hh ++ mm) && (leb h 23 && leb m 59) then some (h, m) else none

abbrev pub clock_time : Text → Option (ℕ × ℕ)
clock_time (a ∷ b ∷ c ∷ d ∷ e ∷ []) =
    if eqb c b':' then of_digits (a ∷ b ∷ []) (d ∷ e ∷ []) else none
clock_time (a ∷ c ∷ d ∷ e ∷ []) = if eqb c b':' then of_digits (a ∷ []) (d ∷ e ∷ []) else none
clock_time other = none

-- A step of the chain: so many minutes before the restart, this long after the step before it
pub record RestartStep : Type 0 where
  pub before : ℕ
  pub delay : ℕ
  pub action : Text
  pub message : Text

abbrev pub warning_text : ℕ → Text
warning_text w =
    codes "Server restarts in "
    ++ (show_number w ++ ((if eqb w 1 then codes " minute" else codes " minutes") ++ codes "."))

abbrev pub restart_steps : ℕ → List ℕ → List RestartStep
restart_steps previous [] =
    record { before = 0; delay = previous * 60; action = codes "restart"; message = [] } ∷ []
restart_steps previous (w ∷ ws) =
    record {
      before = w;
      delay = (previous - w) * 60;
      action = codes "say";
      message = warning_text w;
    }
    ∷ restart_steps w ws

abbrev pub lead_of : List ℕ → ℕ
lead_of [] = 0
lead_of (w ∷ ws) = w

-- The minute of the day at which the chain starts
abbrev pub first_minute_of : ℕ → ℕ → ℕ → ℕ
first_minute_of h m lead = (h * 60 + m + 1440 - lead) % 1440

abbrev pub payload_of : Options → Text → Text → Text → Option ℕ → ℕ → ℕ → Payload
payload_of opts name message group parent delay keep = record {
  name = name;
  command = [];
  message = message;
  keep = some keep;
  tz = opts.tz;
  one_time = false;
  parent = parent;
  delay = delay;
  group = group;
  last = none;
}

abbrev pub step_name : Text → Option ℕ → RestartStep → Text
step_name group none step = group
step_name group (some parent) step =
    step.action ++ (codes " (" ++ (show_number step.before ++ codes " min)"))

abbrev pub step_cron : Text → Option ℕ → Text
step_cron cron none = cron
step_cron cron (some parent) = []

abbrev pub and_made : Task → Table × Result (List Task) → Table × Result (List Task)
and_made row (db, ok rows) = (db, ok (row ∷ rows))
and_made row (db, err problem) = (db, err problem)

-- What follows the making of a row
abbrev pub after_making :
    Table
    → Result (Table × Task)
    → (Task → Table → Table × Result (List Task))
    → Table × Result (List Task)
after_making db (err problem) go_on = (db, err problem)
after_making db (ok (next, row)) go_on = and_made row (go_on row next)

-- The steps one after the other, each after the row of the one before
unfoldable pub make_chain :
    Zone
    → ℕ
    → Text
    → Options
    → Text
    → Text
    → List RestartStep
    → Option ℕ
    → Table
    → Table × Result (List Task)
unfolding create
make_chain zone now server opts group cron [] parent db = (db, ok [])
make_chain zone now server opts group cron (step ∷ steps) parent db =
    after_making db
      (create zone now db server step.action (step_cron cron parent)
        (payload_of opts (step_name group parent step) step.message group parent step.delay 0) true)
      (λ row next. make_chain zone now server opts group cron steps (some row.id) next)

abbrev pub or_given {ℓ} : {A : Type ℓ} → List A → List A → List A
or_given [] other = other
or_given (x ∷ xs) other = x ∷ xs

abbrev two_digits : ℕ → Text
two_digits n = (b'0' + n / 10) ∷ (b'0' + n % 10) ∷ []

-- `f"{first % 60} {first // 60} * * *"`, and the name of the chain
abbrev pub clock_cron : ℕ → Text
clock_cron first =
    show_number (first % 60) ++ (codes " " ++ (show_number (first / 60) ++ codes " * * *"))

abbrev pub daily_cron : ℕ → ℕ → ℕ → Text
daily_cron h m lead = clock_cron (first_minute_of h m lead)

abbrev pub daily_group : ℕ → ℕ → Text
daily_group h m = codes "Daily restart at " ++ (two_digits h ++ (codes ":" ++ two_digits m))

unfoldable pub daily_restart :
    Zone → ℕ → Table → Text → Options → Option (ℕ × ℕ) → Table × Result (List Task)
unfolding make_chain
daily_restart zone now db server opts none = (db, raise "time is HH:MM" 400)
daily_restart zone now db server opts (some (h, m)) =
    let warn = warnings_of (or_given opts.warn (5 ∷ 1 ∷ [])) in
    make_chain zone now server opts (daily_group h m) (daily_cron h m (lead_of warn))
      (restart_steps (lead_of warn) warn) none db

abbrev pub made_alone : Table → Result (Table × Task) → Table × Result (List Task)
made_alone db (err problem) = (db, err problem)
made_alone db (ok (made, row)) = (made, ok (row ∷ []))

abbrev pub or_number : ℕ → ℕ → ℕ
or_number n other = if eqb n 0 then other else n

unfoldable pub preset : Zone → ℕ → Table → Text → Text → Options → Table × Result (List Task)
unfolding daily_restart create
preset zone now db server kind opts =
    if kind == codes "daily_restart"
    then daily_restart zone now db server opts (clock_time (or_given opts.time (codes "05:00")))
    else if kind == codes "announce"
    then made_alone db (
        create zone now db server (codes "say") (or_given opts.cron (codes "@hourly"))
          (payload_of opts (codes "Announcement") opts.message [] none 0 0) true)
    else if kind == codes "backup_every"
    then (let hours = or_number opts.hours 6 in
        if leb hours 168
        then made_alone db (
            create zone now db server (codes "backup")
              (codes "@every " ++ (show_number hours ++ codes "h"))
              (payload_of opts (codes "Backup every " ++ (show_number hours ++ codes " h")) [] []
                none 0 (or_number opts.keep 8))
              true)
        else (db, raise "hours is between 1 and 168" 400))
    else (db, raise "preset is daily_restart, announce or backup_every" 400)
