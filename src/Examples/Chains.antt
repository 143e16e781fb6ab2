-- ===== src/Examples/Chains.antt =====
-- Tasks that are made, changed, run and removed (app/schedules.py).
use bless_forge.Base.{
  ℕ, ◌*◌, ◌/◌, ◌≡◌, refl, ◌↔◌, Bool, true, false, Option, none, some, List, [], ◌∷◌, map,
  if◌then◌else◌, nat_eq, string_eq, Text, text_eq, contains, codes, ok, raise,
}
use bless_forge.Base.Strings.{strip, lower, lstrip, starts_with, is_space}
use bless_forge.Properties.Lines.{splitlines}
use bless_forge.Schedules.Spec.{front_digits, every_minutes, parse}
use bless_forge.Schedules.Calendar.{step_past, next_every}
use bless_forge.Schedules.Tasks.{restart, say, Payload, Task, Table, clean_payload}
use bless_forge.Schedules.Store.{Zone, find_task, timing, create, server_rows, remove_tasks}
use bless_forge.Schedules.Doing.{Engine, do_task}
use bless_forge.Schedules.Claim.{claim}
use bless_forge.Schedules.Runs.{run_task, after_claim, run_one, run_each, run_due, run_schedule_now}
use bless_forge.Schedules.Remove.{deleted}
use bless_forge.Schedules.Below.{Below}
use bless_forge.Schedules.Tidy.{IsTidy}
use bless_forge.Schedules.Reached.{
  created, ran_now, clocked, no_tasks, Reached, empty, then_step, Reached-IsTidy, Reached-remove,
}

-- A clock without zones, whose first day is a Thursday
abbrev utc : Zone
utc = record {
  local = λ tz now. (record { year = 1970; month = 1; day = 1; weekday = 4 }, now / 60);
  moment = λ tz found. found.1 * 60;
}

abbrev plain : Text → Option ℕ → Payload
plain message parent = record {
  name = [];
  command = [];
  message = message;
  keep = none;
  tz = [];
  one_time = false;
  parent = parent;
  delay = 60;
  group = [];
  last = none;
}

abbrev named_task : Text → Text → Option ℕ → ℕ → Payload
named_task name message parent delay = record {
  name = name;
  command = [];
  message = message;
  keep = none;
  tz = [];
  one_time = false;
  parent = parent;
  delay = delay;
  group = [];
  last = none;
}

abbrev warning : Task
warning = record {
  id = 1;
  server_id = codes "s";
  cron = codes "@every 1h";
  action = say;
  payload = named_task (codes "Say") (codes "restart soon") none 0;
  enabled = true;
  next_run = some 3700;
}

abbrev step : Task
step = record {
  id = 2;
  server_id = codes "s";
  cron = [];
  action = restart;
  payload = named_task (codes "Restart") [] (some 1) 60;
  enabled = true;
  next_run = none;
}

abbrev one : Table
one = record { tasks = warning ∷ []; next_id = 2 }

abbrev two : Table
two = record { tasks = warning ∷ step ∷ []; next_id = 3 }

warning-create :
    create utc 100 no_tasks
      (codes "s")
      (codes "say")
      (codes "@every 1h")
      (plain (codes " restart soon ") none)
      true
    ≡ ok (one, warning)
unfolding create clean_payload timing splitlines strip lower parse every_minutes lstrip starts_with
    front_digits is_space next_every step_past
warning-create = refl

step-create :
    create utc 200 one (codes "s") (codes "restart") [] (plain [] (some 1)) true ≡ ok (two, step)
unfolding create clean_payload timing find_task
step-create = refl

-- Of another server, the parent is refused
strange-create :
    create utc 200 one (codes "t") (codes "restart") [] (plain [] (some 1)) true
    ≡ raise "that step's parent is not a task of this server" 400
unfolding create clean_payload timing find_task
strange-create = refl

both-Reached : Reached two
both-Reached =
    then_step
      (then_step empty (
        created utc 100 (codes "s") (codes "say") (codes "@every 1h")
          (plain (codes " restart soon ") none) true warning-create))
      (created utc 200 (codes "s") (codes "restart") [] (plain [] (some 1)) true step-create)

-- The first task runs, moves to its next hour and sets its step going a minute later
first-run_due :
    map (λ t. t.next_run) (run_due utc (λ t. (codes "sent", true)) 3705 two).0.tasks
    ≡ (some 7300 ∷ some 3765 ∷ [])
unfolding run_due run_each run_one after_claim run_task find_task claim parse strip lower
    every_minutes lstrip starts_with front_digits is_space next_every step_past
first-run_due = refl

abbrev sent : Task → Text × Bool
sent t = (codes "sent", true)

-- Run on request, the first task sets its step going; then the clock runs the step
abbrev requested : Table
requested = run_task 3600 warning (codes "sent", true) two

two-run_schedule_now : run_schedule_now sent 3600 two (codes "s") 1 ≡ ok requested
unfolding run_schedule_now find_task
two-run_schedule_now = refl

going-requested : map (λ t. t.next_run) requested.tasks ≡ (some 3700 ∷ some 3660 ∷ [])
unfolding run_task find_task
going-requested = refl

Reached-IsTidy_example : IsTidy (run_due utc sent 3665 requested).0
Reached-IsTidy_example = Reached-IsTidy (
    then_step (then_step both-Reached (ran_now sent 3600 (codes "s") 1 two-run_schedule_now))
      (clocked utc sent 3665))

Reached-remove_example :
    (fuel : ℕ) × (gone : List ℕ) × ((remove_tasks fuel two (codes "s") 1).1 ≡ deleted gone)
    × ((a : ℕ) → (contains gone a ≡ true) ↔ Below (server_rows (codes "s") two.tasks) 1 a)
    × ((a : ℕ)
        → find_task a (remove_tasks fuel two (codes "s") 1).0.tasks
          ≡ (if contains gone a then none else find_task a two.tasks))
    × ((remove_tasks fuel two (codes "s") 1).0.next_id ≡ 3)
Reached-remove_example = Reached-remove (codes "s") 1 both-Reached refl

-- A node whose server is down, and cannot be started
abbrev down : Engine
down = record {
  is_running = λ server. ok false;
  send_command = λ server line. ok tt;
  power = λ server how. raise "no such container" 404;
  back_up = λ server reason keep. ok (codes "b1", codes "3 MB");
  apply_update = λ server. raise "offline" 503;
}

warning-do_task : do_task down warning ≡ (codes "skipped: the server is not running", true)
warning-do_task = refl

step-do_task : do_task down step ≡ (codes "skipped: not running, so nothing to restart", true)
step-do_task = refl

down-run_due : (run_due utc (do_task down) 3705 two).1 ≡ (1 ∷ [])
unfolding run_due run_each run_one after_claim run_task find_task claim
down-run_due = refl
