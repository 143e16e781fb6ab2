-- ===== src/Schedules/Runs.antt =====
-- app/schedules.py: `run_task` and `run_due`, the request that runs a task now, and what goes with
-- a server. What a task did is a function of the
-- task, `do_task` of Schedules/Doing in the code.
use bless_forge.Base.{
  ℕ, ◌+◌, ◌-◌, Bool, false, ◌&&◌, ◌||◌, Option, none, some, List, [], ◌∷◌, ◌++◌, map, ltb, leb, eqb,
  if◌then◌else◌, is_some, ◌==◌, nat_eq, string_eq, Text, text_eq, codes, Result, ok, err,
}
use bless_forge.Schedules.Claim.{claim}
use bless_forge.Schedules.Tasks.{Last, Task, Table}
use bless_forge.Schedules.Store.{Zone, next_after, find_task, own_task}

abbrev pub missed_grace : ℕ
missed_grace = 600

abbrev pub rerun : Option ℕ → Task → Task
rerun next t = record {
  id = t.id;
  server_id = t.server_id;
  cron = t.cron;
  action = t.action;
  payload = t.payload;
  enabled = t.enabled;
  next_run = next;
}

abbrev pub switched_off : Task → Task
switched_off t = record {
  id = t.id;
  server_id = t.server_id;
  cron = t.cron;
  action = t.action;
  payload = t.payload;
  enabled = false;
  next_run = t.next_run;
}

abbrev pub noted : Last → Task → Task
noted last t = record {
  id = t.id;
  server_id = t.server_id;
  cron = t.cron;
  action = t.action;
  payload = record {
    name = t.payload.name;
    command = t.payload.command;
    message = t.payload.message;
    keep = t.payload.keep;
    tz = t.payload.tz;
    one_time = t.payload.one_time;
    parent = t.payload.parent;
    delay = t.payload.delay;
    group = t.payload.group;
    last = some last;
  };
  enabled = t.enabled;
  next_run = t.next_run;
}

-- What `s.get` finds is changed; the rows have different ids
abbrev pub on_task : ℕ → (Task → Task) → Task → Task
on_task id change t = if eqb t.id id then change t else t

abbrev is_parent_of : ℕ → Option ℕ → Bool
is_parent_of id none = false
is_parent_of id (some parent) = eqb id parent

abbrev pub is_child : Task → Task → Bool
is_child row t =
    (t.server_id == row.server_id) && (is_parent_of row.id t.payload.parent && t.enabled)

abbrev pub set_going : ℕ → Task → Task → Task
set_going now row t = if is_child row t then rerun (some (now + t.payload.delay)) t else t

abbrev pub change_all : (Task → Task) → Table → Table
change_all change db = record { tasks = map change db.tasks; next_id = db.next_id }

-- A task's run is recorded on it, and its chained steps are set going
unfoldable pub run_task : ℕ → Task → Text × Bool → Table → Table
unfolding find_task
run_task now row (result, went) db =
    let last : Last = record { last_run = now; last_result = result; last_ok = went } in
    if is_some (find_task row.id db.tasks)
    then change_all (λ t. set_going now row (on_task row.id (noted last) t)) db
    else db

abbrev next_or_none : Result (Option ℕ) → Option ℕ
next_or_none (ok next) = next
next_or_none (err problem) = none

-- The time a claim moves a due task to
abbrev pub moved_to : Zone → ℕ → Task → ℕ → Option ℕ
moved_to zone now row old =
    if is_some row.payload.parent || row.payload.one_time
    then none
    else next_or_none (next_after zone row.cron now row.payload.tz (some old))

abbrev pub claimed : ℕ → Option ℕ → Option Task → Bool
claimed old new none = false
claimed old new (some t) = eqb (claim old new t.next_run).0 1

abbrev pub move : ℕ → Option ℕ → Task → Task
move old new t = rerun (claim old new t.next_run).1 t

abbrev missed : ℕ → Last
missed now = record { last_run = now; last_result = codes "missed"; last_ok = false }

-- A due task that was claimed: skipped when it is late, else run
unfoldable pub after_claim : (Task → Text × Bool) → ℕ → Task → ℕ → Table × List ℕ → Table × List ℕ
unfolding run_task
after_claim did now row old (db, ran) =
    let done = run_task now row (did row) db in
    if ltb missed_grace (now - old)
    then (change_all (on_task row.id (noted (missed now))) db, ran)
    else (
      (if row.payload.one_time then change_all (on_task row.id switched_off) done else done),
      ran ++ (row.id ∷ []),
    )

unfoldable pub run_one :
    Zone → (Task → Text × Bool) → ℕ → Task → Option ℕ → Table × List ℕ → Table × List ℕ
unfolding claim after_claim
run_one zone did now row none (db, ran) = (db, ran)
run_one zone did now row (some old) (db, ran) =
    let new = moved_to zone now row old in
    let moved = change_all (on_task row.id (move old new)) db in
    if claimed old new (find_task row.id db.tasks)
    then after_claim did now row old (moved, ran)
    else (moved, ran)

abbrev due_by : ℕ → Option ℕ → Bool
due_by now none = false
due_by now (some next) = leb next now

abbrev pub due_tasks : ℕ → List Task → List Task
due_tasks now [] = []
due_tasks now (t ∷ ts) =
    let rest = due_tasks now ts in if t.enabled && due_by now t.next_run then t ∷ rest else rest

unfoldable pub run_each :
    Zone → (Task → Text × Bool) → ℕ → List Task → Table × List ℕ → Table × List ℕ
unfolding run_one
run_each zone did now [] state = state
run_each zone did now (row ∷ rows) state =
    run_each zone did now rows (run_one zone did now row row.next_run state)

-- Every task that was due when it looked is claimed and run; the ids that ran are returned
unfoldable pub run_due : Zone → (Task → Text × Bool) → ℕ → Table → Table × List ℕ
unfolding run_each
run_due zone did now db = run_each zone did now (due_tasks now db.tasks) (db, [])

abbrev pub run_found : (Task → Text × Bool) → ℕ → Table → Result Task → Result Table
run_found did now db (err problem) = err problem
run_found did now db (ok row) = ok (run_task now row (did row) db)

-- POST /schedules/{schedule_id}/run (app/main.py)
unfoldable pub run_schedule_now : (Task → Text × Bool) → ℕ → Table → Text → ℕ → Result Table
unfolding find_task run_task
run_schedule_now did now db server id =
    run_found did now db (own_task server (find_task id db.tasks))

-- A server's tasks go with it: `ondelete="CASCADE"` (app/db/models.py)
abbrev pub without_server : Text → List Task → List Task
without_server server [] = []
without_server server (t ∷ ts) =
    let rest = without_server server ts in if t.server_id == server then rest else t ∷ rest

abbrev pub drop_server : Text → Table → Table
drop_server server db = record { tasks = without_server server db.tasks; next_id = db.next_id }
