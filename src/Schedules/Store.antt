-- ===== src/Schedules/Store.antt =====
-- app/schedules.py: `create`, `update_task` and `remove` on the table of tasks, and `next_after`. A zone
-- turns moments, in seconds, to the days and minutes of its clock and back (zoneinfo).
use bless_forge.Base.{
  ℕ, suc, ◌+◌, Bool, false, not, Option, none, some, List, [], ◌∷◌, ◌++◌, ltb, eqb, if◌then◌else◌,
  ◌==◌, nat_eq, string_eq, Text, text_eq, contains, is_empty, Result, ok, ◌>>=◌, ◌>>◌, raise, check,
}
use bless_forge.Schedules.Spec.{Spec, every, at, parse}
use bless_forge.Schedules.Calendar.{Day, next_local, next_every}
use bless_forge.Schedules.Tasks.{Action, action_of, Last, Payload, Task, Table, clean_payload}
use bless_forge.Schedules.Remove.{Row, Removal, deleted, missing, unfinished, remove}

pub record Zone : Type 0 where
  pub local : Text → ℕ → Day × ℕ
  pub moment : Text → Day × ℕ → ℕ

abbrev pub max_per_server : ℕ
max_per_server = 64

abbrev moment_or_none : Zone → Text → Option (Day × ℕ) → Option ℕ
moment_or_none zone tz none = none
moment_or_none zone tz (some found) = some (zone.moment tz found)

abbrev next_of : Zone → Text → ℕ → Option ℕ → Spec → Option ℕ
next_of zone tz after last_run (every minutes) = some (next_every minutes after last_run)
next_of zone tz after last_run (at f) =
    let (day, minute) = zone.local tz after in moment_or_none zone tz (next_local f day minute)

abbrev pub next_after : Zone → Text → ℕ → Text → Option ℕ → Result (Option ℕ)
next_after zone expr after tz last_run = do
  spec ← parse expr
  ok (next_of zone tz after last_run spec)

-- `s.get(Schedule, id)`
unfoldable pub find_task : ℕ → List Task → Option Task
find_task id [] = none
find_task id (t ∷ ts) = let rest = find_task id ts in if eqb t.id id then some t else rest

unfoldable pub put_task : Task → List Task → List Task
put_task new [] = []
put_task new (t ∷ ts) = let rest = put_task new ts in if eqb t.id new.id then new ∷ ts else t ∷ rest

abbrev pub task_count : Text → List Task → ℕ
task_count server [] = 0
task_count server (t ∷ ts) =
    let rest = task_count server ts in if t.server_id == server then suc rest else rest

abbrev pub is_of : Text → Option Task → Bool
is_of server none = false
is_of server (some t) = t.server_id == server

abbrev pub no_parent : Result (Text × Option ℕ)
no_parent = raise "that step's parent is not a task of this server" 400

-- The time of a new task: a step's comes from its parent's run
unfoldable pub timing :
    Zone → ℕ → Table → Text → Text → Payload → Option ℕ → Result (Text × Option ℕ)
unfolding find_task
timing zone now db server cron p (some parent) =
    if is_of server (find_task parent db.tasks) then ok ([], none) else no_parent
timing zone now db server cron p none =
    check (not (is_empty cron)) "a task needs a time (or a parent to follow)" 400
    >> (next_after zone cron now p.tz none >>= λ next. ok (cron, next))

abbrev pub if_enabled : Bool → Option ℕ → Option ℕ
if_enabled enabled next = if enabled then next else none

abbrev pub new_task : ℕ → Text → Action → Payload → Bool → Text × Option ℕ → Task
new_task id server a p enabled (cron, next) = record {
  id = id;
  server_id = server;
  cron = cron;
  action = a;
  payload = p;
  enabled = enabled;
  next_run = if_enabled enabled next;
}

unfoldable pub create :
    Zone → ℕ → Table → Text → Text → Text → Payload → Bool → Result (Table × Task)
unfolding clean_payload timing
create zone now db server action cron payload enabled = do
  a ← action_of action
  p ← clean_payload a payload
  time ← timing zone now db server cron p p.parent
  check (ltb (task_count server db.tasks) max_per_server) "a server has at most 64 scheduled tasks"
      400
  let row = new_task db.next_id server a p enabled time
  ok (record { tasks = db.tasks ++ (row ∷ []); next_id = db.next_id + 1 }, row)

-- `changes["payload"]`: what is given replaces, a parent also by none
pub record Patch : Type 0 where
  pub name : Option Text
  pub command : Option Text
  pub message : Option Text
  pub keep : Option (Option ℕ)
  pub tz : Option Text
  pub one_time : Option Bool
  pub parent : Option (Option ℕ)
  pub delay : Option ℕ
  pub group : Option Text

pub record TaskChanges : Type 0 where
  pub action : Option Text
  pub payload : Patch
  pub enabled : Option Bool
  pub cron : Option Text

abbrev pub given_or {ℓ} : {A : Type ℓ} → Option A → A → A
given_or none old = old
given_or (some new) old = new

-- `{**payload, **changes["payload"]}`
abbrev pub merged : Payload → Patch → Payload
merged p c = record {
  name = given_or c.name p.name;
  command = given_or c.command p.command;
  message = given_or c.message p.message;
  keep = given_or c.keep p.keep;
  tz = given_or c.tz p.tz;
  one_time = given_or c.one_time p.one_time;
  parent = given_or c.parent p.parent;
  delay = given_or c.delay p.delay;
  group = given_or c.group p.group;
  last = p.last;
}

abbrev pub new_action : Action → Option Text → Result Action
new_action old none = ok old
new_action old (some text) = action_of text

abbrev with_last : Option Last → Payload → Payload
with_last last p = record {
  name = p.name;
  command = p.command;
  message = p.message;
  keep = p.keep;
  tz = p.tz;
  one_time = p.one_time;
  parent = p.parent;
  delay = p.delay;
  group = p.group;
  last = last;
}

-- The time of a changed task
abbrev pub retimed : Zone → ℕ → Task → Bool → Text → Payload → Option ℕ → Result (Text × Option ℕ)
retimed zone now row enabled cron p none =
    next_after zone cron now p.tz none >>= λ next. ok (cron, if_enabled enabled next)
retimed zone now row enabled cron p (some parent) = ok (row.cron, if_enabled enabled row.next_run)

unfoldable pub changed_task : Zone → ℕ → Task → TaskChanges → Result Task
unfolding clean_payload
changed_task zone now row changes = do
  a ← new_action row.action changes.action
  p ← clean_payload a (merged row.payload changes.payload)
  let enabled = given_or changes.enabled row.enabled
  time ← retimed zone now row enabled (given_or changes.cron row.cron) p p.parent
  ok (record {
    id = row.id;
    server_id = row.server_id;
    cron = time.0;
    action = a;
    payload = with_last row.payload.last p;
    enabled = enabled;
    next_run = time.1;
  })

abbrev pub own_task : Text → Option Task → Result Task
own_task server none = raise "no such task" 404
own_task server (some t) = if t.server_id == server then ok t else raise "no such task" 404

unfoldable pub update_task : Zone → ℕ → Table → Text → ℕ → TaskChanges → Result (Table × Task)
unfolding find_task put_task changed_task
update_task zone now db server id changes = do
  row ← own_task server (find_task id db.tasks)
  new ← changed_task zone now row changes
  ok (record { tasks = put_task new db.tasks; next_id = db.next_id }, new)

-- The rows of a server, as `remove` reads them
abbrev pub server_rows : Text → List Task → List Row
server_rows server [] = []
server_rows server (t ∷ ts) =
    let rest = server_rows server ts in
    if t.server_id == server then record { id = t.id; parent = t.payload.parent } ∷ rest else rest

abbrev pub without_ids : List ℕ → List Task → List Task
without_ids gone [] = []
without_ids gone (t ∷ ts) =
    let rest = without_ids gone ts in if contains gone t.id then rest else t ∷ rest

abbrev pub take_out : Table → Removal → Table × Removal
take_out db (deleted gone) =
    (record { tasks = without_ids gone db.tasks; next_id = db.next_id }, deleted gone)
take_out db missing = (db, missing)
take_out db unfinished = (db, unfinished)

unfoldable pub remove_tasks : ℕ → Table → Text → ℕ → Table × Removal
unfolding remove
remove_tasks fuel db server id = take_out db (remove fuel (server_rows server db.tasks) id)
