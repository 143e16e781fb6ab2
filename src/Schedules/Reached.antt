-- ===== src/Schedules/Reached.antt =====
-- The tasks that the requests and the clock reach (app/schedules.py), and their removal.
use mathlib.Core.Path.{subst}
use bless_forge.Base.{
  ℕ, ◌≡◌, refl, ap, ◌∙◌, ◌↔◌, inl, inr, Bool, true, Option, none, some, List, [], ◌∷◌, arith, eqb,
  if◌then◌else◌, eqb_iff, ltb→lt, Bool-cases, and-true_right, ◌==◌, nat_eq, string_eq, Text,
  text_eq, contains, all, ok, Yields,
}
use bless_forge.Schedules.Tasks.{Payload, Task, Table}
use bless_forge.Schedules.Store.{
  Zone, find_task, create, TaskChanges, update_task, server_rows, without_ids, remove_tasks,
}
use bless_forge.Schedules.Runs.{run_due, run_schedule_now, drop_server}
use bless_forge.Schedules.Presets.{Options, preset}
use bless_forge.Schedules.Grown.{preset-IsTidy, run_schedule_now-Yields, drop_server-IsTidy}
use bless_forge.Schedules.Remove.{deleted, in_rows}
use bless_forge.Schedules.Below.{IsAfter, IsForward, Below}
use bless_forge.Schedules.Ends.{remove-ends}
use bless_forge.Schedules.Tidy.{after_parent, is_placed, IsTidy, run_due-IsTidy}
use bless_forge.Schedules.Kept.{create-Yields}
use bless_forge.Schedules.Changed.{update_task-Yields, remove_tasks-IsTidy}

-- A request, the deletion of a server or a look of the clock at the table; an update that moves no
-- step to another parent
pub data Step : Table → Table → Type 0 where
  created :
      (zone : Zone) (now : ℕ) (server action cron : Text) (payload : Payload) (enabled : Bool)
      {db after : Table} {row : Task}
      → create zone now db server action cron payload enabled ≡ ok (after, row)
      → Step db after
  changed_by :
      (zone : Zone) (now : ℕ) (server : Text) (id : ℕ) (changes : TaskChanges) {db after : Table}
      {row : Task}
      → changes.payload.parent ≡ none
      → update_task zone now db server id changes ≡ ok (after, row)
      → Step db after
  taken_away :
      (fuel : ℕ) (server : Text) (id : ℕ) {db : Table} → Step db (remove_tasks fuel db server id).0
  preset_made :
      (zone : Zone) (now : ℕ) (server kind : Text) (opts : Options) {db : Table}
      → Step db (preset zone now db server kind opts).0
  ran_now :
      (did : Task → Text × Bool) (now : ℕ) (server : Text) (id : ℕ) {db after : Table}
      → run_schedule_now did now db server id ≡ ok after
      → Step db after
  server_gone : (server : Text) {db : Table} → Step db (drop_server server db)
  clocked :
      (zone : Zone) (did : Task → Text × Bool) (now : ℕ) {db : Table}
      → Step db (run_due zone did now db).0

abbrev pub no_tasks : Table
no_tasks = record { tasks = []; next_id = 1 }

pub data Reached : Table → Type 0 where
  empty : Reached no_tasks
  then_step : {db after : Table} → Reached db → Step db after → Reached after

Step-IsTidy : {db after : Table} → Step db after → IsTidy db → IsTidy after
Step-IsTidy (created zone now server action cron payload enabled {db} e) tidy =
    subst (Yields (λ (out : Table × Task). IsTidy out.0)) e
      (create-Yields zone now db server action cron payload enabled tidy)
Step-IsTidy (changed_by zone now server id changes {db} still e) tidy =
    subst (Yields (λ (out : Table × Task). IsTidy out.0)) e
      (update_task-Yields zone now db server id changes still tidy)
Step-IsTidy (taken_away fuel server id {db}) tidy = remove_tasks-IsTidy fuel db server id tidy
Step-IsTidy (preset_made zone now server kind opts {db}) tidy =
    preset-IsTidy zone now server db kind opts tidy
Step-IsTidy (ran_now did now server id {db} e) tidy =
    subst (Yields IsTidy) e (run_schedule_now-Yields did now db server id tidy)
Step-IsTidy (server_gone server {db}) tidy = drop_server-IsTidy server db tidy
Step-IsTidy (clocked zone did now {db}) tidy = run_due-IsTidy zone did now db tidy

-- Whatever sequence of requests (new tasks, presets, changes, removals, runs on request), deletions
-- of servers and looks of the clock makes the table, short of moving a step to another parent, every
-- step has a greater id than its parent, ids are below the next one, and no server has more than
-- sixty-four tasks.
pub Reached-IsTidy : {db : Table} → Reached db → IsTidy db
Reached-IsTidy empty = record { placed = refl; few = λ server. omega arith }
Reached-IsTidy (then_step before step) = Step-IsTidy step (Reached-IsTidy before)

after_parent-IsAfter :
    (id : ℕ) (parent : Option ℕ) → after_parent id parent ≡ true → IsAfter id parent
after_parent-IsAfter id none h = tt
after_parent-IsAfter id (some parent) h = ltb→lt parent id h

server_rows-IsForward :
    (server : Text) (next : ℕ) (ts : List Task)
    → all (is_placed next) ts ≡ true
    → IsForward (server_rows server ts)
unfolding IsForward
server_rows-IsForward server next [] h = tt
server_rows-IsForward server next (t ∷ ts) h =
    let ih = server_rows-IsForward server next ts (and-true_right (is_placed next t) _ h) in
    elim (Bool-cases (t.server_id == server)) [
      | inl e ↦ rw e (after_parent-IsAfter t.id t.payload.parent (ground (arith, h)), ih)
      | inr e ↦ rw e ih
    ]

find_task-without_ids :
    (gone : List ℕ) (a : ℕ) (ts : List Task)
    → find_task a (without_ids gone ts) ≡ (if contains gone a then none else find_task a ts)
unfolding find_task
find_task-without_ids gone a [] = elim (Bool-cases (contains gone a)) [
  | inl e ↦ rw e refl
  | inr e ↦ rw e refl
]
find_task-without_ids gone a (t ∷ ts) =
    let ih = find_task-without_ids gone a ts in
    elim (Bool-cases (eqb t.id a)) [
      | inl same ↦
          let at : contains gone t.id ≡ contains gone a =
            ap (contains gone) ((eqb_iff t.id a).0 same) in
          elim (Bool-cases (contains gone a)) [
            | inl out ↦ rw (at, out) (ih ∙ rw out refl)
            | inr kept ↦ rw (at, kept, same) refl
          ]
      | inr other ↦ elim (Bool-cases (contains gone t.id)) [
        | inl out ↦ rw (out, other) ih
        | inr kept ↦ rw (kept, other) ih
      ]
    ]

-- Of a table that requests, deletions of servers and the clock made, short of moving a step to
-- another parent, the removal of a server's task ends. The ids that it returns are those of the task
-- and of the steps that are chained after it, directly or over other steps; in the table after it no
-- task has one of these, every other task is as it was, and the next id is kept.
pub Reached-remove :
    {db : Table} (server : Text) (id : ℕ)
    → Reached db
    → in_rows id (server_rows server db.tasks) ≡ true
    → (fuel : ℕ) × (gone : List ℕ) × ((remove_tasks fuel db server id).1 ≡ deleted gone)
      × ((a : ℕ) → (contains gone a ≡ true) ↔ Below (server_rows server db.tasks) id a)
      × ((a : ℕ)
          → find_task a (remove_tasks fuel db server id).0.tasks
            ≡ (if contains gone a then none else find_task a db.tasks))
      × ((remove_tasks fuel db server id).0.next_id ≡ db.next_id)
unfolding remove_tasks
Reached-remove {db} server id reached present =
    let tidy = Reached-IsTidy reached in
    let (fuel, gone, done, exact) =
      remove-ends (server_rows server db.tasks) id
        (server_rows-IsForward server db.next_id db.tasks tidy.placed) present in
    (
      fuel,
      gone,
      rw done refl,
      exact,
      (λ a. rw done (find_task-without_ids gone a db.tasks)),
      rw done refl,
    )
