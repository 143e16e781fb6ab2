-- ===== src/Schedules/Tidy.antt =====
-- The table of tasks over time (app/schedules.py): `create`, `update_task`, `remove`, `run_due`.
use bless_forge.Base.{
  ℕ, ◌-◌, ◌≤◌, ◌≡◌, refl, ◌∙◌, inl, inr, Bool, true, false, ◌&&◌, Option, none, some, List, [], ◌∷◌,
  map, ltb, eqb, if◌then◌else◌, Bool-cases, is_some, nat_eq, string_eq, Text, text_eq, all,
}
use bless_forge.Schedules.Tasks.{Last, Task, Table}
use bless_forge.Schedules.Store.{Zone, max_per_server, find_task, task_count}
use bless_forge.Schedules.Claim.{claim}
use bless_forge.Schedules.Runs.{
  rerun, switched_off, noted, on_task, is_child, set_going, change_all, run_task, missed_grace,
  claimed, moved_to, move, after_claim, run_one, run_each, run_due, due_tasks,
}

abbrev pub after_parent : ℕ → Option ℕ → Bool
after_parent id none = true
after_parent id (some parent) = ltb parent id

-- A row was given its id, and a step's is greater than its parent's
abbrev pub is_placed : ℕ → Task → Bool
is_placed next t = ltb t.id next && after_parent t.id t.payload.parent

-- All rows are so, and no server has more than 64
pub record IsTidy (db : Table) : Type 0 where
  pub placed : all (is_placed db.next_id) db.tasks ≡ true
  pub few : (server : Text) → task_count server db.tasks ≤ max_per_server

-- A change that leaves id, server and parent
pub record Keeps (change : Task → Task) : Type 0 where
  pub id : (t : Task) → (change t).id ≡ t.id
  pub server : (t : Task) → (change t).server_id ≡ t.server_id
  pub parent : (t : Task) → (change t).payload.parent ≡ t.payload.parent

all-change :
    (change : Task → Task) (next : ℕ) (ts : List Task)
    → Keeps change
    → all (is_placed next) (map change ts) ≡ all (is_placed next) ts
all-change change next [] k = refl
all-change change next (t ∷ ts) k = rw (k.id t, k.parent t, all-change change next ts k) refl

task_count-change :
    (change : Task → Task) (server : Text) (ts : List Task)
    → Keeps change
    → task_count server (map change ts) ≡ task_count server ts
task_count-change change server [] k = refl
task_count-change change server (t ∷ ts) k =
    rw (k.server t, task_count-change change server ts k) refl

change_all-IsTidy :
    (change : Task → Task) (db : Table) → Keeps change → IsTidy db → IsTidy (change_all change db)
change_all-IsTidy change db k tidy = record {
  placed = all-change change db.next_id db.tasks k ∙ tidy.placed;
  few = λ server. rw (task_count-change change server db.tasks k) (tidy.few server);
}

on_task-Keeps : (id : ℕ) (change : Task → Task) → Keeps change → Keeps (on_task id change)
on_task-Keeps id change k = record {
  id = λ t. elim (Bool-cases (eqb t.id id)) [ inl e ↦ rw e (k.id t) | inr e ↦ rw e refl ];
  server = λ t. elim (Bool-cases (eqb t.id id)) [ inl e ↦ rw e (k.server t) | inr e ↦ rw e refl ];
  parent = λ t. elim (Bool-cases (eqb t.id id)) [ inl e ↦ rw e (k.parent t) | inr e ↦ rw e refl ];
}

if-both {ℓ κ} :
    {A : Type ℓ} (P : A → Type κ) (b : Bool) (x y : A) → P x → P y → P (if b then x else y)
if-both P true x y h k = h
if-both P false x y h k = k

-- What a pass of the scheduler does to rows
rerun-Keeps : (next : Task → Option ℕ) → Keeps (λ t. rerun (next t) t)
rerun-Keeps next = record { id = λ t. refl; server = λ t. refl; parent = λ t. refl }

noted-Keeps : (last : Last) → Keeps (noted last)
noted-Keeps last = record { id = λ t. refl; server = λ t. refl; parent = λ t. refl }

switched_off-Keeps : Keeps switched_off
switched_off-Keeps = record { id = λ t. refl; server = λ t. refl; parent = λ t. refl }

set_going-Keeps : (now : ℕ) (row : Task) → Keeps (set_going now row)
set_going-Keeps now row = record {
  id = λ t. elim (Bool-cases (is_child row t)) [ inl e ↦ rw e refl | inr e ↦ rw e refl ];
  server = λ t. elim (Bool-cases (is_child row t)) [ inl e ↦ rw e refl | inr e ↦ rw e refl ];
  parent = λ t. elim (Bool-cases (is_child row t)) [ inl e ↦ rw e refl | inr e ↦ rw e refl ];
}

after-Keeps :
    (first second : Task → Task) → Keeps first → Keeps second → Keeps (λ t. second (first t))
after-Keeps first second k l = record {
  id = λ t. l.id (first t) ∙ k.id t;
  server = λ t. l.server (first t) ∙ k.server t;
  parent = λ t. l.parent (first t) ∙ k.parent t;
}

pub run_task-IsTidy :
    (now : ℕ) (row : Task) (result : Text) (went : Bool) (db : Table)
    → IsTidy db
    → IsTidy (run_task now row (result, went) db)
unfolding run_task
run_task-IsTidy now row result went db tidy =
    let last : Last = record { last_run = now; last_result = result; last_ok = went } in
    elim (Bool-cases (is_some (find_task row.id db.tasks))) [
      | inl e ↦ rw e (
          change_all-IsTidy _ db
            (after-Keeps (on_task row.id (noted last)) (set_going now row)
              (on_task-Keeps row.id (noted last) (noted-Keeps last)) (set_going-Keeps now row))
            tidy)
      | inr e ↦ rw e tidy
    ]

module _ (zone : Zone) (did : Task → Text × Bool) (now : ℕ) where
  after_claim-IsTidy :
      (row : Task) (old : ℕ) (db : Table) (ran : List ℕ)
      → IsTidy db
      → IsTidy (after_claim did now row old (db, ran)).0
  unfolding after_claim
  after_claim-IsTidy row old db ran tidy =
      let done = run_task now row (did row) db in
      let went = run_task-IsTidy now row (did row).0 (did row).1 db tidy in
      if-both (λ (s : Table × List ℕ). IsTidy s.0) (ltb missed_grace (now - old)) _ _
        (change_all-IsTidy _ db (on_task-Keeps row.id _ (noted-Keeps _)) tidy)
        (if-both IsTidy row.payload.one_time _ done
          (change_all-IsTidy _ done (on_task-Keeps row.id switched_off switched_off-Keeps) went)
          went)

  run_one-IsTidy :
      (row : Task) (next : Option ℕ) (db : Table) (ran : List ℕ)
      → IsTidy db
      → IsTidy (run_one zone did now row next (db, ran)).0
  unfolding run_one
  run_one-IsTidy row none db ran tidy = tidy
  run_one-IsTidy row (some old) db ran tidy =
      let new = moved_to zone now row old in
      let moved =
        change_all-IsTidy (on_task row.id (move old new)) db
          (on_task-Keeps row.id (move old new) (rerun-Keeps (λ t. (claim old new t.next_run).1)))
          tidy in
      if-both (λ (s : Table × List ℕ). IsTidy s.0) (claimed old new (find_task row.id db.tasks)) _ _
        (after_claim-IsTidy row old _ ran moved) moved

  run_each-IsTidy :
      (rows : List Task) (db : Table) (ran : List ℕ)
      → IsTidy db
      → IsTidy (run_each zone did now rows (db, ran)).0
  unfolding run_each
  run_each-IsTidy [] db ran tidy = tidy
  run_each-IsTidy (row ∷ rows) db ran tidy =
      let next = run_one zone did now row row.next_run (db, ran) in
      run_each-IsTidy rows next.0 next.1 (run_one-IsTidy row row.next_run db ran tidy)

  pub run_due-IsTidy : (db : Table) → IsTidy db → IsTidy (run_due zone did now db).0
  unfolding run_due
  run_due-IsTidy db tidy = run_each-IsTidy (due_tasks now db.tasks) db [] tidy
