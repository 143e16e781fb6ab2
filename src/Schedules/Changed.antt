-- ===== src/Schedules/Changed.antt =====
-- What `update_task` and `remove` keep of the table of tasks (app/schedules.py).
use mathlib.Core.Path.{subst}
use bless_forge.Base.{
  ℕ, ◌≤◌, ◌≡◌, refl, sym, ap, ◌∙◌, inl, inr, true, false, Option, none, some, List, [], ◌∷◌, arith,
  eqb, Bool-cases, ◌==◌, nat_eq, string_eq, Text, text_eq, contains, all, ok, Yields, >>=-Yields,
}
use bless_forge.Schedules.Tasks.{Task, Table, clean_payload, clean_payload-parent}
use bless_forge.Schedules.Store.{
  Zone, find_task, put_task, task_count, TaskChanges, merged, new_action, retimed, given_or,
  changed_task, own_task, update_task, server_rows, without_ids, take_out, remove_tasks,
}
use bless_forge.Schedules.Remove.{Removal, deleted, missing, unfinished, remove}
use bless_forge.Schedules.Tidy.{is_placed, IsTidy}
use bless_forge.Schedules.Kept.{find_task-placed}

-- A row in place of another with its id, server and parent
record Replaces (row new : Task) : Type 0 where
  id : new.id ≡ row.id
  server : new.server_id ≡ row.server_id
  parent : new.payload.parent ≡ row.payload.parent

put_task-placed :
    (next : ℕ) (new : Task) (ts : List Task)
    → is_placed next new ≡ true
    → all (is_placed next) ts ≡ true
    → all (is_placed next) (put_task new ts) ≡ true
unfolding put_task
put_task-placed next new [] p h = refl
put_task-placed next new (t ∷ ts) p h =
    let ih = put_task-placed next new ts p in
    elim (Bool-cases (eqb t.id new.id)) [
      | inl e ↦ rw e (ground (arith, p, h))
      | inr e ↦ rw e (ground (arith, ih, h))
    ]

put_task-task_count :
    (server : Text) (id : ℕ) (new : Task) (ts : List Task) {row : Task}
    → find_task id ts ≡ some row
    → new.id ≡ id
    → new.server_id ≡ row.server_id
    → task_count server (put_task new ts) ≡ task_count server ts
unfolding put_task find_task
put_task-task_count server id new [] e same own = cc
put_task-task_count server id new (t ∷ ts) {row} e same own = elim (Bool-cases (eqb t.id id)) [
  | inl here ↦
      let found : t ≡ row = let q : some t ≡ some row = rw here at e in cc in
      let this : eqb t.id new.id ≡ true = rw same here in
      let k : new.server_id ≡ t.server_id = own ∙ ap (λ r. r.server_id) (sym found) in
      rw (this, k) refl
  | inr there ↦
      let other : eqb t.id new.id ≡ false = rw same there in
      let ih = put_task-task_count server id new ts (rw there at e) same own in rw (other, ih) refl
]

changed_task-Yields :
    (zone : Zone) (now : ℕ) (row : Task) (changes : TaskChanges)
    → changes.payload.parent ≡ none
    → Yields (Replaces row) (changed_task zone now row changes)
unfolding changed_task
changed_task-Yields zone now row changes still =
    >>=-Yields _ (new_action row.action changes.action) _ (λ a _.
      >>=-Yields _ (clean_payload a (merged row.payload changes.payload)) _ (λ p cleaned.
        >>=-Yields _
          (retimed zone now row (given_or changes.enabled row.enabled)
            (given_or changes.cron row.cron) p p.parent)
          _
          (λ time _.
            let same : p.parent ≡ row.payload.parent =
              clean_payload-parent a (merged row.payload changes.payload) cleaned
              ∙ ap (λ o. given_or o row.payload.parent) still in
            record { id = refl; server = refl; parent = same })))

own_task-some :
    (server : Text) (found : Option Task) {row : Task}
    → own_task server found ≡ ok row
    → found ≡ some row
own_task-some server none e = cc
own_task-some server (some t) e = elim (Bool-cases (t.server_id == server)) [
  | inl own ↦ let q = rw own at e in cc
  | inr other ↦ let q = rw other at e in cc
]

module _ (zone : Zone) (now : ℕ) (db : Table) (server : Text) where
  pub update_task-Yields :
      (id : ℕ) (changes : TaskChanges)
      → changes.payload.parent ≡ none
      → IsTidy db
      → Yields (λ (out : Table × Task). IsTidy out.0) (update_task zone now db server id changes)
  unfolding update_task
  update_task-Yields id changes still tidy =
      >>=-Yields _ (own_task server (find_task id db.tasks)) _ (λ row own.
        let found = own_task-some server (find_task id db.tasks) own in
        let (same, placed) = find_task-placed id db.next_id db.tasks found tidy.placed in
        let replaces = changed_task-Yields zone now row changes still in
        >>=-Yields _ (changed_task zone now row changes) _ (λ new changed.
          let r : Replaces row new = subst (Yields (Replaces row)) changed replaces in
          record {
            placed =
                put_task-placed db.next_id new db.tasks (rw (r.id, r.parent) placed) tidy.placed;
            few = λ s.
                rw (put_task-task_count s id new db.tasks found (r.id ∙ same) r.server)
                  (tidy.few s);
          }))

without_ids-placed :
    (next : ℕ) (gone : List ℕ) (ts : List Task)
    → all (is_placed next) ts ≡ true
    → all (is_placed next) (without_ids gone ts) ≡ true
without_ids-placed next gone [] h = refl
without_ids-placed next gone (t ∷ ts) h =
    let ih = without_ids-placed next gone ts in
    elim (Bool-cases (contains gone t.id)) [
      | inl e ↦ rw e (ground (arith, ih, h))
      | inr e ↦ rw e (ground (arith, ih, h))
    ]

without_ids-task_count :
    (server : Text) (gone : List ℕ) (ts : List Task)
    → task_count server (without_ids gone ts) ≤ task_count server ts
without_ids-task_count server gone [] = omega arith
without_ids-task_count server gone (t ∷ ts) =
    let ih = without_ids-task_count server gone ts in
    elim (Bool-cases (contains gone t.id)) [
      | inl e ↦ rw e (ground (arith, ih))
      | inr e ↦ rw e (ground (arith, ih))
    ]

take_out-IsTidy : (db : Table) (how : Removal) → IsTidy db → IsTidy (take_out db how).0
take_out-IsTidy db (deleted gone) tidy = record {
  placed = without_ids-placed db.next_id gone db.tasks tidy.placed;
  few = λ server.
      let less = without_ids-task_count server gone db.tasks in
      let before = tidy.few server in omega (arith, less, before);
}
take_out-IsTidy db missing tidy = tidy
take_out-IsTidy db unfinished tidy = tidy

pub remove_tasks-IsTidy :
    (fuel : ℕ) (db : Table) (server : Text) (id : ℕ)
    → IsTidy db
    → IsTidy (remove_tasks fuel db server id).0
unfolding remove_tasks
remove_tasks-IsTidy fuel db server id tidy =
    take_out-IsTidy db (remove fuel (server_rows server db.tasks) id) tidy
