-- ===== src/Schedules/Kept.antt =====
-- What `create`, `update_task` and `remove` keep of the table of tasks (app/schedules.py).
use mathlib.Core.Path.{subst}
use bless_forge.Base.{
  ℕ, ◌+◌, ◌<◌, ◌≡◌, refl, sym, ap, ◌∙◌, inl, inr, Bool, true, Option, none, some, List, [], ◌∷◌,
  ◌++◌, arith, ltb, eqb, eqb_iff, ltb→lt, Bool-cases, Option-cases, and-true_left, and-true_right,
  ◌==◌, ==_iff, nat_eq, string_eq, Text, text_eq, all, all-append, ok, check, check-ok, Yields,
  >>=-Yields,
}
use bless_forge.Schedules.Tasks.{action_of, Payload, Task, Table, clean_payload}
use bless_forge.Schedules.Store.{
  Zone, max_per_server, find_task, task_count, timing, new_task, create,
}
use bless_forge.Schedules.Tidy.{after_parent, is_placed, IsTidy}

pub find_task-placed :
    (id next : ℕ) (ts : List Task) {t : Task}
    → find_task id ts ≡ some t
    → all (is_placed next) ts ≡ true
    → (t.id ≡ id) × (is_placed next t ≡ true)
unfolding find_task
find_task-placed id next [] e h = cc
find_task-placed id next (s ∷ ts) {t} e h = elim (Bool-cases (eqb s.id id)) [
  | inl here ↦
      let same : s ≡ t = let q : some s ≡ some t = rw here at e in cc in
      (
        ap (λ r. r.id) (sym same) ∙ (eqb_iff s.id id).0 here,
        ap (is_placed next) (sym same) ∙ and-true_left (is_placed next s) _ h,
      )
  | inr there ↦ find_task-placed id next ts (rw there at e) (and-true_right (is_placed next s) _ h)
]

more-placed :
    (next : ℕ) (ts : List Task)
    → all (is_placed next) ts ≡ true
    → all (is_placed (next + 1)) ts ≡ true
more-placed next [] h = refl
more-placed next (t ∷ ts) h = let ih = more-placed next ts in ground arith

-- A step's parent is in the table
timing-parent :
    (zone : Zone) (now : ℕ) (db : Table) (server cron : Text) (p : Payload) (parent : Option ℕ)
    {time : Text × Option ℕ}
    → all (is_placed db.next_id) db.tasks ≡ true
    → timing zone now db server cron p parent ≡ ok time
    → after_parent db.next_id parent ≡ true
unfolding timing
timing-parent zone now db server cron p none h e = refl
timing-parent zone now db server cron p (some parent) h e =
    elim (Option-cases (find_task parent db.tasks)) [
      | inl absent ↦ let q = rw absent at e in cc
      | inr (t, found) ↦
          let (same, placed) = find_task-placed parent db.next_id db.tasks found h in
          ground (arith, same, placed)
    ]

task_count-append :
    (server : Text) (ts : List Task) (new : Task)
    → task_count server (ts ++ (new ∷ [])) ≡ task_count server ts + task_count server (new ∷ [])
task_count-append server [] new = omega arith
task_count-append server (t ∷ ts) new =
    let ih = task_count-append server ts new in
    elim (Bool-cases (t.server_id == server)) [ inl e ↦ rw e (omega (arith, ih)) | inr e ↦ rw e ih ]

added-IsTidy :
    (db : Table) (new : Task)
    → new.id ≡ db.next_id
    → after_parent db.next_id new.payload.parent ≡ true
    → task_count new.server_id db.tasks < max_per_server
    → IsTidy db
    → IsTidy (record { tasks = db.tasks ++ (new ∷ []); next_id = db.next_id + 1 })
added-IsTidy db new same later room tidy = record {
  placed =
      all-append (is_placed (db.next_id + 1)) db.tasks (new ∷ [])
      ∙ rw (more-placed db.next_id db.tasks tidy.placed, same, later) (ground arith);
  few = λ server.
      let more = task_count-append server db.tasks new in
      let before = tidy.few server in
      elim (Bool-cases (new.server_id == server)) [
        | inl e ↦
            let q = (==_iff new.server_id server).0 e in
            let k : task_count server db.tasks < max_per_server =
              subst (λ s. task_count s db.tasks < max_per_server) q room in
            let one : task_count server (new ∷ []) ≡ 1 = rw e refl in omega (arith, more, one, k)
        | inr e ↦
            let none_more : task_count server (new ∷ []) ≡ 0 = rw e refl in
            omega (arith, more, none_more, before)
      ];
}

module _ (zone : Zone) (now : ℕ) (db : Table) (server : Text) where
  pub create-Yields :
      (action cron : Text) (payload : Payload) (enabled : Bool)
      → IsTidy db
      → Yields
          (λ (out : Table × Task). IsTidy out.0)
          (create zone now db server action cron payload enabled)
  unfolding create
  create-Yields action cron payload enabled tidy = >>=-Yields _ (action_of action) _ (λ a _.
      >>=-Yields _ (clean_payload a payload) _ (λ p _.
        >>=-Yields _ (timing zone now db server cron p p.parent) _ (λ time timed.
          >>=-Yields _
            (check (ltb (task_count server db.tasks) max_per_server)
              "a server has at most 64 scheduled tasks" 400)
            _
            (λ _ room.
              added-IsTidy db (new_task db.next_id server a p enabled time) refl
                (timing-parent zone now db server cron p p.parent tidy.placed timed)
                (ltb→lt _ _ (check-ok (ltb (task_count server db.tasks) max_per_server) _ _ room))
                tidy))))
