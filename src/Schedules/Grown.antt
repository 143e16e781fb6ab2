-- ===== src/Schedules/Grown.antt =====
-- What `preset`, a run on request and the end of a server keep of the table of tasks (app/schedules.py, app/main.py).
use mathlib.Core.Path.{subst}
use bless_forge.Base.{
  ℕ, ◌≤◌, ◌≡◌, refl, sym, inl, inr, Bool, true, Option, none, some, List, [], ◌∷◌, ◌++◌, arith, leb,
  Bool-cases, and-true_left, and-true_right, ◌==◌, nat_eq, string_eq, Text, text_eq, codes, all,
  Result, ok, err, Yields,
}
use bless_forge.Schedules.Tasks.{Payload, Task, Table}
use bless_forge.Schedules.Store.{Zone, find_task, task_count, own_task, create}
use bless_forge.Schedules.Runs.{run_found, run_schedule_now, without_server, drop_server}
use bless_forge.Schedules.Presets.{
  Options, RestartStep, show_number, step_name, step_cron, payload_of, and_made, after_making,
  daily_group, daily_cron, warnings_of, lead_of, restart_steps, make_chain, made_alone, or_given,
  or_number, daily_restart, preset,
}
use bless_forge.Schedules.Tidy.{is_placed, IsTidy, run_task-IsTidy}
use bless_forge.Schedules.Kept.{create-Yields}

and_made-table :
    (row : Task) (later : Table × Result (List Task)) → (and_made row later).0 ≡ later.0
and_made-table row (db, ok rows) = refl
and_made-table row (db, err problem) = refl

after_making-IsTidy :
    (db : Table) (made : Result (Table × Task)) (go_on : Task → Table → Table × Result (List Task))
    → IsTidy db
    → Yields (λ (out : Table × Task). IsTidy out.0) made
    → ((row : Task) (next : Table) → IsTidy next → IsTidy (go_on row next).0)
    → IsTidy (after_making db made go_on).0
after_making-IsTidy db (err problem) go_on tidy made ih = tidy
after_making-IsTidy db (ok (next, row)) go_on tidy made ih =
    subst IsTidy (sym (and_made-table row (go_on row next))) (ih row next made)

made_alone-IsTidy :
    (db : Table) (made : Result (Table × Task))
    → IsTidy db
    → Yields (λ (out : Table × Task). IsTidy out.0) made
    → IsTidy (made_alone db made).0
made_alone-IsTidy db (err problem) tidy made = tidy
made_alone-IsTidy db (ok (next, row)) tidy made = made

module _ (zone : Zone) (now : ℕ) (server : Text) where
  make_chain-IsTidy :
      (opts : Options) (group cron : Text) (steps : List RestartStep) (parent : Option ℕ)
      (db : Table)
      → IsTidy db
      → IsTidy (make_chain zone now server opts group cron steps parent db).0
  unfolding make_chain
  make_chain-IsTidy opts group cron [] parent db tidy = tidy
  make_chain-IsTidy opts group cron (step ∷ steps) parent db tidy =
      let payload =
        payload_of opts (step_name group parent step) step.message group parent step.delay 0 in
      after_making-IsTidy db
        (create zone now db server step.action (step_cron cron parent) payload true) _ tidy
        (create-Yields zone now db server step.action (step_cron cron parent) payload true tidy)
        (λ row next. make_chain-IsTidy opts group cron steps (some row.id) next)

  daily_restart-IsTidy :
      (db : Table) (opts : Options) (time : Option (ℕ × ℕ))
      → IsTidy db
      → IsTidy (daily_restart zone now db server opts time).0
  unfolding daily_restart
  daily_restart-IsTidy db opts none tidy = tidy
  daily_restart-IsTidy db opts (some (h, m)) tidy =
      let warn = warnings_of (or_given opts.warn (5 ∷ 1 ∷ [])) in
      make_chain-IsTidy opts (daily_group h m) (daily_cron h m (lead_of warn))
        (restart_steps (lead_of warn) warn) none db tidy

  pub preset-IsTidy :
      (db : Table) (kind : Text) (opts : Options)
      → IsTidy db
      → IsTidy (preset zone now db server kind opts).0
  unfolding preset
  preset-IsTidy db kind opts tidy =
      let hours = or_number opts.hours 6 in
      let made = λ (action cron : Text) (payload : Payload).
        made_alone-IsTidy db (create zone now db server action cron payload true) tidy
          (create-Yields zone now db server action cron payload true tidy) in
      elim (Bool-cases (kind == codes "daily_restart")) [
        | inl e ↦ rw e (daily_restart-IsTidy db opts _ tidy)
        | inr restart ↦ elim (Bool-cases (kind == codes "announce")) [
          | inl e ↦
              rw (restart, e)
                (made (codes "say") (or_given opts.cron (codes "@hourly"))
                  (payload_of opts (codes "Announcement") opts.message [] none 0 0))
          | inr say ↦ elim (Bool-cases (kind == codes "backup_every")) [
            | inr e ↦ rw (restart, say, e) tidy
            | inl e ↦ elim (Bool-cases (leb hours 168)) [
              | inl few ↦
                  rw (restart, say, e, few)
                    (made (codes "backup") (codes "@every " ++ (show_number hours ++ codes "h")) (
                      payload_of opts (codes "Backup every " ++ (show_number hours ++ codes " h"))
                        [] [] none 0 (or_number opts.keep 8)))
              | inr many ↦ rw (restart, say, e, many) tidy
            ]
          ]
        ]
      ]

pub run_schedule_now-Yields :
    (did : Task → Text × Bool) (now : ℕ) (db : Table) (server : Text) (id : ℕ)
    → IsTidy db
    → Yields IsTidy (run_schedule_now did now db server id)
unfolding run_schedule_now
run_schedule_now-Yields did now db server id tidy = found (own_task server (find_task id db.tasks))
  where
    found : (r : Result Task) → Yields IsTidy (run_found did now db r)
    found (err problem) = tt
    found (ok row) = run_task-IsTidy now row (did row).0 (did row).1 db tidy

without_server-placed :
    (server : Text) (next : ℕ) (ts : List Task)
    → all (is_placed next) ts ≡ true
    → all (is_placed next) (without_server server ts) ≡ true
without_server-placed server next [] h = refl
without_server-placed server next (t ∷ ts) h =
    let ih = without_server-placed server next ts (and-true_right (is_placed next t) _ h) in
    elim (Bool-cases (t.server_id == server)) [
      | inl e ↦ rw e ih
      | inr e ↦ rw (e, and-true_left (is_placed next t) _ h) ih
    ]

without_server-fewer :
    (server other : Text) (ts : List Task)
    → task_count other (without_server server ts) ≤ task_count other ts
without_server-fewer server other [] = omega arith
without_server-fewer server other (t ∷ ts) =
    let ih = without_server-fewer server other ts in
    elim (Bool-cases (t.server_id == server)) [
      | inl e ↦ rw e (ground (arith, ih))
      | inr e ↦ rw e (ground (arith, ih))
    ]

pub drop_server-IsTidy : (server : Text) (db : Table) → IsTidy db → IsTidy (drop_server server db)
drop_server-IsTidy server db tidy = record {
  placed = without_server-placed server db.next_id db.tasks tidy.placed;
  few = λ other.
      let fewer = without_server-fewer server other db.tasks in
      let before = tidy.few other in omega (arith, fewer, before);
}
