-- ===== src/Schedules/Made.antt =====
-- What `create` and the loop of `preset` make rows of (app/schedules.py).
use bless_forge.Base.{
  ℕ, ◌≡◌, sym, ap, ◌∙◌, Bool, true, not, Option, none, some, List, [], ◌∷◌, ltb, nat_eq, string_eq,
  Text, text_eq, is_empty, Result, ok, err, check, >>=-eq-ok, Yields, >>=-Yields,
}
use bless_forge.Schedules.Tasks.{
  action_of, say, Payload, Task, Table, clean_payload, clean_payload-parent, clean_payload-delay,
  clean_payload-message,
}
use bless_forge.Schedules.Store.{Zone, max_per_server, task_count, next_after, timing, create}
use bless_forge.Base.Strings.{strip}
use bless_forge.Schedules.Presets.{
  Options, RestartStep, payload_of, step_name, step_cron, and_made, after_making, make_chain,
}

-- A row that was made of these
abbrev pub IsMade : Text → Text → Payload → Task → Type 0
IsMade action cron payload t =
    (action_of action ≡ ok t.action)
    × (t.payload.parent ≡ payload.parent)
    × (t.action ≡ say → t.payload.message ≡ strip payload.message)
    × ((id : ℕ) → payload.parent ≡ some id → t.payload.delay ≡ payload.delay)
    × (payload.parent ≡ none → t.cron ≡ cron)

timing-cron :
    (zone : Zone) (now : ℕ) (db : Table) (server cron : Text) (p : Payload) (parent : Option ℕ)
    {time : Text × Option ℕ}
    → timing zone now db server cron p parent ≡ ok time
    → parent ≡ none
    → time.0 ≡ cron
unfolding timing
timing-cron zone now db server cron p (some parent) e first = absurd (cc)
timing-cron zone now db server cron p none {time} e first =
    let (_, _, e1) =
      >>=-eq-ok (check (not (is_empty cron)) "a task needs a time (or a parent to follow)" 400) _
        e in
    let (next, _, e2) = >>=-eq-ok (next_after zone cron now p.tz none) _ e1 in
    let same : (cron, next) ≡ time = cc in ap (λ (t : Text × Option ℕ). t.0) (sym same)

create-IsMade :
    (zone : Zone) (now : ℕ) (db : Table) (server action cron : Text) (payload : Payload)
    (enabled : Bool)
    → Yields
        (λ (out : Table × Task). IsMade action cron payload out.1)
        (create zone now db server action cron payload enabled)
unfolding create
create-IsMade zone now db server action cron payload enabled =
    >>=-Yields _ (action_of action) _ (λ a named.
      >>=-Yields _ (clean_payload a payload) _ (λ p cleaned.
        >>=-Yields _ (timing zone now db server cron p p.parent) _ (λ time timed.
          >>=-Yields _
            (check (ltb (task_count server db.tasks) max_per_server)
              "a server has at most 64 scheduled tasks" 400)
            _
            (λ _ _.
              let parent = clean_payload-parent a payload cleaned in
              (
                named,
                parent,
                clean_payload-message a payload cleaned,
                clean_payload-delay a payload cleaned,
                λ first. timing-cron zone now db server cron p p.parent timed (parent ∙ first),
              )))))

-- Rows of the steps, each chained to the one before
abbrev pub Links : Options → Text → Text → Option ℕ → List RestartStep → List Task → Type 0
Links opts group cron parent [] [] = Unit
Links opts group cron parent (s ∷ ss) (t ∷ ts) =
    IsMade s.action (step_cron cron parent)
      (payload_of opts (step_name group parent s) s.message group parent s.delay 0) t
    × Links opts group cron (some t.id) ss ts
Links opts group cron parent steps rows = ⊥

and_made-Yields :
    (P Q : List Task → Type 0) (row : Task) (later : Table × Result (List Task))
    → ((rest : List Task) → Q rest → P (row ∷ rest))
    → Yields Q later.1
    → Yields P (and_made row later).1
and_made-Yields P Q row (db, ok rest) step h = step rest h
and_made-Yields P Q row (db, err problem) step h = tt

after_making-Yields :
    (P : List Task → Type 0) (Q : Task → List Task → Type 0) (M : Task → Type 0) (db : Table)
    (made : Result (Table × Task)) (go_on : Task → Table → Table × Result (List Task))
    → ((row : Task) (rest : List Task) → M row → Q row rest → P (row ∷ rest))
    → Yields (λ (out : Table × Task). M out.1) made
    → ((row : Task) (next : Table) → Yields (Q row) (go_on row next).1)
    → Yields P (after_making db made go_on).1
after_making-Yields P Q M db (err problem) go_on step made later = tt
after_making-Yields P Q M db (ok (next, row)) go_on step made later =
    and_made-Yields P (Q row) row (go_on row next) (λ rest. step row rest made) (later row next)

module _ (zone : Zone) (now : ℕ) (server : Text) (opts : Options) (group cron : Text) where
  pub make_chain-Links :
      (steps : List RestartStep) (parent : Option ℕ) (db : Table)
      → Yields
          (Links opts group cron parent steps)
          (make_chain zone now server opts group cron steps parent db).1
  unfolding make_chain
  make_chain-Links [] parent db = tt
  make_chain-Links (s ∷ ss) parent db =
      let payload = payload_of opts (step_name group parent s) s.message group parent s.delay 0 in
      after_making-Yields (Links opts group cron parent (s ∷ ss))
        (λ row. Links opts group cron (some row.id) ss)
        (IsMade s.action (step_cron cron parent) payload) db
        (create zone now db server s.action (step_cron cron parent) payload true)
        (λ row next. make_chain zone now server opts group cron ss (some row.id) next)
        (λ row rest made links. (made, links))
        (create-IsMade zone now db server s.action (step_cron cron parent) payload true)
        (λ row next. make_chain-Links ss (some row.id) next)
