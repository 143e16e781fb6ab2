-- ===== src/Schedules/Linked.antt =====
-- The rows that `preset` makes of the chain of a daily restart (app/schedules.py).
use mathlib.Core.Path.{subst}
use bless_forge.Base.{
  ℕ, ◌+◌, ◌-◌, ◌*◌, ◌%◌, ◌≤◌, ◌≡◌, refl, sym, ap, ◌∙◌, ◌≢◌, true, ◌&&◌, Option, none, some, List,
  [], ◌∷◌, arith, ltb, leb, leb→le, nat_eq, string_eq, Text, text_eq, contains, Result, ok, err,
  Yields,
}
use bless_forge.Schedules.Tasks.{say, restart, Task, Table}
use bless_forge.Schedules.Store.{Zone}
use bless_forge.Schedules.Dial.{every_day, IsWarning, daily_cron-lem, warning_text-IsWarning}
use bless_forge.Schedules.Spec.{at, parse}
use bless_forge.Schedules.OnTime.{
  descends, descends-lower, warnings_of-descends, lead_of-le, contains-warnings_of,
}
use bless_forge.Schedules.Presets.{
  warnings_of, restart_steps, lead_of, daily_cron, daily_group, or_given, daily_restart, Options,
  RestartStep,
}
use bless_forge.Schedules.Made.{Links, make_chain-Links}

-- The seconds that go by before a row: a first one does not wait
abbrev pub wait_of : Option ℕ → Task → ℕ
wait_of none t = 0
wait_of (some parent) t = t.payload.delay

-- The rows of a restart after so many minutes, so many seconds of them gone: one that says each
-- warning when its minutes are left, then one that restarts when none are, each chained to the row
-- before it
abbrev pub RestartRows : ℕ → ℕ → Option ℕ → List ℕ → List Task → Type 0
RestartRows total gone parent ws [] = ⊥
RestartRows total gone parent [] (t ∷ []) =
    (t.action ≡ restart) × (t.payload.parent ≡ parent) × (gone + wait_of parent t ≡ total * 60)
RestartRows total gone parent [] (t ∷ more ∷ rows) = ⊥
RestartRows total gone parent (w ∷ ws) (t ∷ rows) =
    (t.action ≡ say)
    × IsWarning w t.payload.message
    × (t.payload.parent ≡ parent)
    × (gone + wait_of parent t + w * 60 ≡ total * 60)
    × RestartRows total (gone + wait_of parent t) (some t.id) ws rows

-- The first row's cron is one moment of every day, and so many minutes after it are the asked time
abbrev pub Begins : ℕ → ℕ → ℕ → List Task → Type 0
Begins h m lead [] = ⊥
Begins h m lead (t ∷ rows) =
    (hour : ℕ) × (minute : ℕ) × (parse t.cron ≡ ok (at (every_day hour minute)))
    × ((hour * 60 + minute + lead) % 1440 ≡ h * 60 + m)

module _ (opts : Options) (group cron : Text) (total : ℕ) where
  chained-RestartRows :
      (gone previous id : ℕ) (ws : List ℕ) (rows : List Task)
      → gone + previous * 60 ≡ total * 60
      → previous ≤ 120
      → descends previous ws ≡ true
      → Links opts group cron (some id) (restart_steps previous ws) rows
      → RestartRows total gone (some id) ws rows
  chained-RestartRows gone previous id [] [] e little h links = links
  chained-RestartRows gone previous id (w ∷ ws) [] e little h links = links
  chained-RestartRows gone previous id [] (t ∷ u ∷ rows) e little h (made, links) = links
  chained-RestartRows gone previous id [] (t ∷ []) e little h (made, links) =
      let (named, parent, said, delay, timed) = made in (cc, parent, rw (delay id refl) e)
  chained-RestartRows gone previous id (w ∷ ws) (t ∷ rows) e little h (made, links) =
      let (named, parent, said, delay, timed) = made in
      let le : w ≤ previous = leb→le w previous (ground (arith, h)) in
      let split : gone + (previous - w) * 60 + w * 60 ≡ total * 60 = omega (arith, e, le) in
      let is_say : t.action ≡ say = cc in
      (
        is_say,
        subst (IsWarning w) (sym (said is_say))
            (warning_text-IsWarning w (omega (arith, le, little))),
        parent,
        rw (delay id refl) split,
        subst (λ d. RestartRows total (gone + d) (some t.id) ws rows) (sym (delay id refl))
            (chained-RestartRows (gone + (previous - w) * 60) w t.id ws rows split
              (omega (arith, le, little))
              (descends-lower previous w ws (ground (arith, h)) (ground (arith, h))) links),
      )

first-RestartRows :
    (opts : Options) (group cron : Text) (ws : List ℕ) (rows : List Task)
    → descends 120 ws ≡ true
    → Links opts group cron none (restart_steps (lead_of ws) ws) rows
    → RestartRows (lead_of ws) 0 none ws rows
first-RestartRows opts group cron [] [] h links = links
first-RestartRows opts group cron (w ∷ ws) [] h links = links
first-RestartRows opts group cron [] (t ∷ u ∷ rows) h (made, links) = links
first-RestartRows opts group cron [] (t ∷ []) h (made, links) =
    let (named, parent, said, delay, timed) = made in (cc, parent, refl)
first-RestartRows opts group cron (w ∷ ws) (t ∷ rows) h (made, links) =
    let (named, parent, said, delay, timed) = made in
    let little : w ≤ 120 = leb→le w 120 (ground (arith, h)) in
    let is_say : t.action ≡ say = cc in
    (
      is_say,
      subst (IsWarning w) (sym (said is_say)) (warning_text-IsWarning w little),
      parent,
      omega arith,
      chained-RestartRows opts group cron w 0 w t.id ws rows (omega arith) little
          (descends-lower 120 w ws (ground (arith, h)) (ground (arith, h))) links,
    )

Links-Begins :
    (opts : Options) (group : Text) (h m lead : ℕ) (steps : List RestartStep) (rows : List Task)
    → h ≤ 23
    → m ≤ 59
    → lead ≤ 120
    → Links opts group (daily_cron h m lead) none steps rows
    → steps ≢ []
    → Begins h m lead rows
Links-Begins opts group h m lead [] rows hours minutes little links some_step =
    absurd (some_step refl)
Links-Begins opts group h m lead (s ∷ ss) [] hours minutes little links some_step = links
Links-Begins opts group h m lead (s ∷ ss) (t ∷ ts) hours minutes little (made, links) some_step =
    let (named, parent, said, delay, timed) = made in
    let (hour, minute, read, begins) = daily_cron-lem h m lead hours minutes little in
    (hour, minute, ap parse (timed refl) ∙ read, begins)

Yields-map {ℓ κ μ} :
    {A : Type ℓ} (P : A → Type κ) (Q : A → Type μ) (r : Result A)
    → ((value : A) → P value → Q value)
    → Yields P r
    → Yields Q r
Yields-map P Q (ok value) f h = f value h
Yields-map P Q (err problem) f h = tt

has_step : (previous : ℕ) (ws : List ℕ) → restart_steps previous ws ≢ []
has_step previous [] = λ e. absurd (cc)
has_step previous (w ∷ ws) = λ e. absurd (cc)

-- The warnings that the options ask for
abbrev pub warnings_in : Options → List ℕ
warnings_in opts = warnings_of (or_given opts.warn (5 ∷ 1 ∷ []))

-- The preset of a daily restart at an hour and minute. Its warnings are the asked numbers of minutes
-- from one to a hundred and twenty, or five and one if none are asked for, the greatest first. When
-- no row is refused, the rows say one warning each, in words with its number, and the last restarts;
-- each row is chained to the one before it; by the rows' delays each warning comes as many minutes
-- before the restart as it says; and the first row's cron is read as one moment of every day from
-- which the asked hour and minute are as far as the greatest warning.
pub daily_restart-lem :
    (zone : Zone) (now : ℕ) (db : Table) (server : Text) (opts : Options) (h m : ℕ)
    → h ≤ 23
    → m ≤ 59
    → ((w : ℕ)
        → contains (warnings_in opts) w
          ≡ (contains (or_given opts.warn (5 ∷ 1 ∷ [])) w && (ltb 0 w && leb w 120)))
      × (descends 120 (warnings_in opts) ≡ true)
      × Yields
          (λ rows.
            RestartRows (lead_of (warnings_in opts)) 0 none (warnings_in opts) rows
            × Begins h m (lead_of (warnings_in opts)) rows)
          (daily_restart zone now db server opts (some (h, m))).1
unfolding daily_restart
daily_restart-lem zone now db server opts h m hours minutes =
    let asked = or_given opts.warn (5 ∷ 1 ∷ []) in
    let ws = warnings_in opts in
    let down = warnings_of-descends asked in
    let steps = restart_steps (lead_of ws) ws in
    let cron = daily_cron h m (lead_of ws) in
    (
      contains-warnings_of asked,
      down,
      Yields-map (Links opts (daily_group h m) cron none steps) _ _
          (λ rows links. (
            first-RestartRows opts (daily_group h m) cron ws rows down links,
            Links-Begins opts (daily_group h m) h m (lead_of ws) steps rows hours minutes
                (lead_of-le ws down) links (has_step (lead_of ws) ws),
          ))
          (make_chain-Links zone now server opts (daily_group h m) cron steps none db),
    )
