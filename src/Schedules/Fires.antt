-- ===== src/Schedules/Fires.antt =====
-- The next time of a schedule (app/schedules.py: `parse` and `next_after`).
use bless_forge.Base.{
  ℕ, zero, suc, ◌+◌, ◌-◌, ◌*◌, ◌≤◌, ◌<◌, ◌≡◌, refl, sym, ap, ◌∙◌, ◌⊎◌, inl, inr, Bool, true, false,
  ◌&&◌, Option, none, some, List, [], ◌∷◌, arith, ltb, leb, leb→le, Bool-cases, Option-cases,
  and-true_left, nat_eq, string_eq, Text, text_eq, all, All, get, Result, ok, err,
}
use bless_forge.Base.Strings.{lower, strip, words}
use bless_forge.Schedules.Cron.{field, fields}
use bless_forge.Schedules.Fields.{InField, field-InField}
use bless_forge.Schedules.Spec.{
  Five, Spec, every, at, together, or_self, aliases, five_of, spec_of, every_minutes, parse,
}
use bless_forge.Schedules.Calendar.{
  Day, next_day, search_days, max_days, next_local, step_past, or_now, next_every,
}
use bless_forge.Schedules.Next.{
  of_clock, fires_at, IsNext, fires_at-later, later-IsNext, search_days-IsNext, search_days-none,
}

All-small :
    (index hi : ℕ) (values : List ℕ)
    → (fields index).1 < hi
    → All (InField index) values
    → all (λ n. ltb n hi) values ≡ true
All-small index hi [] lt h = refl
All-small index hi (n ∷ ns) lt ((low, high), rest) =
    let ih = All-small index hi ns lt rest in ground arith

-- What is read is of a clock, and takes a minute or more
abbrev is_timely : Result Spec → Bool
is_timely (ok (at f)) = of_clock f
is_timely (ok (every minutes)) = leb 1 minutes
is_timely (err problem) = true

together-is_timely :
    (minutes hours doms months dows : Option (List ℕ × Bool))
    → ((v : List ℕ × Bool) → minutes ≡ some v → all (λ n. ltb n 60) v.0 ≡ true)
    → ((v : List ℕ × Bool) → hours ≡ some v → all (λ n. ltb n 24) v.0 ≡ true)
    → is_timely (together minutes hours doms months dows) ≡ true
together-is_timely none hours doms months dows ms hs = refl
together-is_timely (some m) none doms months dows ms hs = refl
together-is_timely (some m) (some h) none months dows ms hs = refl
together-is_timely (some m) (some h) (some o) none dows ms hs = refl
together-is_timely (some m) (some h) (some o) (some n) none ms hs = refl
together-is_timely (some m) (some h) (some o) (some n) (some w) ms hs =
    rw (ms m refl, hs h refl) refl

five_of-is_timely : (parts : List Text) → is_timely (five_of parts) ≡ true
unfolding five_of
five_of-is_timely [] = refl
five_of-is_timely (a ∷ []) = refl
five_of-is_timely (a ∷ b ∷ []) = refl
five_of-is_timely (a ∷ b ∷ c ∷ []) = refl
five_of-is_timely (a ∷ b ∷ c ∷ d ∷ []) = refl
five_of-is_timely (a ∷ b ∷ c ∷ d ∷ e ∷ f ∷ rest) = refl
five_of-is_timely (a ∷ b ∷ c ∷ d ∷ e ∷ []) =
    together-is_timely (field a 0) (field b 1) (field c 2) (field d 3) (field e 4)
      (λ v read. All-small 0 60 v.0 (omega arith) (field-InField a 0 read))
      (λ v read. All-small 1 24 v.0 (omega arith) (field-InField b 1 read))

spec_of-is_timely : (expr : Text) (minutes : Option ℕ) → is_timely (spec_of expr minutes) ≡ true
spec_of-is_timely expr none = five_of-is_timely (words expr)
spec_of-is_timely expr (some minutes) =
    elim (Bool-cases (leb 1 minutes && leb minutes (60 * 24 * 31))) [
      | inl k ↦ rw k (and-true_left (leb 1 minutes) _ k)
      | inr k ↦ rw k refl
    ]

parse-is_timely : (expr : Text) → is_timely (parse expr) ≡ true
unfolding parse
parse-is_timely expr =
    let plain = lower (strip expr) in
    let named = or_self plain (get aliases plain) in spec_of-is_timely named (every_minutes named)

-- What the search says of the minutes after one of a day
abbrev pub Answers : Five → Day → ℕ → Option (Day × ℕ) → Type 0
Answers f d minute none = (q : ℕ) → minute < q → q < max_days * 1440 → fires_at f d q ≡ false
Answers f d minute (some found) = (p : ℕ) × IsNext f d (minute + 1) found p

search_days-Answers :
    (f : Five)
    → of_clock f ≡ true
    → (d : Day) (minute : ℕ) → minute < 1439
    → Answers f d minute (search_days f max_days d (minute + 1))
search_days-Answers f clock d minute lt =
    elim (Option-cases (search_days f max_days d (minute + 1))) [
      | inl e ↦ rw e (λ q after below.
          search_days-none f clock max_days d (minute + 1) q e (omega (arith, after)) below)
      | inr (found, e) ↦
          rw e (search_days-IsNext f clock max_days d (minute + 1) (omega (arith, lt)) e)
    ]

next_day-Answers :
    (f : Five)
    → of_clock f ≡ true
    → (d : Day) (minute : ℕ) → minute ≡ 1439
    → Answers f d minute (search_days f max_days (next_day d) 0)
next_day-Answers f clock d minute last =
    elim (Option-cases (search_days f max_days (next_day d) 0)) [
      | inl e ↦ rw e (λ q after below.
          let split : 1440 + (q - 1440) ≡ q = omega (arith, after, last) in
          ap (fires_at f d) (sym split)
          ∙ fires_at-later f d (q - 1440)
          ∙ search_days-none f clock max_days (next_day d) 0 (q - 1440) e (omega arith)
              (omega (arith, below)))
      | inr (found, e) ↦
          let (p, next) = search_days-IsNext f clock max_days (next_day d) 0 (omega arith) e in
          rw e (
            1440 + p,
            later-IsNext f clock d (minute + 1) (omega (arith, last))
                (λ q le lt. absurd (omega (arith, last, le, lt))) next,
          )
    ]

next_local-of_clock :
    (f : Five)
    → of_clock f ≡ true
    → (d : Day) (minute : ℕ) → minute < 1440
    → Answers f d minute (next_local f d minute)
unfolding next_local
next_local-of_clock f clock d minute lt = elim (Bool-cases (leb 1439 minute)) [
  | inl last ↦
      rw last (next_day-Answers f clock d minute (omega (arith, lt, leb→le 1439 minute last)))
  | inr early ↦ rw early (search_days-Answers f clock d minute (ground arith))
]

nearer :
    (after next step : ℕ) {found : ℕ}
    → (found ≡ next + step) ⊎ (found ≤ after + step)
    → next ≤ after
    → found ≤ after + step
nearer after next step near le = ground arith

step_past-lem :
    (fuel after step next : ℕ)
    → 0 < step
    → after < next + fuel
    → let found = step_past fuel after step next in
      (after < found)
      × ((found ≡ next) ⊎ (found ≤ after + step))
      × ((k : ℕ) × (found ≡ next + k * step))
unfolding step_past
step_past-lem zero after step next pos le = (omega (arith, le), inl refl, (0, omega arith))
step_past-lem (suc fuel) after step next pos le = elim (Bool-cases (leb next after)) [
  | inr e ↦ rw e (ground arith, inl refl, (0, omega arith))
  | inl e ↦
      let (over, near, (k, eq)) =
        step_past-lem fuel after step (next + step) pos (omega (arith, pos, le)) in
      rw e
        (over, inr (nearer after next step near (leb→le next after e)), (suc k, eq ∙ omega arith))
]

-- The next time of fields that `parse` reads, after a minute of a day: the least minute after it at
-- which they fire, or, when there is none, no minute of the 1830 days from that day fires.
pub next_local-Answers :
    (expr : Text) {f : Five}
    → parse expr ≡ ok (at f)
    → (d : Day) (minute : ℕ) → minute < 1440
    → Answers f d minute (next_local f d minute)
next_local-Answers expr {f} read =
    next_local-of_clock f (sym (ap is_timely read) ∙ parse-is_timely expr)

-- An `@every` schedule fires next strictly after now, a whole number of steps, at least one, after
-- its base (the last run, or now without one), and at most one step after now when it has passed
-- more than one step: the loop ends, for every schedule that `parse` reads.
pub next_every-lem :
    (expr : Text) {minutes : ℕ}
    → parse expr ≡ ok (every minutes)
    → (after : ℕ) (last_run : Option ℕ)
    → let found = next_every minutes after last_run in
      let base = or_now after last_run in
      let step = minutes * 60 in
      (after < found)
      × ((found ≡ base + step) ⊎ (found ≤ after + step))
      × ((k : ℕ) × (found ≡ base + step + k * step))
unfolding next_every
next_every-lem expr {minutes} read after last_run =
    let pos = leb→le 1 minutes (sym (ap is_timely read) ∙ parse-is_timely expr) in
    step_past-lem (after + 1) after (minutes * 60) (or_now after last_run + minutes * 60)
      (omega (arith, pos)) (omega arith)
