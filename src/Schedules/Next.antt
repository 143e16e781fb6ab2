-- ===== src/Schedules/Next.antt =====
-- The minutes at which five fields fire, counted from the midnight a day starts with
-- (app/schedules.py: `next_after`).
use mathlib.Core.Path.{subst}
use bless_forge.Base.{
  ℕ, zero, suc, ◌+◌, ◌-◌, ◌*◌, ◌/◌, ◌%◌, ◌≤◌, ◌<◌, ◌≡◌, refl, sym, ap, ◌∙◌, inl, inr, Bool, true,
  false, ◌&&◌, Option, none, some, List, arith, ltb, ltb→lt, Bool-cases, Option-cases,
  and-true_left, and-true_right, nat_eq, string_eq, text_eq, contains, all, all-contains,
}
use bless_forge.Schedules.Spec.{Five}
use bless_forge.Schedules.Calendar.{
  Day, next_day, day_fits, sorted_numbers, first_time, day_time, search_days,
}
use bless_forge.Schedules.Minutes.{
  in_times, contains-sorted_numbers, all-sorted_numbers, ascending-sorted_numbers, first_time-some,
  first_time-least, first_time-none,
}

-- The day so many days after a day
unfoldable pub day_after : ℕ → Day → Day
day_after zero d = d
day_after (suc n) d = day_after n (next_day d)

-- Whether the fields name the minute
abbrev pub fires_at : Five → Day → ℕ → Bool
fires_at f d p = day_fits f (day_after (p / 1440) d) && in_times f.hours f.minutes (p % 1440)

-- The hours and the minutes are those of a clock
abbrev pub of_clock : Five → Bool
of_clock f = all (λ m. ltb m 60) f.minutes && all (λ h. ltb h 24) f.hours

-- What a search from a minute finds: the least minute that fires
pub record IsNext (f : Five) (d : Day) (from : ℕ) (found : Day × ℕ) (p : ℕ) : Type 0 where
  pub placed : found ≡ (day_after (p / 1440) d, p % 1440)
  pub fires : fires_at f d p ≡ true
  pub reached : from ≤ p
  pub least : (q : ℕ) → from ≤ q → fires_at f d q ≡ true → p ≤ q

sorted-in_times :
    (hours minutes : List ℕ) (t : ℕ)
    → in_times (sorted_numbers hours) (sorted_numbers minutes) t ≡ in_times hours minutes t
sorted-in_times hours minutes t =
    rw (contains-sorted_numbers hours (t / 60), contains-sorted_numbers minutes (t % 60)) refl

ltb-ge : (a b : ℕ) → ltb a b ≡ false → b ≤ a
ltb-ge a b e = ground arith

fires_at-today :
    (f : Five) (d : Day) (q : ℕ)
    → q < 1440
    → fires_at f d q ≡ (day_fits f d && in_times f.hours f.minutes q)
unfolding day_after
fires_at-today f d q lt =
    let day : q / 1440 ≡ 0 = omega (arith, lt) in
    let time : q % 1440 ≡ q = omega (arith, lt) in rw (day, time) refl

pub fires_at-later :
    (f : Five) (d : Day) (q : ℕ) → fires_at f d (1440 + q) ≡ fires_at f (next_day d) q
unfolding day_after
fires_at-later f d q =
    let day : (1440 + q) / 1440 ≡ suc (q / 1440) = omega arith in
    let time : (1440 + q) % 1440 ≡ q % 1440 = omega arith in rw (day, time) refl

module _ (f : Five) (clock : of_clock f ≡ true) where
  minutes-small : all (λ m. ltb m 60) (sorted_numbers f.minutes) ≡ true
  minutes-small =
      all-sorted_numbers (λ m. ltb m 60) f.minutes
      ∙ and-true_left (all (λ m. ltb m 60) f.minutes) _ clock

  in_times-day : (t : ℕ) → in_times f.hours f.minutes t ≡ true → t < 1440
  in_times-day t h =
      let hour = and-true_left (contains f.hours (t / 60)) _ h in
      let small = and-true_right (all (λ m. ltb m 60) f.minutes) _ clock in
      let lt = ltb→lt _ 24 (all-contains (λ k. ltb k 24) f.hours (t / 60) small hour) in
      omega (arith, lt)

  -- Of the day itself: the time found is its least that fires
  day_time-some :
      (d : Day) (from : ℕ) {t : ℕ} → day_time f d from ≡ some t → IsNext f d from (d, t) t
  unfolding day_after
  day_time-some d from {t} e = elim (Bool-cases (day_fits f d)) [
    | inr miss ↦ let k : none ≡ some t = rw miss at e in cc
    | inl fit ↦
        let k : first_time from (sorted_numbers f.hours) (sorted_numbers f.minutes) ≡ some t =
          rw fit at e in
        let (inside, le) =
          first_time-some (sorted_numbers f.minutes) minutes-small
            (ascending-sorted_numbers f.minutes) from (sorted_numbers f.hours) k in
        let within : in_times f.hours f.minutes t ≡ true =
          sym (sorted-in_times f.hours f.minutes t) ∙ inside in
        let lt = in_times-day t within in
        let day : t / 1440 ≡ 0 = omega (arith, lt) in
        let time : t % 1440 ≡ t = omega (arith, lt) in
        record {
          placed = rw (day, time) refl;
          fires = fires_at-today f d t lt ∙ rw (fit, within) refl;
          reached = le;
          least = λ q below fire. elim (Bool-cases (ltb q 1440)) [
            | inr past ↦ let beyond = ltb-ge q 1440 past in omega (arith, lt, beyond)
            | inl today ↦
                let small = ltb→lt q 1440 today in
                first_time-least (sorted_numbers f.minutes) minutes-small
                  (ascending-sorted_numbers f.minutes) from (sorted_numbers f.hours) q
                  (ascending-sorted_numbers f.hours) k
                  (sorted-in_times f.hours f.minutes q
                    ∙ and-true_right (day_fits f d) _ (sym (fires_at-today f d q small) ∙ fire))
                  below
          ];
        }
  ]

  day_time-none :
      (d : Day) (from q : ℕ)
      → day_time f d from ≡ none
      → from ≤ q
      → q < 1440
      → fires_at f d q ≡ false
  day_time-none d from q e le lt = elim (Bool-cases (fires_at f d q)) [
    | inr miss ↦ miss
    | inl fire ↦
        let today = sym (fires_at-today f d q lt) ∙ fire in
        let fit = and-true_left (day_fits f d) _ today in
        let k =
          first_time-none (sorted_numbers f.minutes) minutes-small
            (ascending-sorted_numbers f.minutes) from (sorted_numbers f.hours) q (rw fit at e)
            (sorted-in_times f.hours f.minutes q ∙ and-true_right (day_fits f d) _ today) in
        absurd (omega (arith, k, le))
  ]

  -- A search that goes on from the next day
  pub later-IsNext :
      (d : Day) (from : ℕ) {found : Day × ℕ} {p : ℕ}
      → from ≤ 1440
      → ((q : ℕ) → from ≤ q → q < 1440 → fires_at f d q ≡ false)
      → IsNext f (next_day d) 0 found p
      → IsNext f d from found (1440 + p)
  unfolding day_after
  later-IsNext d from {found} {p} le today_none next =
      let day : (1440 + p) / 1440 ≡ suc (p / 1440) = omega arith in
      let time : (1440 + p) % 1440 ≡ p % 1440 = omega arith in
      record {
        placed = next.placed ∙ rw (day, time) refl;
        fires = fires_at-later f d p ∙ next.fires;
        reached = omega (arith, le);
        least = λ q below fire. elim (Bool-cases (ltb q 1440)) [
          | inl today ↦ absurd (
              let k = today_none q below (ltb→lt q 1440 today) in
              let wrong : true ≡ false = sym fire ∙ k in cc)
          | inr past ↦
              let beyond = ltb-ge q 1440 past in
              let split : 1440 + (q - 1440) ≡ q = omega (arith, beyond) in
              let k =
                next.least (q - 1440) (omega arith)
                  (sym (fires_at-later f d (q - 1440)) ∙ ap (fires_at f d) split ∙ fire) in
              omega (arith, k, beyond)
        ];
      }

  pub search_days-IsNext :
      (days : ℕ) (d : Day) (from : ℕ) {found : Day × ℕ}
      → from ≤ 1440
      → search_days f days d from ≡ some found
      → (p : ℕ) × IsNext f d from found p
  unfolding search_days
  search_days-IsNext zero d from le e = cc
  search_days-IsNext (suc days) d from {found} le e = elim (Option-cases (day_time f d from)) [
    | inr (t, now) ↦
        let same : (d, t) ≡ found = let k : some (d, t) ≡ some found = rw now at e in cc in
        (t, subst (λ r. IsNext f d from r t) same (day_time-some d from now))
    | inl later ↦
        let (p, next) = search_days-IsNext days (next_day d) 0 (omega arith) (rw later at e) in
        (
          1440 + p,
          later-IsNext d from le (λ q below lt. day_time-none d from q later below lt) next,
        )
  ]

  pub search_days-none :
      (days : ℕ) (d : Day) (from q : ℕ)
      → search_days f days d from ≡ none
      → from ≤ q
      → q < days * 1440
      → fires_at f d q ≡ false
  unfolding search_days
  search_days-none zero d from q e le lt = absurd (omega (arith, lt))
  search_days-none (suc days) d from q e le lt = elim (Option-cases (day_time f d from)) [
    | inr (t, now) ↦ let k : Path (Option (Day × ℕ)) (some (d, t)) none = rw now at e in cc
    | inl later ↦ elim (Bool-cases (ltb q 1440)) [
      | inl today ↦ day_time-none d from q later le (ltb→lt q 1440 today)
      | inr past ↦
          let beyond = ltb-ge q 1440 past in
          let split : 1440 + (q - 1440) ≡ q = omega (arith, beyond) in
          let ih =
            search_days-none days (next_day d) 0 (q - 1440) (rw later at e) (omega arith)
              (omega (arith, lt, beyond)) in
          ap (fires_at f d) (sym split) ∙ fires_at-later f d (q - 1440) ∙ ih
    ]
  ]
