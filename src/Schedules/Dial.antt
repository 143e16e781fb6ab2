-- ===== src/Schedules/Dial.antt =====
-- The times and the warnings that `preset` writes for a daily restart (app/schedules.py), read back.
use bless_forge.Base.{
  ℕ, zero, suc, ◌+◌, ◌*◌, ◌/◌, ◌%◌, ◌≤◌, ◌<◌, ◌≡◌, refl, ap, inl, inr, Bool, true, false, ◌&&◌,
  List, [], ◌∷◌, ◌++◌, arith, eqb, if◌then◌else◌, eqb_iff, Bool-cases, and-true_left,
  and-true_right, ◌==◌, ==_iff, nat_eq, string_eq, Text, text_eq, codes, all, Result, ok, err,
}
use bless_forge.Base.Strings.{
  strip, lower, lstrip, rstrip_space, words, starts_with, is_digit, is_space,
}
use bless_forge.Schedules.Cron.{field, part_values, span, stepped}
use bless_forge.Schedules.Spec.{Five, Spec, every, at, front_digits, every_minutes, five_of, parse}
use bless_forge.Schedules.Presets.{
  show_number, read_digits, warning_text, first_minute_of, clock_cron, daily_cron,
}

abbrev count_up : ℕ → ℕ → List ℕ
count_up from zero = []
count_up from (suc n) = from ∷ count_up (from + 1) n

all-count_up :
    (p : ℕ → Bool) (from n k : ℕ)
    → all p (count_up from n) ≡ true
    → from ≤ k
    → k < from + n
    → p k ≡ true
all-count_up p from zero k h low high = absurd (omega (arith, low, high))
all-count_up p from (suc n) k h low high = elim (Bool-cases (eqb from k)) [
  | inl e ↦ rw (← (eqb_iff from k).0 e) (and-true_left (p from) _ h)
  | inr e ↦
      all-count_up p (from + 1) n k (and-true_right (p from) _ h) (ground (arith, e, low))
        (omega (arith, high))
]

-- One minute of the hour, one hour, and every day
abbrev pub every_day : ℕ → ℕ → Five
every_day hour minute = record {
  minutes = minute ∷ [];
  hours = hour ∷ [];
  doms = count_up 1 31;
  dom_star = true;
  months = count_up 1 12;
  dows = count_up 0 7;
  dow_star = true;
}

abbrev is_five : Five → Five → Bool
is_five f g =
    (f.minutes == g.minutes)
    && (f.hours == g.hours)
    && (f.doms == g.doms)
    && (f.months == g.months)
    && (f.dows == g.dows)
    && f.dom_star
    && g.dom_star
    && f.dow_star
    && g.dow_star

abbrev is_at : Five → Result Spec → Bool
is_at g (ok (at f)) = is_five f g
is_at g (ok (every minutes)) = false
is_at g (err problem) = false

is_five-eq : (f g : Five) → is_five f g ≡ true → f ≡ g
is_five-eq f g h =
    let a : f.minutes ≡ g.minutes = (==_iff f.minutes g.minutes).0 (ground (arith, h)) in
    let b : f.hours ≡ g.hours = (==_iff f.hours g.hours).0 (ground (arith, h)) in
    let c : f.doms ≡ g.doms = (==_iff f.doms g.doms).0 (ground (arith, h)) in
    let d : f.months ≡ g.months = (==_iff f.months g.months).0 (ground (arith, h)) in
    let e : f.dows ≡ g.dows = (==_iff f.dows g.dows).0 (ground (arith, h)) in
    let x : f.dom_star ≡ g.dom_star = ground (arith, h) in
    let y : f.dow_star ≡ g.dow_star = ground (arith, h) in cc

is_at-eq : (g : Five) (spec : Result Spec) → is_at g spec ≡ true → spec ≡ ok (at g)
is_at-eq g (ok (at f)) h = ap (λ five. ok (at five)) (is_five-eq f g h)
is_at-eq g (ok (every minutes)) h = absurd (cc)
is_at-eq g (err problem) h = absurd (cc)

abbrev reads_back : ℕ → Bool
reads_back first = is_at (every_day (first / 60) (first % 60)) (parse (clock_cron first))

day_table : all reads_back (count_up 0 1440) ≡ true
unfolding parse every_minutes five_of words field strip lower part_values span stepped lstrip
    rstrip_space starts_with is_space front_digits
day_table = refl

-- The cron of the chain is read as one moment of every day, from which the warnings' lead brings
-- the clock to the asked minute.
pub daily_cron-lem :
    (h m lead : ℕ)
    → h ≤ 23
    → m ≤ 59
    → lead ≤ 120
    → (hour : ℕ) × (minute : ℕ) × (parse (daily_cron h m lead) ≡ ok (at (every_day hour minute)))
      × ((hour * 60 + minute + lead) % 1440 ≡ h * 60 + m)
daily_cron-lem h m lead hours minutes little =
    let first = first_minute_of h m lead in
    let in_day : first < 1440 = omega arith in
    (
      first / 60,
      first % 60,
      is_at-eq _ _ (all-count_up reads_back 0 1440 first day_table (omega arith) in_day),
      omega (arith, hours, minutes, little),
    )

-- So many minutes before a restart, in words
pub record IsWarning (w : ℕ) (text : Text) : Type 0 where
  pub digits : Text
  pub decimal : all is_digit digits ≡ true
  pub number : read_digits 0 digits ≡ w
  pub spelled :
      text
      ≡ codes "Server restarts in "
        ++ (digits ++ (if eqb w 1 then codes " minute." else codes " minutes."))

abbrev is_warning : ℕ → Bool
is_warning w =
    all is_digit (show_number w)
    && eqb (read_digits 0 (show_number w)) w
    && (strip (warning_text w)
        == codes "Server restarts in "
          ++ (show_number w ++ (if eqb w 1 then codes " minute." else codes " minutes.")))

warning_table : all is_warning (count_up 0 121) ≡ true
unfolding strip lstrip rstrip_space is_space
warning_table = refl

pub warning_text-IsWarning : (w : ℕ) → w ≤ 120 → IsWarning w (strip (warning_text w))
warning_text-IsWarning w little =
    let h = all-count_up is_warning 0 121 w warning_table (omega arith) (omega (arith, little)) in
    record {
      digits = show_number w;
      decimal = ground (arith, h);
      number = (eqb_iff _ w).0 (ground (arith, h));
      spelled = (==_iff _ _).0 (ground (arith, h));
    }
