-- ===== src/Schedules/Spec.antt =====
-- app/schedules.py: `parse`, a `cron` value. Texts are ASCII, as for `_field`.
use bless_forge.Base.{
  ℕ, ◌*◌, Bool, false, ◌&&◌, ◌||◌, Option, none, some, List, [], ◌∷◌, map, leb, if◌then◌else◌,
  nat_eq, string_eq, Text, text_eq, contains, codes, drop, is_empty, get, Refusal, Result, ok, err,
  raise,
}
use bless_forge.Base.Strings.{strip, lower, lstrip, words, starts_with, is_digit, is_space}
use bless_forge.Schedules.Cron.{field, digits_value}

-- The five fields, with whether the days of the month and of the week are unrestricted
pub record Five : Type 0 where
  pub minutes : List ℕ
  pub hours : List ℕ
  pub doms : List ℕ
  pub dom_star : Bool
  pub months : List ℕ
  pub dows : List ℕ
  pub dow_star : Bool

pub data Spec : Type 0 where
  every : ℕ → Spec
  at : Five → Spec

abbrev pub aliases : List (Text × Text)
aliases =
    (codes "@hourly", codes "0 * * * *")
    ∷ (codes "@daily", codes "0 0 * * *")
    ∷ (codes "@midnight", codes "0 0 * * *")
    ∷ (codes "@weekly", codes "0 0 * * 0")
    ∷ (codes "@monthly", codes "0 0 1 * *")
    ∷ []

abbrev pub or_self : Text → Option Text → Text
or_self expr none = expr
or_self expr (some other) = other

-- The longest run of digits at the front, and what follows
unfoldable pub front_digits : Text → Text × Text
front_digits [] = ([], [])
front_digits (c ∷ s) =
    let (digits, rest) = front_digits s in if is_digit c then (c ∷ digits, rest) else ([], c ∷ s)

-- How many minutes the unit has, if it is one: `(m|min|minutes?|h|hours?)?`
abbrev pub unit_minutes : Text → Option ℕ
unit_minutes unit =
    if contains (map codes ("m" ∷ "min" ∷ "minute" ∷ "minutes" ∷ [])) unit || is_empty unit
    then some 1
    else if contains (map codes ("h" ∷ "hour" ∷ "hours" ∷ [])) unit
    then some 60
    else none

abbrev times : Option ℕ → Option ℕ → Option ℕ
times none b = none
times (some a) none = none
times (some a) (some b) = some (a * b)

abbrev starts_blank : Text → Bool
starts_blank [] = false
starts_blank (c ∷ s) = is_space c

-- The minutes that `@every\s+(\d+)\s*(...)?` reads, if the whole text matches
unfoldable pub every_minutes : Text → Option ℕ
unfolding starts_with lstrip front_digits is_space
every_minutes expr =
    let rest = drop 6 expr in
    let (digits, unit) = front_digits (lstrip rest) in
    if starts_with expr (codes "@every") && starts_blank rest
    then times (digits_value 0 false digits) (unit_minutes (lstrip unit))
    else none

abbrev bad_fields : Refusal
bad_fields = record { message = "a schedule is five cron fields or an alias"; status = 400 }

-- The fields together, when all five are read
abbrev pub together :
    Option (List ℕ × Bool)
    → Option (List ℕ × Bool)
    → Option (List ℕ × Bool)
    → Option (List ℕ × Bool)
    → Option (List ℕ × Bool)
    → Result Spec
together (some minutes) (some hours) (some doms) (some months) (some dows) = ok (
    at (record {
      minutes = minutes.0;
      hours = hours.0;
      doms = doms.0;
      dom_star = doms.1;
      months = months.0;
      dows = dows.0;
      dow_star = dows.1;
    }))
together minutes hours doms months dows = err bad_fields

unfoldable pub five_of : List Text → Result Spec
unfolding field
five_of (a ∷ b ∷ c ∷ d ∷ e ∷ []) =
    together (field a 0) (field b 1) (field c 2) (field d 3) (field e 4)
five_of others = err bad_fields

abbrev pub spec_of : Text → Option ℕ → Result Spec
spec_of expr none = five_of (words expr)
spec_of expr (some minutes) =
    if leb 1 minutes && leb minutes (60 * 24 * 31)
    then ok (every minutes)
    else raise "@every is between 1 minute and 31 days" 400

unfoldable pub parse : Text → Result Spec
unfolding strip lower every_minutes five_of words
parse expr =
    let plain = lower (strip expr) in
    let named = or_self plain (get aliases plain) in spec_of named (every_minutes named)
