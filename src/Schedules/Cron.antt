-- ===== src/Schedules/Cron.antt =====
-- app/schedules.py: one field of a cron expression. Texts are ASCII; `none` is a `ScheduleError`.
use mathlib.Core.Option.{map as option_map}
use bless_forge.Base.Strings.{is_digit, lower, strip}
use bless_forge.Base.{
  ℕ, zero, suc, ◌+◌, ◌-◌, ◌*◌, Bool, true, false, not, ◌&&◌, ◌||◌, Option, none, some, List, [],
  ◌∷◌, ◌++◌, map, ltb, leb, eqb, if◌then◌else◌, ◌==◌, nat_eq, string_eq, Text, text_eq, codes,
  is_empty, all,
}

-- `_FIELDS`: minute, hour, day, month, weekday; no other index is asked for
abbrev pub fields : ℕ → ℕ × ℕ
fields zero = (0, 59)
fields (suc zero) = (0, 23)
fields (suc (suc zero)) = (1, 31)
fields (suc (suc (suc zero))) = (1, 12)
fields (suc (suc (suc (suc n)))) = (0, 6)

-- The names of one field with their values.
abbrev numbered : ℕ → List Text → List (Text × ℕ)
numbered n [] = []
numbered n (name ∷ rest) = (name, n) ∷ numbered (n + 1) rest

abbrev month_names : List Text
month_names = map codes (
    "jan" ∷ "feb" ∷ "mar" ∷ "apr" ∷ "may" ∷ "jun" ∷ "jul" ∷ "aug" ∷ "sep" ∷ "oct" ∷ "nov" ∷ "dec"
    ∷ [])

abbrev weekday_names : List Text
weekday_names = map codes ("sun" ∷ "mon" ∷ "tue" ∷ "wed" ∷ "thu" ∷ "fri" ∷ "sat" ∷ [])

-- `_NAMES.get(index, {})`
abbrev names_of : ℕ → List (Text × ℕ)
names_of n =
    if eqb n 3 then numbered 1 month_names else if eqb n 4 then numbered 0 weekday_names else []

-- `int(text)` where it is not negative: a sign, then digits that single underscores may part.
abbrev pub digits_value : ℕ → Bool → Text → Option ℕ
digits_value n after_digit [] = if after_digit then some n else none
digits_value n after_digit (c ∷ s) =
    let next_digit = digits_value (10 * n + (c - b'0')) true s in
    let next_part = digits_value n false s in
    if is_digit c then next_digit else if eqb c b'_' && after_digit then next_part else none

abbrev int_of : Text → Option ℕ
int_of [] = none
int_of (c ∷ s) = if eqb c b'+' then digits_value 0 false s else digits_value 0 false (c ∷ s)

-- `names.get(part, part)`, then `int`
abbrev value_of : List (Text × ℕ) → Text → Option ℕ
value_of [] part = int_of part
value_of ((name, n) ∷ names) part =
    let rest = value_of names part in if name == part then some n else rest

-- `text.split(c, 1)`: the part before the first `c`, and the rest when there is one
abbrev pub cut : ℕ → Text → Text × Option Text
cut c [] = ([], none)
cut c (d ∷ s) = let (before, rest) = cut c s in if eqb c d then ([], some s) else (d ∷ before, rest)

-- `text.split(",")`
abbrev pub commas : Text → List Text
commas [] = [] ∷ []
commas (c ∷ s) = let rest = commas s in if eqb c b',' then [] ∷ rest else onto c rest
  where
    onto : ℕ → List Text → List Text
    onto c [] = (c ∷ []) ∷ []
    onto c (w ∷ ws) = (c ∷ w) ∷ ws

-- The step after a slash; `step_s.isdigit()` and not zero.
abbrev pub step_of : Option Text → Option ℕ
step_of none = some 1
step_of (some text) =
    if is_empty text || not (all is_digit text) then none else elim (digits_value 0 false text) [
      | none ↦ none
      | some n ↦ if ltb n 1 then none else some n
    ]

-- `range(start, end + 1, step)`; `fuel` is at least `end + 1 - start`
unfoldable pub stepped : ℕ → ℕ → ℕ → ℕ → List ℕ
stepped zero start stop step = []
stepped (suc fuel) start stop step =
    let rest = stepped fuel (start + step) stop step in if leb start stop then start ∷ rest else []

-- 7 is Sunday too
abbrev pub sunday : ℕ → ℕ → ℕ
sunday index n = if eqb index 4 && eqb n 7 then 0 else n

-- The values of one part, from its ends as they were read.
unfoldable pub span : ℕ → ℕ → ℕ → ℕ → Option (List ℕ)
span index from upto step =
    let start = sunday index from in
    let stop = sunday index upto in
    let (lo, hi) = fields index in
    if not (leb lo start && leb start hi && (leb lo stop && leb stop hi)) || ltb stop start
    then none
    else some (stepped (stop + 1 - start) start stop step)

-- The ends of a part: all of the field, a range, or one value.
abbrev pub ends_of : ℕ → Text → Option (ℕ × ℕ)
ends_of index part =
    if part == codes "*" || is_empty part
    then some (fields index)
    else (let (a, rest) = cut b'-' part in
        elim rest [
          | some b ↦ elim (value_of (names_of index) a) [
            | none ↦ none
            | some start ↦ option_map (λ stop. (start, stop)) (value_of (names_of index) b)
          ]
          | none ↦ option_map (λ n. (n, n)) (value_of (names_of index) part)
        ])

-- The values between the ends, when both parts of the text could be read.
abbrev pub spread : ℕ → Option ℕ → Option (ℕ × ℕ) → Option (List ℕ)
spread index none ends = none
spread index (some step) none = none
spread index (some step) (some (from, upto)) = span index from upto step

-- One part between commas.
unfoldable pub part_values : ℕ → Text → Option (List ℕ)
part_values index text =
    let (part, slash) = cut b'/' text in spread index (step_of slash) (ends_of index part)

-- `out.update(...)`, unless either raised
abbrev pub updated : Option (List ℕ) → Option (List ℕ) → Option (List ℕ)
updated none rest = none
updated (some values) none = none
updated (some values) (some more) = some (values ++ more)

abbrev pub parts_values : ℕ → List Text → Option (List ℕ)
parts_values index [] = some []
parts_values index (part ∷ parts) = updated (part_values index part) (parts_values index parts)

-- `_field`: the values, in the order they were added, and whether the field was `*`
unfoldable pub field : Text → ℕ → Option (List ℕ × Bool)
field text index =
    option_map (λ values. (values, strip text == codes "*"))
      (parts_values index (commas (lower text)))
