-- ===== src/Schedules/Fields.antt =====
-- About the values of `_field` (app/schedules.py).
use mathlib.Core.Path.{subst}
use mathlib.Core.Option.{some-injective, none-ne-some}
use bless_forge.Base.Strings.{lower}
use bless_forge.Base.{
  ℕ, zero, suc, ◌+◌, ◌≤◌, ◌<◌, ◌≡◌, refl, ap, inl, inr, Bool, true, not, ◌&&◌, ◌||◌, Option, none,
  some, List, [], ◌∷◌, arith, ltb, leb, Bool-cases, Option-cases, nat_eq, string_eq, Text, text_eq,
  All, All-append,
}
use bless_forge.Schedules.Cron.{
  updated, spread, commas, cut, step_of, ends_of, sunday, fields, stepped, span, part_values,
  parts_values, field,
}

-- A value that the field can have.
abbrev pub InField : ℕ → ℕ → Type 0
InField index n = ((fields index).0 ≤ n) × (n ≤ (fields index).1)

leb-below : {start stop hi : ℕ} → stop ≤ hi → leb start stop ≡ true → start ≤ hi
leb-below h e = ground arith

stepped-All :
    {lo hi : ℕ} (fuel start stop step : ℕ)
    → lo ≤ start
    → stop ≤ hi
    → All (λ n. (lo ≤ n) × (n ≤ hi)) (stepped fuel start stop step)
unfolding stepped
stepped-All zero start stop step l h = tt
stepped-All (suc fuel) start stop step l h = elim (Bool-cases (leb start stop)) [
  | inl e ↦
      let ih = stepped-All fuel (start + step) stop step (omega arith) h in
      rw e ((l, leb-below h e), ih)
  | inr e ↦ rw e tt
]

span-InField :
    (index from upto step : ℕ) {values : List ℕ}
    → span index from upto step ≡ some values
    → All (InField index) values
unfolding span
span-InField index from upto step e =
    elim (Bool-cases (
      not (
        leb (fields index).0 (sunday index from)
        && leb (sunday index from) (fields index).1
        && (leb (fields index).0 (sunday index upto) && leb (sunday index upto) (fields index).1))
      || ltb (sunday index upto) (sunday index from))) [
        | inl b ↦ absurd (none-ne-some _ (rw b at e))
        | inr b ↦
            subst (All (InField index)) (some-injective _ _ (rw b at e))
              (stepped-All _ _ _ step (ground arith) (ground arith))
      ]

spread-InField :
    (index : ℕ) (by : Option ℕ) (ends : Option (ℕ × ℕ)) {values : List ℕ}
    → spread index by ends ≡ some values
    → All (InField index) values
spread-InField index none ends e = absurd (none-ne-some _ e)
spread-InField index (some n) none e = absurd (none-ne-some _ e)
spread-InField index (some n) (some (from, upto)) e = span-InField index from upto n e

part_values-InField :
    (index : ℕ) (text : Text) {values : List ℕ}
    → part_values index text ≡ some values
    → All (InField index) values
unfolding part_values
part_values-InField index text e =
    let (part, slash) = cut b'/' text in spread-InField index (step_of slash) (ends_of index part) e

updated-InField :
    (index : ℕ) (here rest : Option (List ℕ)) {values : List ℕ}
    → ((vs : List ℕ) → here ≡ some vs → All (InField index) vs)
    → ((vs : List ℕ) → rest ≡ some vs → All (InField index) vs)
    → updated here rest ≡ some values
    → All (InField index) values
updated-InField index none rest h k e = absurd (none-ne-some _ e)
updated-InField index (some vs) none h k e = absurd (none-ne-some _ e)
updated-InField index (some vs) (some ws) h k e =
    subst (All (InField index)) (some-injective _ _ e)
      (All-append (InField index) vs ws (h vs refl) (k ws refl))

parts_values-InField :
    (index : ℕ) (parts : List Text) (values : List ℕ)
    → parts_values index parts ≡ some values
    → All (InField index) values
parts_values-InField index [] values e = subst (All (InField index)) (some-injective _ _ e) tt
parts_values-InField index (part ∷ parts) values e =
    updated-InField index (part_values index part) (parts_values index parts)
      (λ vs h. part_values-InField index part h) (λ vs h. parts_values-InField index parts vs h) e

-- A field's values are all ones that the field can have: minutes below 60, hours below 24, days 1
-- to 31, months 1 to 12 and weekdays 0 to 6.
pub field-InField :
    (text : Text) (index : ℕ) {values : List ℕ} {star : Bool}
    → field text index ≡ some (values, star)
    → All (InField index) values
unfolding field
field-InField text index e = elim (Option-cases (parts_values index (commas (lower text)))) [
  | inl n ↦ absurd (none-ne-some _ (rw n at e))
  | inr (found, n) ↦
      subst (All (InField index)) (ap (λ p. p.0) (some-injective _ _ (rw n at e)))
        (parts_values-InField index (commas (lower text)) found n)
]

-- A weekday range that ends in 7, Sunday, and starts on Monday or later is refused.
pub span-sunday : (start step : ℕ) → 0 < start → start < 7 → span 4 start 7 step ≡ none
unfolding span
span-sunday start step l h = ground arith
