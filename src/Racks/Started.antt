-- ===== src/Racks/Started.antt =====
-- The start that a server's events leave in its record (app/fleetgroups.py: `observe`).
use mathlib.Core.Option.{some-injective}
use bless_forge.Base.{
  ℕ, ◌≡◌, refl, sym, ap, ◌∙◌, ◌⊎◌, inl, inr, Bool, true, false, not, ◌&&◌, Option, none, some, List,
  [], ◌∷◌, ◌++◌, Bool-cases, nat_eq, string_eq, Text, text_eq,
}
use bless_forge.Racks.Model.{Activity}
use bless_forge.Racks.Observe.{polled_again}
use bless_forge.Racks.Seen.{Sighting, polled, gone, follow}

-- No start in the events, of a server that was seen down or not
abbrev pub no_start : Bool → List Sighting → Bool
no_start down [] = true
no_start down (polled now name true ∷ es) = not down && no_start false es
no_start down (polled now name false ∷ es) = no_start true es
no_start down (gone ∷ es) = no_start false es

-- Two polls that follow one another, down and then up, and no start after them
pub record StartedAt (at : ℕ) (events : List Sighting) : Type 0 where
  pub front : List Sighting
  pub back : List Sighting
  pub down_at : ℕ
  pub down_name : Text
  pub up_name : Text
  pub split : events ≡ front ++ (polled down_at down_name false ∷ polled at up_name true ∷ back)
  pub last : no_start false back ≡ true

-- The record of a server that was seen down, the poll that saw it, and what it was before
abbrev pub Pending : Option Activity → List Sighting → ℕ → Type 0
Pending before es at =
    (down : Activity) × (before ≡ some down)
    × (down.running ≡ false)
    × (name : Text) × (back : List Sighting) × (es ≡ polled at name true ∷ back)
    × (no_start false back ≡ true)

abbrev pub was_down : Option Activity → Bool
was_down none = false
was_down (some rec) = not rec.running

-- The start that the record has is the one that it had, with none since
abbrev pub Kept : Option Activity → List Sighting → Option ℕ → Type 0
Kept before es at =
    (old : Activity) × (before ≡ some old)
    × (old.observed ≡ true)
    × (old.last_started ≡ at)
    × (no_start (was_down before) es ≡ true)

abbrev pub Known : Option Activity → List Sighting → Option ℕ → Type 0
Known before es last =
    Kept before es last ⊎ ((at : ℕ) × (last ≡ some at) × (Pending before es at ⊎ StartedAt at es))

one_later : (e : Sighting) {at : ℕ} {es : List Sighting} → StartedAt at es → StartedAt at (e ∷ es)
one_later e s = record {
  front = e ∷ s.front;
  back = s.back;
  down_at = s.down_at;
  down_name = s.down_name;
  up_name = s.up_name;
  split = ap (λ rest. e ∷ rest) s.split;
  last = s.last;
}

seen_down :
    (now : ℕ) (name : Text) {at : ℕ} {es : List Sighting} (before : Option Activity)
    → Pending before es at
    → StartedAt at (polled now name false ∷ es)
seen_down now name before (down, e, stopped, up, back, split, last) = record {
  front = [];
  back = back;
  down_at = now;
  down_name = name;
  up_name = up;
  split = ap (λ rest. polled now name false ∷ rest) split;
  last = last;
}

up_is_not_pending :
    (next : Activity) {at : ℕ} {es : List Sighting} {P : Type 0}
    → next.running ≡ true
    → Pending (some next) es at
    → P
up_is_not_pending next up (down, e, stopped, _, _, _, _) =
    let same = ap (λ (r : Activity). r.running) (some-injective next down e) in absurd (cc)

-- From what the rest of the events say of the record that the first leaves
onward :
    (e : Sighting) (before : Option Activity) (next : Activity) {es : List Sighting}
    {last : Option ℕ}
    → (next.observed ≡ true
        → next.last_started ≡ last
        → no_start (not next.running) es ≡ true
        → Known before (e ∷ es) last)
    → ((at : ℕ) → Pending (some next) es at → StartedAt at (e ∷ es))
    → Known (some next) es last
    → Known before (e ∷ es) last
onward e before next {es} kept pending (inl (old, same, observed, at, none_since)) =
    let same' = some-injective next old same in
    kept (ap (λ (r : Activity). r.observed) same' ∙ observed)
      (ap (λ (r : Activity). r.last_started) same' ∙ at) none_since
onward e before next kept pending (inr (at, is, inl waits)) = inr (at, is, inr (pending at waits))
onward e before next kept pending (inr (at, is, inr found)) = inr (at, is, inr (one_later e found))

polled-Known :
    (now : ℕ) (name : Text) (running : Bool) (before : Option Activity) {es : List Sighting}
    {last : Option ℕ}
    → Known (some (polled_again now name running before)) es last
    → Known before (polled now name running ∷ es) last
polled-Known now name true none known =
    onward (polled now name true) none (polled_again now name true none) (λ observed. absurd (cc))
      (λ at. up_is_not_pending _ refl) known
polled-Known now name true (some old) {es} known =
    onward (polled now name true) (some old) (polled_again now name true (some old))
      (λ observed at none_since. elim (Bool-cases old.running) [
        | inl up ↦ inl (old, refl, rw up at observed, rw up at at, rw up none_since)
        | inr down ↦
            inr (now, sym (rw down at at), inl (old, refl, down, name, es, refl, none_since))
      ])
      (λ at. up_is_not_pending _ refl) known
polled-Known now name false none known =
    onward (polled now name false) none (polled_again now name false none) (λ observed. absurd (cc))
      (λ at. seen_down now name _) known
polled-Known now name false (some old) known =
    onward (polled now name false) (some old) (polled_again now name false (some old))
      (λ observed at none_since. inl (old, refl, observed, at, none_since))
      (λ at. seen_down now name _) known

gone-Known :
    (before : Option Activity) {es : List Sighting} {last : Option ℕ}
    → Known none es last
    → Known before (gone ∷ es) last
gone-Known before (inl (_, e, _, _, _)) = absurd (cc)
gone-Known before (inr (at, is, inl (_, e, _, _, _, _, _))) = absurd (cc)
gone-Known before (inr (at, is, inr found)) = inr (at, is, inr (one_later gone found))

pub follow-Known :
    (es : List Sighting) (before : Option Activity) {rec : Activity}
    → follow es before ≡ some rec
    → rec.observed ≡ true
    → Known before es rec.last_started
follow-Known [] before {rec} h observed = inl (rec, h, observed, refl, refl)
follow-Known (gone ∷ es) before h observed = gone-Known before (follow-Known es none h observed)
follow-Known (polled now name running ∷ es) before h observed =
    polled-Known now name running before
      (follow-Known es (some (polled_again now name running before)) h observed)
