-- ===== src/Schedules/Ends.antt =====
-- The loop of `remove` where each step was created after its parent (app/schedules.py).
use bless_forge.Base.{
  ℕ, zero, suc, ◌+◌, ◌≤◌, ◌<◌, ◌≡◌, refl, sym, ap, ◌∙◌, ◌↔◌, inl, inr, true, List, [], ◌∷◌, ◌++◌,
  arith, or-true_cases, ◌==◌, ==_iff, nat_eq, string_eq, text_eq, ==_refl, contains,
  contains-append,
}
use mathlib.Core.Path.{subst}
use mathlib.Core.List.{append-nil, append_assoc}
use bless_forge.Schedules.Remove.{Row, chained, extend, drain, in_rows, deleted, remove}
use bless_forge.Schedules.Below.{
  IsForward, Below, itself, after, sum_ids, chained-bounds, Below-cases, in_rows-sum_ids,
}

-- Whether a run of the loop takes the ids off the end of `todo` and deletes all that is below them.
record Drained (rows : List Row) (ids : List ℕ) : Type 0 where
  rounds : ℕ
  taken : List ℕ
  runs :
      (fuel : ℕ) (gone todo : List ℕ)
      → drain rows (rounds + fuel) gone (extend ids todo) ≡ drain rows fuel (gone ++ taken) todo
  sound : (a : ℕ) → contains taken a ≡ true → (id : ℕ) × (contains ids id ≡ true) × Below rows id a
  complete : (id a : ℕ) → contains ids id ≡ true → Below rows id a → contains taken a ≡ true

Drained-nil : (rows : List Row) → Drained rows []
Drained-nil rows = record {
  rounds = 0;
  taken = [];
  runs = λ fuel gone todo.
      ap (λ n. drain rows n gone todo) (omega arith)
      ∙ ap (λ g. drain rows fuel g todo) (sym (append-nil gone));
  sound = λ a h. cc;
  complete = λ id a h below. cc;
}

taken_sound :
    (rows : List Row) (id : ℕ) (ids : List ℕ) (children : Drained rows (chained rows id))
    (others : Drained rows ids) (a : ℕ)
    → contains (others.taken ++ (id ∷ children.taken)) a ≡ true
    → (top : ℕ) × (contains (id ∷ ids) top ≡ true) × Below rows top a
taken_sound rows id ids children others a h =
    elim (or-true_cases (contains others.taken a) _ (sym (contains-append others.taken _ a) ∙ h)) [
      | inl early ↦ let (top, m, below) = others.sound a early in (top, ground arith, below)
      | inr late ↦ elim (or-true_cases (a == id) _ late) [
        | inl same ↦
            let e : a ≡ id = (==_iff a id).0 same in (id, ground (arith, ==_refl id), rw e itself)
        | inr under ↦
            let (next, m, below) = children.sound a under in
            (id, ground (arith, ==_refl id), after m below)
      ]
    ]

taken_complete :
    (rows : List Row) (id : ℕ) (ids : List ℕ) (children : Drained rows (chained rows id))
    (others : Drained rows ids) (top a : ℕ)
    → contains (id ∷ ids) top ≡ true
    → Below rows top a
    → contains (others.taken ++ (id ∷ children.taken)) a ≡ true
taken_complete rows id ids children others top a h below =
    let both = contains-append others.taken (id ∷ children.taken) a in
    elim (or-true_cases (top == id) _ h) [
      | inr later ↦ let there = others.complete top a later below in ground arith
      | inl first ↦
          let e : top ≡ id = (==_iff top id).0 first in
          elim (Below-cases rows (subst (λ i. Below rows i a) e below)) [
            | inl same ↦ ground (arith, ==_iff a id)
            | inr (next, m, under) ↦ let there = children.complete next a m under in ground arith
          ]
    ]

Drained-cons :
    (rows : List Row) (id : ℕ) (ids : List ℕ)
    → Drained rows (chained rows id)
    → Drained rows ids
    → Drained rows (id ∷ ids)
unfolding drain
Drained-cons rows id ids children others = record {
  rounds = others.rounds + suc children.rounds;
  taken = others.taken ++ (id ∷ children.taken);
  runs = λ fuel gone todo.
      ap (λ n. drain rows n gone (extend ids (id ∷ todo))) (omega arith)
      ∙ others.runs (suc (children.rounds + fuel)) gone (id ∷ todo)
      ∙ children.runs fuel ((gone ++ others.taken) ++ (id ∷ [])) todo
      ∙ ap (λ g. drain rows fuel g todo)
          (append_assoc (gone ++ others.taken) (id ∷ []) children.taken
            ∙ append_assoc gone others.taken (id ∷ children.taken));
  sound = λ a h. taken_sound rows id ids children others a h;
  complete = λ top a h below. taken_complete rows id ids children others top a h below;
}

Drained-all :
    (rows : List Row) (ids : List ℕ)
    → ((id : ℕ) → contains ids id ≡ true → Drained rows (chained rows id))
    → Drained rows ids
Drained-all rows [] below = Drained-nil rows
Drained-all rows (id ∷ ids) below =
    Drained-cons rows id ids (below id (ground (arith, ==_refl id)))
      (Drained-all rows ids (λ i m. below i (ground (arith, m))))

-- `k` more than the distance of the ids to the sum of all is enough to go down from them.
drained :
    (rows : List Row)
    → IsForward rows
    → (k : ℕ) (ids : List ℕ)
    → ((id : ℕ) → contains ids id ≡ true → (id ≤ sum_ids rows) × (sum_ids rows < id + k))
    → Drained rows ids
drained rows forward zero ids bounds =
    Drained-all rows ids (λ id m. let b = bounds id m in absurd (omega (arith, b.0, b.1)))
drained rows forward (suc k) ids bounds = Drained-all rows ids (λ id m.
    drained rows forward k (chained rows id) (λ next n.
      let b = bounds id m in
      let c = chained-bounds rows id next forward n in (c.1, omega (arith, b.1, c.0))))

-- Where each step was created after its parent, so that it has the greater id, the removal of a task
-- ends, and it deletes exactly that task and the steps that are chained after it, directly or over
-- other steps.
pub remove-ends :
    (rows : List Row) (id : ℕ)
    → IsForward rows
    → in_rows id rows ≡ true
    → (fuel : ℕ) × (gone : List ℕ) × (remove fuel rows id ≡ deleted gone)
      × ((a : ℕ) → (contains gone a ≡ true) ↔ Below rows id a)
unfolding remove drain
remove-ends rows id forward present =
    let le = in_rows-sum_ids rows id present in
    let run = drained rows forward (suc (sum_ids rows)) (id ∷ []) (λ i m.
      let e : i ≡ id = (==_iff i id).0 (ground (arith, m)) in
      (omega (arith, e, le), omega arith)) in
    (
      run.rounds + 0,
      run.taken,
      rw (present, run.runs 0 [] []) refl,
      λ a. (
        λ h.
            let (top, m, below) = run.sound a h in
            subst (λ i. Below rows i a) ((==_iff top id).0 (ground (arith, m))) below,
        λ below. run.complete id a (ground (arith, ==_refl id)) below,
      ),
    )
