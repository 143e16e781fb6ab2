-- ===== src/Schedules/Endless.antt =====
-- About the loop of `remove` (app/schedules.py).
use mathlib.Core.Path.{subst}
use bless_forge.Base.{
  ℕ, zero, suc, ◌≡◌, refl, sym, inl, inr, true, ◌||◌, none, List, [], ◌∷◌, arith, Bool-cases, ◌==◌,
  ==_iff, nat_eq, string_eq, text_eq, ==_refl, contains, All,
}
use bless_forge.Schedules.Remove.{Row, chained, extend, drain, in_rows, unfinished, remove, Chained}

All-at : (P : ℕ → Type 0) (xs : List ℕ) (a : ℕ) → All P xs → contains xs a ≡ true → P a
All-at P (x ∷ xs) a h c = elim (Bool-cases (a == x)) [
  | inl e ↦ subst P (sym ((==_iff a x).0 e)) h.0
  | inr e ↦ All-at P xs a h.1 (rw e at c)
]
All-at P [] a h c = ground arith

contains-extend :
    (ids todo : List ℕ) (a : ℕ) → contains (extend ids todo) a ≡ (contains ids a || contains todo a)
contains-extend [] todo a = refl
contains-extend (id ∷ ids) todo a = ground (arith, contains-extend ids (id ∷ todo) a)

drain-endless :
    (rows : List Row) (loop : List ℕ)
    → Chained rows loop loop
    → (fuel : ℕ) (gone todo : List ℕ) (id : ℕ) → contains loop id ≡ true
    → contains todo id ≡ true
    → drain rows fuel gone todo ≡ none
unfolding drain
drain-endless rows loop ch fuel gone [] id l t = ground arith
drain-endless rows loop ch zero gone (top ∷ todo) id l t = refl
drain-endless rows loop ch (suc fuel) gone (top ∷ todo) id l t = elim (Bool-cases (id == top)) [
  | inl e ↦
      let (next, on, after) = All-at _ loop id ch l in
      drain-endless rows loop ch fuel _ _ next on (
        let c = contains-extend (chained rows top) todo next in
        let same = (==_iff id top).0 e in
        let a = subst (λ i. contains (chained rows i) next ≡ true) same after in ground arith)
  | inr e ↦ drain-endless rows loop ch fuel _ _ id l (
      let c = contains-extend (chained rows top) todo id in
      let rest : contains todo id ≡ true = rw e at t in ground arith)
]

-- When a task is on a cycle of parents, the removal of it never ends: no number of rounds of the
-- loop is enough.
pub remove-endless :
    (rows : List Row) (loop : List ℕ) (id : ℕ)
    → Chained rows loop loop
    → contains loop id ≡ true
    → in_rows id rows ≡ true
    → (fuel : ℕ) → remove fuel rows id ≡ unfinished
unfolding remove
remove-endless rows loop id ch l present fuel =
    rw (present, drain-endless rows loop ch fuel [] (id ∷ []) id l (ground (arith, ==_refl id)))
      refl
