-- ===== src/Schedules/Below.antt =====
-- The steps below a task, and where a chain of them ends (app/schedules.py: `remove`).
use bless_forge.Base.{
  ℕ, ◌+◌, ◌≤◌, ◌<◌, ◌≡◌, refl, ◌⊎◌, inl, inr, true, Option, none, some, List, [], ◌∷◌, arith, eqb,
  Bool-cases, or-true_cases, ◌==◌, ==_iff, nat_eq, string_eq, text_eq, contains, All,
}
use bless_forge.Schedules.Remove.{Row, is_parent, chained, in_rows}

abbrev pub IsAfter : ℕ → Option ℕ → Type 0
IsAfter id none = Unit
IsAfter id (some parent) = parent < id

-- Each chained step has a greater id than its parent.
unfoldable pub IsForward : List Row → Type 0
IsForward rows = All (λ row. IsAfter row.id row.parent) rows

-- The tasks that are chained after one, directly or not, and that one itself.
pub data Below (rows : List Row) : ℕ → ℕ → Type 0 where
  itself : {id : ℕ} → Below rows id id
  after :
      {id next a : ℕ} → contains (chained rows id) next ≡ true → Below rows next a → Below rows id a

unfoldable pub sum_ids : List Row → ℕ
sum_ids [] = 0
sum_ids (row ∷ rows) = row.id + sum_ids rows

IsAfter-is_parent :
    (id child : ℕ) (parent : Option ℕ)
    → is_parent id parent ≡ true
    → IsAfter child parent
    → id < child
IsAfter-is_parent id child none h k = cc
IsAfter-is_parent id child (some parent) h k = ground arith

pub chained-bounds :
    (rows : List Row) (id next : ℕ)
    → IsForward rows
    → contains (chained rows id) next ≡ true
    → (id < next) × (next ≤ sum_ids rows)
unfolding chained IsForward sum_ids
chained-bounds [] id next forward h = cc
chained-bounds (row ∷ rows) id next forward h = elim (Bool-cases (is_parent id row.parent)) [
  | inl e ↦ elim (or-true_cases (next == row.id) _ (rw e at h)) [
    | inl same ↦
        let first = IsAfter-is_parent id row.id row.parent e forward.0 in
        let k : next ≡ row.id = (==_iff next row.id).0 same in
        (omega (arith, first, k), omega (arith, k))
    | inr later ↦
        let ih = chained-bounds rows id next forward.1 later in (ih.0, omega (arith, ih.1))
  ]
  | inr e ↦
      let ih = chained-bounds rows id next forward.1 (rw e at h) in (ih.0, omega (arith, ih.1))
]

pub Below-cases :
    (rows : List Row) {id a : ℕ}
    → Below rows id a
    → (a ≡ id) ⊎ ((next : ℕ) × (contains (chained rows id) next ≡ true) × Below rows next a)
Below-cases rows itself = inl refl
Below-cases rows (after {next = next} h below) = inr (next, h, below)

pub in_rows-sum_ids : (rows : List Row) (id : ℕ) → in_rows id rows ≡ true → id ≤ sum_ids rows
unfolding sum_ids
in_rows-sum_ids [] id h = cc
in_rows-sum_ids (row ∷ rows) id h = elim (Bool-cases (eqb id row.id)) [
  | inl e ↦ ground arith
  | inr e ↦ let ih = in_rows-sum_ids rows id (rw e at h) in omega (arith, ih)
]
