-- ===== src/Schedules/Remove.antt =====
-- app/schedules.py: `remove` deletes a task and the steps that are chained after it.
use bless_forge.Base.{
  ℕ, zero, suc, ◌≡◌, Bool, true, false, ◌||◌, Option, none, some, List, [], ◌∷◌, ◌++◌, eqb,
  if◌then◌else◌, nat_eq, string_eq, text_eq, contains, All,
}

-- What `remove` reads of a row: its id, and its parent's when it is a chained step.
pub record Row : Type 0 where
  pub id : ℕ
  pub parent : Option ℕ

abbrev pub is_parent : ℕ → Option ℕ → Bool
is_parent id none = false
is_parent id (some parent) = eqb id parent

-- `by_parent.get(id, [])`
unfoldable pub chained : List Row → ℕ → List ℕ
chained [] id = []
chained (row ∷ rows) id =
    let rest = chained rows id in if is_parent id row.parent then row.id ∷ rest else rest

-- `todo.extend(ids)`; the end of `todo`, which `pop` takes from, is the head here
abbrev pub extend : List ℕ → List ℕ → List ℕ
extend [] todo = todo
extend (id ∷ ids) todo = extend ids (id ∷ todo)

-- The loop; `none` when `fuel` rounds were not enough.
unfoldable pub drain : List Row → ℕ → List ℕ → List ℕ → Option (List ℕ)
drain rows fuel gone [] = some gone
drain rows zero gone (id ∷ todo) = none
drain rows (suc fuel) gone (id ∷ todo) =
    drain rows fuel (gone ++ (id ∷ [])) (extend (chained rows id) todo)

abbrev pub in_rows : ℕ → List Row → Bool
in_rows id [] = false
in_rows id (row ∷ rows) = eqb id row.id || in_rows id rows

-- How `remove` ends: the ids that it deleted, a `LookupError`, or not within the fuel.
pub data Removal : Type 0 where
  deleted : List ℕ → Removal
  missing : Removal
  unfinished : Removal

abbrev pub outcome : Option (List ℕ) → Removal
outcome none = unfinished
outcome (some gone) = deleted gone

unfoldable pub remove : ℕ → List Row → ℕ → Removal
remove fuel rows id =
    let found = drain rows fuel [] (id ∷ []) in if in_rows id rows then outcome found else missing

-- The ids of `loop` follow each other: each has a step chained after it that is one of them.
abbrev pub Chained : List Row → List ℕ → List ℕ → Type 0
Chained rows loop =
    All (λ id. (next : ℕ) × (contains loop next ≡ true) × (contains (chained rows id) next ≡ true))
