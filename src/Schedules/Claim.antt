-- ===== src/Schedules/Claim.antt =====
-- app/schedules.py: `run_due` of several processes claims one run.
use bless_forge.Base.{
  ℕ, ◌+◌, ◌≡◌, refl, ap, ◌≢◌, inl, inr, Option, none, some, List, [], ◌∷◌, arith, eqb,
  if◌then◌else◌, eqb_iff, Bool-cases, nat_eq, string_eq, text_eq, All,
}

-- What the claim reads and writes of a row of `schedules`: `next_run`, when the row is enabled.
-- `UPDATE ... SET next_run = new WHERE id = row.id AND next_run = old`, with the row count
unfoldable pub claim : ℕ → Option ℕ → Option ℕ → ℕ × Option ℕ
claim old new none = (0, none)
claim old new (some next_run) = if eqb next_run old then (1, new) else (0, some next_run)

-- The claims of the processes, in the order the database takes them: how many had a row count of 1.
unfoldable pub runs : ℕ → List (Option ℕ) → Option ℕ → ℕ
runs old [] next_run = 0
runs old (new ∷ rest) next_run =
    (claim old new next_run).0 + runs old rest (claim old new next_run).1

runs-zero :
    (old : ℕ) (news : List (Option ℕ)) (next_run : Option ℕ)
    → next_run ≢ some old
    → All (λ n. n ≢ some old) news
    → runs old news next_run ≡ 0
unfolding runs claim
runs-zero old [] next_run ne h = refl
runs-zero old (n ∷ news) none ne h = let ih = runs-zero old news none ne h.1 in omega arith
runs-zero old (n ∷ news) (some m) ne h = elim (Bool-cases (eqb m old)) [
  | inl e ↦ absurd (ne (ap some ((eqb_iff m old).0 e)))
  | inr e ↦ let ih = runs-zero old news (some m) ne h.1 in rw e (omega arith)
]

-- However many processes claim one due time, each moving the row to a time of its own choice that
-- is not the due one, exactly one of them has the run.
pub runs-once :
    (old : ℕ) (new : Option ℕ) (rest : List (Option ℕ))
    → All (λ n. n ≢ some old) (new ∷ rest)
    → runs old (new ∷ rest) (some old) ≡ 1
unfolding runs claim
runs-once old new rest h =
    rw ((eqb_iff old old).1 refl) (rw (runs-zero old rest new h.0 h.1) (omega arith))
