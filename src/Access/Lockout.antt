-- ===== src/Access/Lockout.antt =====
-- About the failures that `authenticate` and `finish_login` count (app/auth.py, app/access.py).
use bless_forge.Base.{
  ℕ, ◌+◌, ◌≤◌, ◌<◌, ◌≡◌, refl, ◌⊎◌, inl, inr, Bool, true, false, not, ◌&&◌, List, [], ◌∷◌, arith,
  leb, if◌then◌else◌, Bool-cases, nat_eq, string_eq, text_eq, All,
}
use bless_forge.Auth.Model.{Result, ok, err, User, epoch_or_zero}
use bless_forge.Auth.Login.{
  max_failures, lockout_seconds, count_failure, is_locked, two_factor_on, try_password,
}
use bless_forge.Access.Second.{How, wrong}
use bless_forge.Access.Login.{settle, try_code}

-- Somebody without the second factor tries: a password, right or wrong, or a wrong code.
pub data Attempt : Type 0 where
  password : Bool → Attempt
  code : Attempt

-- The row after an attempt at a time, and whether a guess was looked at and was wrong. A code step
-- that fails rolls back, so it leaves the row.
abbrev row_after_code : User → Result (User × How) → User
row_after_code row (ok done) = done.0
row_after_code row (err e) = row

unfoldable pub attempt : Attempt → ℕ → User → User
attempt (password right) now row = (try_password now right row).0
attempt code now row = row_after_code row (try_code now row (ok (row, wrong)))

-- A wrong guess that was looked at: the row was not locked.
unfoldable pub is_guess : Attempt → ℕ → User → Bool
is_guess (password right) now row = not (is_locked now row) && not right
is_guess code now row = not (is_locked now row)

-- The wrong guesses that are looked at in a run of attempts with their times.
unfoldable pub guesses : List (Attempt × ℕ) → User → ℕ
guesses [] row = 0
guesses ((a, now) ∷ rest) row =
    (if is_guess a now row then 1 else 0) + guesses rest (attempt a now row)

-- The times of a run lie in the lockout's length from `start`.
abbrev pub InPeriod : ℕ → List (Attempt × ℕ) → Type 0
InPeriod start = All (λ (a, now). (start ≤ now) × (now < start + lockout_seconds))

-- An account that the attempts are made on: two-factor sign-in is on.
pub record Guarded (row : User) : Type 0 where
  pub factor : two_factor_on row ≡ true
  pub enabled : row.disabled ≡ false
  pub below : row.failures < max_failures

-- A failure that is counted leaves the account guarded, and one nearer to the lock, or locks it.
count_failure-Guarded :
    (start now : ℕ) (row : User)
    → start ≤ now
    → Guarded row
    → Guarded (count_failure now row)
      × (((count_failure now row).failures ≡ row.failures + 1)
          ⊎ (start + lockout_seconds ≤ epoch_or_zero (count_failure now row).locked_until))
unfolding count_failure two_factor_on
count_failure-Guarded start now row t g = elim (Bool-cases (leb max_failures (row.failures + 1))) [
  | inl e ↦
      rw e
        (record { factor = g.factor; enabled = g.enabled; below = omega arith }, inr (ground arith))
  | inr e ↦ rw e (record { factor = g.factor; enabled = g.enabled; below = ground arith }, inl refl)
]

-- A guess that is looked at is a counted failure; any other attempt changes nothing.
attempt-guess :
    (a : Attempt) (now : ℕ) (row : User)
    → is_guess a now row ≡ true
    → attempt a now row ≡ count_failure now row
unfolding attempt is_guess try_password try_code settle
attempt-guess (password true) now row h = ground arith
attempt-guess (password false) now row h = ground arith
attempt-guess code now row h = ground arith

attempt-other :
    (a : Attempt) (now : ℕ) (row : User)
    → Guarded row
    → is_guess a now row ≡ false
    → attempt a now row ≡ row
unfolding attempt is_guess try_password try_code settle
attempt-other (password true) now row g h = ground (arith, g.factor, g.enabled)
attempt-other (password false) now row g h = ground (arith, g.factor, g.enabled)
attempt-other code now row g h = ground arith

-- While the lock lasts, nothing is looked at.
locked-guesses :
    (start : ℕ) (run : List (Attempt × ℕ)) (row : User)
    → InPeriod start run
    → Guarded row
    → start + lockout_seconds ≤ epoch_or_zero row.locked_until
    → guesses run row ≡ 0
unfolding guesses
locked-guesses start [] row p g l = refl
locked-guesses start ((a, now) ∷ run) row (t, p) g l =
    let e : is_guess a now row ≡ false = not_guess a in
    rw e (rw (attempt-other a now row g e) (omega (arith, locked-guesses start run row p g l)))
  where
    not_guess : (b : Attempt) → is_guess b now row ≡ false
    not_guess (password right) = unfold is_guess is_locked in ground arith
    not_guess code = unfold is_guess is_locked in ground arith

-- On an account that is not disabled, has two-factor sign-in on and has fewer than eight failures: in
-- any run of attempts, in any order, that falls within one lockout's length, at most eight wrong
-- passwords and codes together are looked at, less those that had failed before. A right password
-- between them gives no new guesses.
pub guesses-le :
    (start : ℕ) (run : List (Attempt × ℕ)) (row : User)
    → InPeriod start run
    → Guarded row
    → guesses run row + row.failures ≤ max_failures
unfolding guesses
guesses-le start [] row p g = omega (arith, g.below)
guesses-le start ((a, now) ∷ run) row (t, p) g = elim (Bool-cases (is_guess a now row)) [
  | inl e ↦
      let (g', counted) = count_failure-Guarded start now row t.0 g in
      rw e (
        rw (attempt-guess a now row e) (elim counted [
          | inl more ↦ omega (arith, guesses-le start run (count_failure now row) p g')
          | inr lock ↦
              omega (arith, locked-guesses start run (count_failure now row) p g' lock, g.below)
        ]))
  | inr e ↦ rw e (rw (attempt-other a now row g e) (omega (arith, guesses-le start run row p g)))
]
