-- ===== src/Access/Spent.antt =====
-- About one-time codes in `match_code` and `_check_second` (app/access.py).
use mathlib.Core.Path.{subst}
use bless_forge.Base.{
  ℕ, zero, suc, ◌+◌, ◌-◌, ◌/◌, ◌≤◌, ◌<◌, ◌≡◌, ap, inl, inr, Bool, true, false, ◌&&◌, Option, none,
  some, List, [], ◌∷◌, arith, ltb, if◌then◌else◌, ltb→lt, Bool-cases, nat_eq, string_eq, Text,
  text_eq,
}
use bless_forge.Auth.Model.{Result, ok, >>=-eq-ok, User}
use bless_forge.Access.Totp.{
  Crypto, compare_digest, later, search_steps, search_around, match_code, totp_step, hotp, rc_hash,
  looks_like_recovery, strip_spaces,
}
use bless_forge.Access.Second.{
  How, totp, spend, after_spend, after_match, open_secret, secret_of, check_second,
}

-- The step lies behind the last one that was spent.
abbrev pub Unspent : Option ℕ → ℕ → Type 0
Unspent none s = Unit
Unspent (some last) s = last < s

-- A step that was found is one of `lo .. hi`, and not spent.
abbrev Found : ℕ → ℕ → Option ℕ → Option ℕ → Type 0
Found lo hi last none = Unit
Found lo hi last (some s) = (lo ≤ s) × (s ≤ hi) × Unspent last s

abbrev Within : ℕ → ℕ → List ℕ → Type 0
Within lo hi [] = Unit
Within lo hi (s ∷ steps) = (lo ≤ s) × (s ≤ hi) × Within lo hi steps

choose-Found :
    (lo hi s : ℕ) (last found : Option ℕ) (same : Bool)
    → lo ≤ s
    → s ≤ hi
    → Found lo hi last found
    → Found lo hi last (if same && later s last then some s else found)
choose-Found lo hi s last found false a b f = f
choose-Found lo hi s none found true a b f = (a, b, tt)
choose-Found lo hi s (some l) found true a b f = elim (Bool-cases (ltb l s)) [
  | inl e ↦ rw e (a, b, ltb→lt l s e)
  | inr e ↦ rw e f
]

module _ (lib : Crypto) (key code : Text) where
  search_steps-Found :
      (lo hi : ℕ) (last : Option ℕ) (steps : List ℕ) (found r : Option ℕ)
      → Within lo hi steps
      → Found lo hi last found
      → search_steps lib key code last steps found ≡ ok r
      → Found lo hi last r
  unfolding search_steps
  search_steps-Found lo hi last [] found r w f h =
      let same : found ≡ r = ground arith in subst (Found lo hi last) same f
  search_steps-Found lo hi last (s ∷ steps) found r (a, b, w) f h =
      let (same, compared, rest) = >>=-eq-ok (compare_digest (hotp lib key s) code) _ h in
      search_steps-Found lo hi last steps _ r w (choose-Found lo hi s last found same a b f) rest

  search_around-Found :
      (step : ℕ) (last r : Option ℕ)
      → search_around lib key code last step ≡ ok r
      → Found (step - 1) (step + 1) last r
  unfolding search_around
  search_around-Found zero last r h = cc
  search_around-Found (suc s) last r h =
      search_steps-Found (suc s - 1) (suc s + 1) last (s ∷ suc s ∷ suc (suc s) ∷ []) none r
        (omega arith) tt h

-- A code is accepted only for the current half minute or one beside it, and never for a step that
-- is not behind the last one spent.
pub match_code-window :
    (lib : Crypto) (key code : Text) (now : ℕ) (last : Option ℕ) {s : ℕ}
    → match_code lib key code now last ≡ ok (some s)
    → (now / totp_step - 1 ≤ s) × (s ≤ now / totp_step + 1) × Unspent last s
unfolding match_code
match_code-window lib key code now last {s} h =
    search_around-Found lib key (strip_spaces code) (now / totp_step) last (some s) (ground arith)

module _ (lib : Crypto) where
  -- A one-time code that is accepted is spent: the row records its step, and changes in no other
  -- field.
  check_second-totp :
      (row row' : User) (code : Text) (now : ℕ)
      → check_second lib row code now ≡ ok (row', totp)
      → (s : ℕ) × (row' ≡ record row { totp_last_step = some s }) × Unspent row.totp_last_step s
  unfolding check_second
  check_second-totp row row' code now h = elim (Bool-cases (looks_like_recovery lib code)) [
    | inl e ↦
        let (left, spent, done) =
          >>=-eq-ok (spend (rc_hash lib code) row.recovery_codes) _ (rw e at h) in
        not_recovery left done
    | inr e ↦
        let (key, opened, rest) = >>=-eq-ok (open_secret lib (secret_of row)) _ (rw e at h) in
        let (step, matched, done) =
          >>=-eq-ok (match_code lib key code now row.totp_last_step) _ rest in
        accepted key step matched done
  ]
    where
      not_recovery :
          (left : Option (List Text))
          → ◌≡◌ {A = Result (User × How)} (ok (after_spend row left)) (ok (row', totp))
          → (s : ℕ) × (row' ≡ record row { totp_last_step = some s }) × Unspent row.totp_last_step s
      not_recovery none e = absurd (ground arith)
      not_recovery (some left) e = absurd (ground arith)

      accepted :
          (key : Text) (step : Option ℕ)
          → match_code lib key code now row.totp_last_step ≡ ok step
          → ◌≡◌ {A = Result (User × How)} (ok (after_match row step)) (ok (row', totp))
          → (s : ℕ) × (row' ≡ record row { totp_last_step = some s }) × Unspent row.totp_last_step s
      accepted key none m e = absurd (ground arith)
      accepted key (some s) m e =
          (s, ground arith, (match_code-window lib key code now row.totp_last_step m).2)

-- Of two one-time codes that one account accepts, one after the other, the second is for a later
-- half minute than the first: the same code is not accepted twice for its half minute.
pub codes_advance :
    (lib : Crypto) (row row₁ row₂ : User) (code₁ code₂ : Text) (now₁ now₂ : ℕ)
    → check_second lib row code₁ now₁ ≡ ok (row₁, totp)
    → check_second lib row₁ code₂ now₂ ≡ ok (row₂, totp)
    → (s₁ : ℕ) × (s₂ : ℕ) × (row₁.totp_last_step ≡ some s₁)
      × (row₂.totp_last_step ≡ some s₂)
      × (s₁ < s₂)
codes_advance lib row row₁ row₂ code₁ code₂ now₁ now₂ h₁ h₂ =
    let (s₁, e₁, u₁) = check_second-totp lib row row₁ code₁ now₁ h₁ in
    let (s₂, e₂, u₂) = check_second-totp lib row₁ row₂ code₂ now₂ h₂ in
    let k₁ : row₁.totp_last_step ≡ some s₁ = ap (λ (r : User). r.totp_last_step) e₁ in
    (
      s₁,
      s₂,
      k₁,
      ap (λ (r : User). r.totp_last_step) e₂,
      subst (λ (l : Option ℕ). Unspent l s₂) k₁ u₂,
    )
