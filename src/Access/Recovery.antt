-- ===== src/Access/Recovery.antt =====
-- About recovery codes in `_check_second` (app/access.py).
use bless_forge.Base.{
  ℕ, ◌≡◌, refl, sym, ◌≢◌, ◌⊎◌, inl, inr, Bool, true, false, Option, none, some, List, [], ◌∷◌,
  arith, if◌then◌else◌, Bool-cases, ◌==◌, ==_iff, nat_eq, string_eq, Text, text_eq, ==_refl,
  contains,
}
use bless_forge.Auth.Model.{Result, ok, ◌>>=◌, >>=-eq-ok, User}
use bless_forge.Access.Totp.{Crypto, compare_digest, match_code, rc_hash, looks_like_recovery}
use bless_forge.Access.Second.{
  How, recovery, spend, after_spend, after_match, open_secret, secret_of, check_second,
}

-- No element twice.
abbrev pub Distinct : List Text → Type 0
Distinct [] = Unit
Distinct (x ∷ xs) = (contains xs x ≡ false) × Distinct xs

compare_digest-ok : (a b : Text) {r : Bool} → compare_digest a b ≡ ok r → (a == b) ≡ r
unfolding compare_digest
compare_digest-ok a b h = ground arith

-- A code that was found is the first in the list, or is found in the rest.
spend-cons :
    (h stored : Text) (left kept : List Text)
    → spend h (stored ∷ left) ≡ ok (some kept)
    → ((stored ≡ h) × (kept ≡ left))
      ⊎ (((stored == h) ≡ false)
          × ((rest : List Text) × (spend h left ≡ ok (some rest)) × (kept ≡ stored ∷ rest)))
unfolding spend
spend-cons h stored left kept e =
    let (same, compared, e₁) = >>=-eq-ok (compare_digest stored h) _ e in
    by_test same (compare_digest-ok stored h compared) e₁
  where
    found_rest :
        (r : Option (List Text))
        → spend h left ≡ ok r
        → ◌≡◌ {A = Result (Option (List Text))}
            (ok (elim r [ none ↦ none | some k ↦ some (stored ∷ k) ]))
            (ok (some kept))
        → (rest : List Text) × (spend h left ≡ ok (some rest)) × (kept ≡ stored ∷ rest)
    found_rest none s d = absurd (ground arith)
    found_rest (some k) s d = (k, s, ground arith)

    by_test :
        (same : Bool)
        → (stored == h) ≡ same
        → (if same
            then ok (some left)
            else (spend h left >>= λ r. ok (elim r [ none ↦ none | some k ↦ some (stored ∷ k) ])))
          ≡ ok (some kept)
        → ((stored ≡ h) × (kept ≡ left))
          ⊎ (((stored == h) ≡ false)
              × ((rest : List Text) × (spend h left ≡ ok (some rest)) × (kept ≡ stored ∷ rest)))
    by_test true c d = inl ((==_iff stored h).0 c, ground arith)
    by_test false c d = let (r, s, k) = >>=-eq-ok (spend h left) _ d in inr (c, found_rest r s k)

spend-contains :
    (h : Text) (left kept : List Text) → spend h left ≡ ok (some kept) → contains left h ≡ true
spend-contains h [] kept e = unfold spend in cc
spend-contains h (stored ∷ left) kept e = elim (spend-cons h stored left kept e) [
  | inl (same, _) ↦ let k : (h == h) ≡ true = ==_refl h in rw same (rw k refl)
  | inr (_, (rest, found, _)) ↦ let ih = spend-contains h left rest found in ground arith
]

eq_false_symm : (a b : Text) → (a == b) ≡ false → (b == a) ≡ false
eq_false_symm a b h = elim (Bool-cases (b == a)) [
  | inl e ↦ let p = (==_iff b a).0 e in let q : (a == b) ≡ true = (==_iff a b).1 (sym p) in cc
  | inr e ↦ e
]

spend-removes :
    (h : Text) (left kept : List Text)
    → Distinct left
    → spend h left ≡ ok (some kept)
    → contains kept h ≡ false
spend-removes h [] kept d e = unfold spend in cc
spend-removes h (stored ∷ left) kept d e = elim (spend-cons h stored left kept e) [
  | inl (same, rest) ↦ rw rest (rw (← same) d.0)
  | inr (differs, (rest, found, k)) ↦
      rw k (rw (eq_false_symm stored h differs) (spend-removes h left rest d.1 found))
]

module _ (lib : Crypto) where
  -- A recovery code that is accepted is one of the row's, and is taken off it.
  check_second-recovery :
      (row row' : User) (code : Text) (now : ℕ)
      → check_second lib row code now ≡ ok (row', recovery)
      → (spend (rc_hash lib code) row.recovery_codes ≡ ok (some row'.recovery_codes))
  unfolding check_second
  check_second-recovery row row' code now h = elim (Bool-cases (looks_like_recovery lib code)) [
    | inl e ↦
        let (left, spent, done) =
          >>=-eq-ok (spend (rc_hash lib code) row.recovery_codes) _ (rw e at h) in
        taken left spent done
    | inr e ↦
        let (key, opened, rest) = >>=-eq-ok (open_secret lib (secret_of row)) _ (rw e at h) in
        let (step, matched, done) =
          >>=-eq-ok (match_code lib key code now row.totp_last_step) _ rest in
        absurd (not_totp step done)
  ]
    where
      taken :
          (left : Option (List Text))
          → spend (rc_hash lib code) row.recovery_codes ≡ ok left
          → ◌≡◌ {A = Result (User × How)} (ok (after_spend row left)) (ok (row', recovery))
          → spend (rc_hash lib code) row.recovery_codes ≡ ok (some row'.recovery_codes)
      taken none s e = absurd (ground arith)
      taken (some left) s e = let k : left ≡ row'.recovery_codes = ground arith in rw (← k) s

      not_totp :
          (step : Option ℕ)
          → ◌≡◌ {A = Result (User × How)} (ok (after_match row step)) (ok (row', recovery))
          → ⊥
      not_totp none e = ground arith
      not_totp (some s) e = ground arith

-- A recovery code works once: when the account's codes are all different, a code that was accepted
-- as a recovery code is not accepted as one again.
pub recovery_once :
    (lib : Crypto) (row row₁ row₂ : User) (code : Text) (now₁ now₂ : ℕ)
    → Distinct row.recovery_codes
    → check_second lib row code now₁ ≡ ok (row₁, recovery)
    → (contains row.recovery_codes (rc_hash lib code) ≡ true)
      × (check_second lib row₁ code now₂ ≢ ok (row₂, recovery))
recovery_once lib row row₁ row₂ code now₁ now₂ d h =
    let s = check_second-recovery lib row row₁ code now₁ h in
    (
      spend-contains (rc_hash lib code) row.recovery_codes row₁.recovery_codes s,
      λ again.
          let gone = spend-removes (rc_hash lib code) row.recovery_codes row₁.recovery_codes d s in
          let there =
            spend-contains (rc_hash lib code) row₁.recovery_codes row₂.recovery_codes
              (check_second-recovery lib row₁ row₂ code now₂ again) in
          cc,
    )
