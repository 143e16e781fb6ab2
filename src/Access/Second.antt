-- ===== src/Access/Second.antt =====
-- app/access.py: the second step of a sign-in, on the account's row.
use bless_forge.Base.{
  ℕ, Option, none, some, List, [], ◌∷◌, ◌++◌, if◌then◌else◌, nat_eq, string_eq, Text, text_eq, take,
}
use bless_forge.Auth.Model.{Result, ok, raise, ◌>>=◌, User, epoch_or_zero, PasswordRecord}
use bless_forge.Access.Totp.{Crypto, compare_digest, match_code, rc_hash, looks_like_recovery}

pub data How : Type 0 where
  totp recovery wrong : How

-- `for i, stored in enumerate(left): if compare_digest(stored, h): del left[i]`
unfoldable pub spend : Text → List Text → Result (Option (List Text))
spend h [] = ok none
spend h (stored ∷ left) = do
  same ← compare_digest stored h
  if same
      then ok (some left)
      else do rest ← spend h left; ok (elim rest [ none ↦ none | some kept ↦ some (stored ∷ kept) ])

abbrev pub after_spend : User → Option (List Text) → User × How
after_spend row none = (row, wrong)
after_spend row (some left) = (record row { recovery_codes = left }, recovery)

abbrev pub after_match : User → Option ℕ → User × How
after_match row none = (row, wrong)
after_match row (some step) = (record row { totp_last_step = some step }, totp)

-- `_open(row.totp_secret)`: only asked of a row whose two-factor sign-in is on.
abbrev pub secret_of : User → Text
secret_of row = elim row.totp_secret [ none ↦ [] | some blob ↦ blob ]

abbrev pub salt_of : Option PasswordRecord → Text
salt_of none = []
salt_of (some pw) = elim pw.salt [ none ↦ [] | some salt ↦ salt ]

module _ (lib : Crypto) where
  -- `_secret_bytes(_open(blob))`: the base32 text between the two is the same bytes.
  unfoldable pub open_secret : Text → Result Text
  open_secret blob = elim (lib.unseal blob) [
    | none ↦ raise "This account's two-factor secret cannot be read" 500
    | some key ↦ ok key
  ]

  -- `_check_second`
  unfoldable pub check_second : User → Text → ℕ → Result (User × How)
  check_second row code now =
      if looks_like_recovery lib code
      then (do left ← spend (rc_hash lib code) row.recovery_codes; ok (after_spend row left))
      else (do
        key ← open_secret (secret_of row)
        step ← match_code lib key code now row.totp_last_step
        ok (after_match row step))

  -- `_challenge_mac`
  unfoldable pub challenge_mac : Text → User → Text
  challenge_mac body row = take 40 (
      lib.hmac_hex "2fa-challenge" (
        body
        ++ (b'|' ∷ lib.hex (salt_of row.password_hash))
        ++ (b'|' ∷ lib.show_time (epoch_or_zero row.totp_enabled_at))))
