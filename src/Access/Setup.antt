-- ===== src/Access/Setup.antt =====
-- app/access.py: an account's own two-factor settings.
use bless_forge.Base.{
  ℕ, Bool, not, Option, none, some, List, [], if◌then◌else◌, is_some, nat_eq, string_eq, Text,
  text_eq,
}
use bless_forge.Auth.Model.{Result, ok, raise, check, ◌>>=◌, ◌>>◌, User, from_epoch}
use bless_forge.Auth.Accounts.{Library, verify_password}
use bless_forge.Auth.Store.{Db, put_row, require_row}
use bless_forge.Auth.Login.{two_factor_on}
use bless_forge.Access.Totp.{Crypto, match_code}
use bless_forge.Access.Second.{How, totp, recovery, wrong, check_second, open_secret, secret_of}

-- `_clear`
unfoldable pub clear : User → User
clear row = record row {
  totp_secret = none;
  totp_enabled_at = none;
  totp_last_step = none;
  recovery_codes = [];
}

unfoldable pub accepted : User × How → Result User
accepted (row, wrong) = raise "That code does not match." 400
accepted (row, totp) = ok row
accepted (row, recovery) = ok row

unfoldable pub matched : Option ℕ → Result ℕ
matched none = raise "That code does not match." 400
matched (some step) = ok step

module _ (lib : Library) (crypto : Crypto) where
  abbrev stored : Db → User → Db
  stored db row = record db { users = put_row row db.users }

  unfoldable pub require_owner : Db → Text → Text → Result User
  require_owner db username password = do
    row ← require_row lib db username
    check (verify_password lib row.password_hash password) "That is not your current password." 403
    ok row

  -- `begin_setup`, with the new secret's bytes
  unfoldable pub begin_setup : Db → Text → Text → Text → Result Db
  begin_setup db username password secret = do
    row ← require_owner db username password
    check (not (two_factor_on row)) "Two-factor sign-in is already on." 409
    ok (
        stored db (record row {
          totp_secret = some (crypto.seal secret);
          totp_enabled_at = none;
          totp_last_step = none;
        }))

  -- `enable`, with the hashes of the new recovery codes
  unfoldable pub enable : Db → Text → Text → ℕ → List Text → Result Db
  enable db username code now hashes = do
    row ← require_row lib db username
    check (not (two_factor_on row)) "Two-factor sign-in is already on." 409
    check (is_some row.totp_secret) "Start the setup first." 409
    key ← open_secret crypto (secret_of row)
    found ← match_code crypto key code now none
    step ← matched found
    ok (
        stored db (record row {
          totp_enabled_at = from_epoch now;
          totp_last_step = some step;
          recovery_codes = hashes;
        }))

  unfoldable pub disable : Db → Text → Text → Text → ℕ → Result Db
  disable db username password code now = do
    row ← require_owner db username password
    if not (two_factor_on row) then ok (stored db (record row { totp_secret = none })) else do
      checked ← check_second crypto row code now
      row' ← accepted checked
      ok (stored db (clear row'))

  unfoldable pub regenerate_recovery : Db → Text → Text → Text → ℕ → List Text → Result Db
  regenerate_recovery db username password code now hashes = do
    row ← require_owner db username password
    check (two_factor_on row) "Two-factor sign-in is not on." 409
    checked ← check_second crypto row code now
    row' ← accepted checked
    ok (stored db (record row' { recovery_codes = hashes }))

  -- `admin_reset`, with whether it was on
  unfoldable pub admin_reset : Db → Text → Result (Db × Bool)
  admin_reset db username = do
    row ← require_row lib db username
    ok (stored db (clear row), two_factor_on row)
