-- ===== src/Auth/Login.antt =====
-- app/auth.py: new accounts, passwords and signing in. `authenticate` raises after its commit, so
-- it returns the new database beside the result.
use bless_forge.Base.{
  String, ℕ, ◌+◌, ◌*◌, Bool, false, not, ◌&&◌, Option, none, some, List, [], ◌∷◌, ◌++◌, ltb, leb,
  if◌then◌else◌, is_some, nat_eq, string_eq, Text, text_eq, contains, keep_in, is_empty,
}
use bless_forge.Auth.Permissions.{permissions, default_permissions, roles}
use bless_forge.Auth.Model.{
  Refusal, Result, ok, err, raise, ◌>>=◌, ◌>>◌, ScopeRecord, User, Account, as_dict, from_epoch,
  epoch_or_zero,
}
use bless_forge.Auth.Rights.{clean_scope}
use bless_forge.Auth.Accounts.{
  Library, password_problem, hash_password, verify_password, normalise_username,
}
use bless_forge.Auth.Store.{Db, put_row, row_of, require_row, display_name}

abbrev pub session_ttl : ℕ
session_ttl = 30 * 24 * 3600

abbrev pub max_failures : ℕ
max_failures = 8

abbrev pub lockout_seconds : ℕ
lockout_seconds = 15 * 60

abbrev pub last_seen_every : ℕ
last_seen_every = 300

-- `problem = password_problem(password); if problem: raise`
unfoldable pub accept_password : Text → Result (Unit {0})
accept_password password = elim (password_problem password) [
  | none ↦ ok tt
  | some problem ↦ raise problem 400
]

-- The arguments of `create_user`
pub record NewUser : Type 0 where
  pub username : Text
  pub password : Text
  pub role : String
  pub display : Text
  pub permissions : List String  -- `[]` when none are given
  pub scope : Option ScopeRecord
  pub must_change : Bool
  pub enforce_policy : Bool

module _ (lib : Library) where
  unfoldable pub create_user : Db → Text → NewUser → Result (Db × Account)
  create_user db salt new = do
    name ← normalise_username lib new.username
    (if contains roles new.role then ok tt else raise "Unknown role" 400)
    (if new.enforce_policy then accept_password new.password else ok tt)
    (if is_some (row_of lib db name) then raise "There is already a user called" 409 else ok tt)
    hash ← hash_password lib salt new.password
    let row : User = record {
      id = db.next_id;
      username = name;
      display = display_name new.display name;
      role = new.role;
      password_hash = some hash;
      permissions =
          keep_in permissions
            (if is_empty new.permissions then default_permissions else new.permissions);
      denied = [];
      scope = clean_scope new.scope;
      must_change = new.must_change;
      failures = 0;
      locked_until = none;
      last_login = none;
      disabled = false;
      totp_secret = none;
      totp_enabled_at = none;
      totp_last_step = none;
      recovery_codes = [];
    }
    ok (record db { users = db.users ++ (row ∷ []); next_id = db.next_id + 1 }, as_dict row)

  unfoldable pub set_password : Db → Text → Text → Text → Bool → Result (Db × Account)
  set_password db salt username password must_change = do
    accept_password password
    row ← require_row lib db username
    hash ← hash_password lib salt password
    let row' : User = record row {
      password_hash = some hash;
      must_change = must_change;
      failures = 0;
      locked_until = none;
    }
    ok (record db { users = put_row row' db.users }, as_dict row')

-- One more failure; the last that is allowed locks the account and starts the count again.
unfoldable pub count_failure : ℕ → User → User
count_failure now row =
    if leb max_failures (row.failures + 1)
    then record row { failures = 0; locked_until = from_epoch (now + lockout_seconds) }
    else record row { failures = row.failures + 1 }

unfoldable pub is_locked : ℕ → User → Bool
is_locked now row = ltb now (epoch_or_zero row.locked_until)

-- `row.totp_secret and row.totp_enabled_at`
unfoldable pub two_factor_on : User → Bool
two_factor_on row = is_some row.totp_secret && is_some row.totp_enabled_at

unfoldable pub signed_in : ℕ → User → User
signed_in now row = record row { failures = 0; locked_until = none; last_login = from_epoch now }

abbrev mismatch : Refusal
mismatch = record { message = "That username and password do not match."; status = 401 }

-- What a password does to the row that it was typed for, and whether it was right.
unfoldable pub try_password : ℕ → Bool → User → User × Result Account
try_password now right row =
    if is_locked now row
    then (row, raise "Too many failed attempts." 429)
    else if not (not row.disabled && right)
    then (count_failure now row, err mismatch)
    else if two_factor_on row
    then (row, ok (as_dict row))
    else (let row' = signed_in now row in (row', ok (as_dict row')))

module _ (lib : Library) where
  unfoldable pub authenticate : Db → ℕ → Text → Text → Db × Result Account
  authenticate db now username password = elim (row_of lib db username) [
    | none ↦ (db, err mismatch)
    | some row ↦
        let tried = try_password now (verify_password lib row.password_hash password) row in
        (record db { users = put_row tried.0 db.users }, tried.1)
  ]
