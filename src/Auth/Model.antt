-- ===== src/Auth/Model.antt =====
-- app/db/models.py and app/auth.py: the rows of the accounts database, and an account as the rest
-- of the app sees it. Times are whole seconds since the epoch; an absent timestamp is `none`.
pub use bless_forge.Base.Results.{
  Refusal, Result, ok, err, ◌>>=◌, ◌>>◌, raise, check, check-ok, >>=-eq-ok,
}
use bless_forge.Base.{String, ℕ, Bool, List, [], Option, none, some, Text, eqb, if◌then◌else◌}

-- `hash_password`'s record. Salt and hash are bytes; `none` is a value that is missing or is not
-- hexadecimal.
pub record PasswordRecord : Type 0 where
  pub algo : String
  pub n : ℕ
  pub r : ℕ
  pub p : ℕ
  pub salt : Option Text
  pub hash : Option Text

pub record ScopeRecord : Type 0 where
  pub every : Bool  -- `all`
  pub servers : List Text
  pub racks : List Text

-- A row of `users`
pub record User : Type 0 where
  pub id : ℕ
  pub username : Text
  pub display : Text
  pub role : String
  pub password_hash : Option PasswordRecord  -- `none`: not a record at all
  pub permissions : List String
  pub denied : List String
  pub scope : ScopeRecord
  pub must_change : Bool
  pub failures : ℕ
  pub locked_until : Option ℕ
  pub last_login : Option ℕ
  pub disabled : Bool
  pub totp_secret : Option Text
  pub totp_enabled_at : Option ℕ
  pub totp_last_step : Option ℕ
  pub recovery_codes : List Text

-- What an API token allows: `via_token`
pub record TokenLimits : Type 0 where
  pub id : ℕ
  pub permissions : List String
  pub servers : List Text

-- `_as_dict(row)`, with the grants and the token that `session_user` and `token_user` add.
pub record Account : Type 0 where
  pub row : User
  pub open row use *
  pub grants : List (Text × List String)
  pub via_token : Option TokenLimits

abbrev pub as_dict : User → Account
as_dict row = record { row = row; grants = []; via_token = none }

-- `db.from_epoch` and `db.epoch(...) or 0`
abbrev pub from_epoch : ℕ → Option ℕ
from_epoch t = if eqb t 0 then none else some t

abbrev pub epoch_or_zero : Option ℕ → ℕ
epoch_or_zero none = 0
epoch_or_zero (some t) = t
