-- ===== src/Auth/Accounts.antt =====
-- app/auth.py: passwords and usernames.
use bless_forge.Base.{
  String, ℕ, Bool, false, not, ◌&&◌, ◌||◌, Option, none, some, ltb, leb, eqb, if◌then◌else◌, ◌==◌,
  nat_eq, string_eq, Text, text_eq, codes, length, is_empty, all,
}
use bless_forge.Base.Strings.{strip, lower, is_digit}
use bless_forge.Auth.Model.{Result, ok, raise, PasswordRecord}

-- `algo` scrypt and the default parameters
abbrev pub scrypt_n : ℕ
scrypt_n = 16384

abbrev pub scrypt_r : ℕ
scrypt_r = 8

abbrev pub scrypt_p : ℕ
scrypt_p = 1

abbrev pub key_bytes : ℕ
key_bytes = 32

abbrev pub default_password : Text
default_password = codes "password"

-- `hashlib.scrypt(password, salt, n, r, p, dklen)`, which raises ValueError on parameters it
-- refuses, and `unicodedata.normalize("NFKC", ...)`.
pub record Library : Type 0 where
  pub scrypt : Text → Text → ℕ → ℕ → ℕ → ℕ → Option Text
  pub nfkc : Text → Text

-- `password_problem`
unfoldable pub password_problem : Text → Option String
password_problem password =
    if ltb (length password) 10
    then some "Use at least 10 characters."
    else if lower password == default_password
    then some "That is the default password. Pick another one."
    else if not (strip password == password)
    then some "It cannot start or end with a space."
    else none

-- `[a-z0-9._-]`
abbrev pub is_username_char : ℕ → Bool
is_username_char c =
    (leb b'a' c && leb c b'z') || is_digit c || eqb c b'.' || eqb c b'_' || eqb c b'-'

abbrev pub username_message : String
username_message = "A username is 2-32 characters, letters, digits, dot, dash or underscore."

module _ (lib : Library) where
  -- `hash_password`; the salt is drawn by `secrets.token_bytes`.
  unfoldable pub hash_password : Text → Text → Result PasswordRecord
  hash_password salt password =
      if is_empty password
      then raise "A password is required." 400
      else elim (lib.scrypt password salt scrypt_n scrypt_r scrypt_p key_bytes) [
        | none ↦ raise "scrypt" 500
        | some key ↦ ok (record {
          algo = "scrypt";
          n = scrypt_n;
          r = scrypt_r;
          p = scrypt_p;
          salt = some salt;
          hash = some key;
        })
      ]

  abbrev key_matches : Option Text → Text → Bool
  key_matches none expected = false
  key_matches (some key) expected = key == expected

  abbrev check_key : PasswordRecord → Text → Option Text → Option Text → Bool
  check_key stored password none h = false
  check_key stored password (some salt) none = false
  check_key stored password (some salt) (some expected) =
      key_matches (lib.scrypt password salt stored.n stored.r stored.p (length expected)) expected

  -- `verify_password`: false for any record that is malformed.
  unfoldable pub verify_password : Option PasswordRecord → Text → Bool
  verify_password none password = false
  verify_password (some stored) password =
      stored.algo == "scrypt" && check_key stored password stored.salt stored.hash

  -- `normalise_username`
  unfoldable pub normalise_username : Text → Result Text
  normalise_username name =
      let base = lower (strip (lib.nfkc name)) in
      if leb 2 (length base) && leb (length base) 32 && all is_username_char base
      then ok base
      else raise username_message 400
