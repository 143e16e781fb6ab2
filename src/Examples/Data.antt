-- ===== src/Examples/Data.antt =====
-- The accounts and the library calls that the runs use.
use bless_forge.Base.{
  keep_out, String, ℕ, ◌+◌, ◌-◌, ◌*◌, false, not, ◌&&◌, ◌||◌, Option, none, some, [], ◌∷◌, ◌++◌,
  leb, nat_eq, string_eq, Text, text_eq, codes, drop, is_empty, all,
}
use bless_forge.Base.Strings.{is_digit, lower}
use bless_forge.Auth.Model.{User, Account, as_dict, ScopeRecord, TokenLimits}
use bless_forge.Auth.Accounts.{Library}
use bless_forge.Auth.Store.{Db}
use bless_forge.Access.Totp.{Crypto, zero_filled}

-- A key derivation that keeps its input, and texts that are normal already.
abbrev pub plain_library : Library
plain_library = record {
  scrypt = λ password salt n r p size. some (salt ++ password);
  nfkc = λ t. t;
}

abbrev decimal : ℕ → Text → ℕ
decimal n [] = n
decimal n (c ∷ s) = decimal (10 * n + (c - b'0')) s

-- A digest whose first four bytes are the low bytes of the message, so that the code of a step is
-- its number; the Arabic-Indic digits are decimal too.
abbrev pub plain_crypto : Crypto
plain_crypto = record {
  hmac_sha1 = λ key message. drop 4 message ++ (0 ∷ []);
  hmac_hex = λ purpose message. keep_out (b'.' ∷ []) message;
  hex = λ t. t;
  show_time = λ n. [];
  show_int = λ n. zero_filled 5 n;
  seal = λ t. t;
  unseal = λ t. some t;
  lower_text = lower;
  is_decimal = λ c. is_digit c || (leb 0x660 c && leb c 0x669);
  isdigit = λ t. all is_digit t && not (is_empty t);
  int_of = λ t. some (decimal 0 t);
}

abbrev pub no_scope : ScopeRecord
no_scope = record { every = false; servers = []; racks = [] }

abbrev pub person : ℕ → String → String → User
person id name role = record {
  id = id;
  username = codes name;
  display = codes name;
  role = role;
  password_hash = none;
  permissions = [];
  denied = [];
  scope = no_scope;
  must_change = false;
  failures = 0;
  locked_until = none;
  last_login = none;
  disabled = false;
  totp_secret = none;
  totp_enabled_at = none;
  totp_last_step = none;
  recovery_codes = [];
}

abbrev pub alice : User
alice = person 1 "alice" "admin"

abbrev pub bob : User
bob = person 2 "bob" "admin"

-- A player of one server, with a permission of the account's own and one that is denied.
abbrev pub carol : User
carol = record (person 3 "carol" "member") {
  permissions = "console.command" ∷ "backups.make" ∷ [];
  denied = "backups.make" ∷ [];
  scope = record { every = false; servers = codes "smp" ∷ []; racks = [] };
}

abbrev pub people : Db
people = record { users = alice ∷ bob ∷ carol ∷ []; sessions = []; next_id = 4 }

-- Two-factor sign-in is on, with two recovery codes left.
abbrev pub guarded_alice : User
guarded_alice = record alice {
  totp_secret = some (codes "secret");
  totp_enabled_at = some 1000;
  recovery_codes = codes "abcde12345" ∷ codes "fghij67890" ∷ [];
}

abbrev pub no_rack : Text → Option Text
no_rack sid = none

abbrev pub limits : TokenLimits
limits = record { id = 7; permissions = "console.command" ∷ []; servers = codes "smp" ∷ [] }

abbrev pub by_token : Account
by_token = record (as_dict carol) { via_token = some limits }
