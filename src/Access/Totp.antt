-- ===== src/Access/Totp.antt =====
-- app/access.py: one-time codes (RFC 6238) and recovery codes.
use bless_forge.Base.{
  String, ℕ, zero, suc, ◌+◌, ◌*◌, ◌/◌, ◌%◌, Bool, true, not, ◌&&◌, ◌||◌, Option, none, some, List,
  [], ◌∷◌, ◌++◌, ltb, leb, if◌then◌else◌, ◌==◌, nat_eq, string_eq, Text, text_eq, length, take,
  drop, all,
}
use bless_forge.Base.Strings.{is_space}
use bless_forge.Auth.Model.{Result, ok, raise, ◌>>=◌}

abbrev pub totp_step : ℕ
totp_step = 30

abbrev pub totp_digits : ℕ
totp_digits = 6

abbrev pub totp_skew : ℕ
totp_skew = 1

-- The parts of the standard library that the module calls. `hmac_sha1` gives the 20 bytes of the
-- digest; `hmac_hex purpose` is the hexadecimal HMAC-SHA256 under the key of that purpose;
-- `is_decimal` is `\d` on one character, `isdigit`, `show_int` and `int_of` are `str.isdigit`, `str` and `int` (`none`
-- for a ValueError), `lower_text` is `str.lower`; `seal` and `unseal` are the Fernet
-- encryption of a secret's bytes under the app secret.
pub record Crypto : Type 0 where
  pub hmac_sha1 : Text → Text → Text
  pub hmac_hex : String → Text → Text
  pub hex : Text → Text
  pub show_time : ℕ → Text
  pub show_int : ℕ → Text
  pub seal : Text → Text
  pub unseal : Text → Option Text
  pub lower_text : Text → Text
  pub is_decimal : ℕ → Bool
  pub isdigit : Text → Bool
  pub int_of : Text → Option ℕ

abbrev pub is_ascii : ℕ → Bool
is_ascii c = ltb c 128

-- `hmac.compare_digest` on two `str`, which raises TypeError when one is not ASCII. What is not an
-- `AuthError` ends the request with status 500, and the database session is rolled back too.
unfoldable pub compare_digest : Text → Text → Result Bool
compare_digest a b = if all is_ascii a && all is_ascii b then ok (a == b) else raise "TypeError" 500

unfoldable pub strip_spaces : Text → Text
strip_spaces [] = []
strip_spaces (c ∷ s) = let rest = strip_spaces s in if is_space c then rest else c ∷ rest

-- `struct.pack(">Q", counter)`: `k` bytes, the most significant first
unfoldable pub pack : ℕ → ℕ → Text
pack zero n = []
pack (suc k) n = pack k (n / 256) ++ ((n % 256) ∷ [])

-- `struct.unpack(">I", ...)`
unfoldable pub unpack : ℕ → Text → ℕ
unpack n [] = n
unpack n (b ∷ s) = unpack (n * 256 + b) s

abbrev pub last_or_zero : Text → ℕ
last_or_zero [] = 0
last_or_zero (b ∷ []) = b
last_or_zero (b ∷ c ∷ s) = last_or_zero (c ∷ s)

-- `str(n % 10 ** k).zfill(k)`
unfoldable pub zero_filled : ℕ → ℕ → Text
zero_filled zero n = []
zero_filled (suc k) n = zero_filled k (n / 10) ++ ((b'0' + n % 10) ∷ [])

-- `last_step is None or s > last_step`
abbrev pub later : ℕ → Option ℕ → Bool
later s none = true
later s (some last) = ltb last s

module _ (lib : Crypto) where
  unfoldable pub hotp : Text → ℕ → Text
  hotp key counter =
      let mac = lib.hmac_sha1 key (pack 8 counter) in
      let off = last_or_zero mac % 16 in
      let n = unpack 0 (take 4 (drop off mac)) % 2147483648 in zero_filled totp_digits n

  -- The loop of `match_code`: the last of the steps that matches and is not spent.
  unfoldable pub search_steps : Text → Text → Option ℕ → List ℕ → Option ℕ → Result (Option ℕ)
  search_steps key code last_step [] found = ok found
  search_steps key code last_step (s ∷ steps) found = do
    same ← compare_digest (hotp key s) code
    search_steps key code last_step steps (if same && later s last_step then some s else found)

  -- The steps `step - 1 .. step + 1`. In the first half minute of the epoch the first of them is
  -- negative, and `struct.pack` raises.
  unfoldable pub search_around : Text → Text → Option ℕ → ℕ → Result (Option ℕ)
  search_around key code last_step zero = raise "struct.error" 500
  search_around key code last_step (suc s) =
      search_steps key code last_step (s ∷ suc s ∷ suc (suc s) ∷ []) none

  unfoldable pub match_code : Text → Text → ℕ → Option ℕ → Result (Option ℕ)
  match_code key code now last_step =
      let typed = strip_spaces code in
      if not (length typed == totp_digits && all lib.is_decimal typed)
      then ok none
      else search_around key typed last_step (now / totp_step)

  abbrev is_code_char : ℕ → Bool
  is_code_char c = (leb b'a' c && leb c b'z') || (leb b'0' c && leb c b'9')

  abbrev keep_code_chars : Text → Text
  keep_code_chars [] = []
  keep_code_chars (c ∷ s) =
      let rest = keep_code_chars s in if is_code_char c then c ∷ rest else rest

  -- `_rc_norm`, `_rc_hash` and `_looks_like_recovery`
  unfoldable pub rc_norm : Text → Text
  rc_norm code = keep_code_chars (lib.lower_text code)

  unfoldable pub rc_hash : Text → Text
  rc_hash code = lib.hmac_hex "recovery" (rc_norm code)

  unfoldable pub looks_like_recovery : Text → Bool
  looks_like_recovery code = length (rc_norm code) == 10 && not (lib.isdigit (rc_norm code))
