-- ===== src/Access/Digits.antt =====
-- About `match_code` (app/access.py) on digits outside ASCII.
use bless_forge.Base.{
  ℕ, zero, suc, ◌/◌, ◌≤◌, ◌<◌, ◌≡◌, refl, true, false, Option, arith, nat_eq, string_eq, Text,
  text_eq, length, all,
}
use bless_forge.Auth.Model.{raise}
use bless_forge.Access.Totp.{
  Crypto, is_ascii, compare_digest, strip_spaces, hotp, search_steps, search_around, match_code,
  totp_step,
}

not_ascii-compare :
    (a b : Text) → all is_ascii b ≡ false → compare_digest a b ≡ raise "TypeError" 500
unfolding compare_digest
not_ascii-compare a b h = ground arith

not_ascii-search :
    (lib : Crypto) (key typed : Text) (last : Option ℕ) (k : ℕ)
    → all is_ascii typed ≡ false
    → 0 < k
    → search_around lib key typed last k ≡ raise "TypeError" 500
unfolding search_around search_steps
not_ascii-search lib key typed last zero a h = absurd (omega arith)
not_ascii-search lib key typed last (suc k) a h =
    rw (not_ascii-compare (hotp lib key k) typed a) refl

-- From the second half minute of the epoch on, a code of six decimal digits that are not all ASCII
-- is neither right nor wrong: the comparison raises, whatever the secret.
pub match_code-not_ascii :
    (lib : Crypto) (key code : Text) (now : ℕ) (last : Option ℕ)
    → length (strip_spaces code) ≡ 6
    → all lib.is_decimal (strip_spaces code) ≡ true
    → all is_ascii (strip_spaces code) ≡ false
    → 30 ≤ now
    → match_code lib key code now last ≡ raise "TypeError" 500
unfolding match_code
match_code-not_ascii lib key code now last n d a t =
    rw (n, d) (not_ascii-search lib key (strip_spaces code) last (now / totp_step) a (ground arith))
