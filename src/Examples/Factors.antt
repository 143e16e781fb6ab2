-- ===== src/Examples/Factors.antt =====
-- One-time codes, recovery codes and the lockout.
use bless_forge.Base.{
  ℕ, ◌+◌, ◌-◌, ◌≤◌, ◌<◌, ◌≡◌, refl, ◌≢◌, true, false, none, some, List, [], ◌∷◌, arith, nat_eq,
  string_eq, Text, text_eq, contains, codes, length, all,
}
use bless_forge.Auth.Model.{ok, raise, User}
use bless_forge.Auth.Login.{max_failures, two_factor_on}
use bless_forge.Access.Totp.{
  match_code, strip_spaces, search_around, search_steps, compare_digest, hotp, pack, unpack,
  zero_filled, is_ascii, rc_hash, rc_norm, looks_like_recovery,
}
use bless_forge.Access.Second.{totp, recovery, check_second, open_secret, spend}
use bless_forge.Access.Spent.{codes_advance}
use bless_forge.Access.Recovery.{recovery_once}
use bless_forge.Access.Digits.{match_code-not_ascii}
use bless_forge.Access.Lockout.{Attempt, password, code, guesses, InPeriod, Guarded, guesses-le}
use bless_forge.Auth.Store.{Db}
use bless_forge.Auth.Sessions.{find_user_id}
use bless_forge.Access.Second.{challenge_mac}
use bless_forge.Access.Login.{
  challenge_ttl, dot, try_code, code_step, challenge_body, make_challenge,
}
use bless_forge.Access.Challenge.{IsShown, challenge_accepted}
use bless_forge.Examples.Data.{plain_crypto, guarded_alice}

code_matches : match_code plain_crypto (codes "secret") (codes "000 003") 90 (some 2) ≡ ok (some 3)
unfolding match_code strip_spaces bless_forge.Base.Strings.is_space search_around search_steps
    compare_digest hotp zero_filled unpack pack
code_matches = refl

abbrev first_code : User
first_code = record guarded_alice { totp_last_step = some 3 }

abbrev second_code : User
second_code = record guarded_alice { totp_last_step = some 4 }

first_accepted : check_second plain_crypto guarded_alice (codes "000003") 90 ≡ ok (first_code, totp)
unfolding check_second looks_like_recovery rc_norm bless_forge.Base.Strings.lower open_secret
    match_code strip_spaces bless_forge.Base.Strings.is_space search_around search_steps
    compare_digest hotp zero_filled unpack pack
first_accepted = refl

second_accepted : check_second plain_crypto first_code (codes "000004") 91 ≡ ok (second_code, totp)
unfolding check_second looks_like_recovery rc_norm bless_forge.Base.Strings.lower open_secret
    match_code strip_spaces bless_forge.Base.Strings.is_space search_around search_steps
    compare_digest hotp zero_filled unpack pack
second_accepted = refl

codes_advance_example :
    (s₁ : ℕ) × (s₂ : ℕ) × (first_code.totp_last_step ≡ some s₁)
    × (second_code.totp_last_step ≡ some s₂)
    × (s₁ < s₂)
codes_advance_example =
    codes_advance plain_crypto guarded_alice first_code second_code (codes "000003")
      (codes "000004") 90 91 first_accepted second_accepted

abbrev one_left : User
one_left = record guarded_alice { recovery_codes = codes "fghij67890" ∷ [] }

recovery_accepted :
    check_second plain_crypto guarded_alice (codes "ABCDE-12345") 90 ≡ ok (one_left, recovery)
unfolding check_second looks_like_recovery rc_norm bless_forge.Base.Strings.lower spend
    compare_digest rc_hash
recovery_accepted = refl

recovery_once_example :
    (contains guarded_alice.recovery_codes (rc_hash plain_crypto (codes "ABCDE-12345")) ≡ true)
    × (check_second plain_crypto one_left (codes "ABCDE-12345") 95 ≢ ok (guarded_alice, recovery))
recovery_once_example =
    recovery_once plain_crypto guarded_alice one_left guarded_alice (codes "ABCDE-12345") 90 95
      (refl, (refl, tt)) recovery_accepted

abbrev arabic_digits : Text
arabic_digits = 0x661 ∷ 0x662 ∷ 0x663 ∷ 0x664 ∷ 0x665 ∷ 0x666 ∷ []

six : length (strip_spaces arabic_digits) ≡ 6
unfolding strip_spaces bless_forge.Base.Strings.is_space
six = refl

decimals : all plain_crypto.is_decimal (strip_spaces arabic_digits) ≡ true
unfolding strip_spaces bless_forge.Base.Strings.is_space
decimals = refl

foreign : all is_ascii (strip_spaces arabic_digits) ≡ false
unfolding strip_spaces bless_forge.Base.Strings.is_space
foreign = refl

late_enough : 30 ≤ 90
late_enough = omega arith

match_code-not_ascii_example :
    match_code plain_crypto (codes "secret") arabic_digits 90 none ≡ raise "TypeError" 500
match_code-not_ascii_example =
    match_code-not_ascii plain_crypto (codes "secret") arabic_digits 90 none six decimals foreign
      late_enough

-- A wrong password, the right one, and a wrong code.
abbrev tries : List (Attempt × ℕ)
tries = (password false, 5000) ∷ (password true, 5001) ∷ (code, 5002) ∷ []

guarded : Guarded guarded_alice
unfolding two_factor_on
guarded = record { factor = refl; enabled = refl; below = omega arith }

tries-InPeriod : InPeriod 5000 tries
tries-InPeriod = ground arith

guesses-le_example : guesses tries guarded_alice + guarded_alice.failures ≤ max_failures
guesses-le_example = guesses-le 5000 tries guarded_alice tries-InPeriod guarded

abbrev guarded_people : Db
guarded_people = record { users = guarded_alice ∷ []; sessions = []; next_id = 2 }

abbrev nonce : Text
nonce = codes "abcDEF"

id-IsShown : IsShown plain_crypto 1
unfolding zero_filled
id-IsShown = (refl, refl, refl)

expiry-IsShown : IsShown plain_crypto (1000 + challenge_ttl)
unfolding zero_filled
expiry-IsShown = (refl, refl, refl)

abbrev mac : Text
mac =
    challenge_mac plain_crypto (challenge_body plain_crypto guarded_alice nonce 1000) guarded_alice

mac_without_dot : contains mac dot ≡ false
unfolding challenge_mac challenge_body zero_filled
mac_without_dot = refl

mac_ascii : all is_ascii mac ≡ true
unfolding challenge_mac challenge_body zero_filled
mac_ascii = refl

second_factor : two_factor_on guarded_alice ≡ true
unfolding two_factor_on
second_factor = refl

alice_found : find_user_id 1 guarded_people.users ≡ some guarded_alice
unfolding find_user_id
alice_found = refl

challenge_accepted_example :
    code_step plain_crypto guarded_people
      (make_challenge plain_crypto guarded_alice nonce 1000)
      (codes "000040")
      1200
    ≡ try_code 1200 guarded_alice (check_second plain_crypto guarded_alice (codes "000040") 1200)
challenge_accepted_example =
    challenge_accepted plain_crypto guarded_alice nonce 1000 guarded_people (codes "000040") 1200
      id-IsShown expiry-IsShown refl mac_without_dot mac_ascii alice_found refl second_factor
      (omega arith)
