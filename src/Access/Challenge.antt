-- ===== src/Access/Challenge.antt =====
-- About the challenge of `make_challenge` and `finish_login` (app/access.py).
use mathlib.Core.List.{append_assoc, append-nil}
use bless_forge.Base.{
  ℕ, ◌+◌, ◌≤◌, ◌<◌, ◌≡◌, refl, true, false, some, [], ◌∷◌, ◌++◌, arith, ltb, eqb, ◌==◌, nat_eq,
  string_eq, Text, text_eq, ==_refl, contains, all,
}
use bless_forge.Auth.Model.{ok, err, User}
use bless_forge.Auth.Store.{Db}
use bless_forge.Auth.Login.{two_factor_on}
use bless_forge.Auth.Sessions.{find_user_id}
use bless_forge.Access.Totp.{Crypto, compare_digest, is_ascii}
use bless_forge.Access.Second.{check_second, challenge_mac}
use bless_forge.Access.Login.{
  challenge_ttl, dot, split_dots, expired, parse_challenge, try_code, same_mac, int_part, found_row,
  code_step, challenge_body, make_challenge,
}

-- A number that is printed with decimal digits and read back.
abbrev pub IsShown : Crypto → ℕ → Type 0
IsShown lib n =
    (lib.isdigit (lib.show_int n) ≡ true)
    × (lib.int_of (lib.show_int n) ≡ some n)
    × (contains (lib.show_int n) dot ≡ false)

split_dots-part :
    (part a rest : Text)
    → contains a dot ≡ false
    → split_dots part (a ++ (dot ∷ rest)) ≡ (part ++ a) ∷ split_dots [] rest
unfolding split_dots
split_dots-part part [] rest h = rw append-nil refl
split_dots-part part (c ∷ a) rest h =
    let e : eqb c dot ≡ false = ground arith in
    let k : contains a dot ≡ false = ground arith in
    rw (e, split_dots, split_dots-part (part ++ (c ∷ [])) a rest k, append_assoc) refl

split_dots-last : (part a : Text) → contains a dot ≡ false → split_dots part a ≡ (part ++ a) ∷ []
unfolding split_dots
split_dots-last part [] h = rw append-nil refl
split_dots-last part (c ∷ a) h =
    let e : eqb c dot ≡ false = ground arith in
    let k : contains a dot ≡ false = ground arith in
    rw (e, split_dots, split_dots-last (part ++ (c ∷ [])) a k, append_assoc) refl

int_part-IsShown : (lib : Crypto) (n : ℕ) → IsShown lib n → int_part lib (lib.show_int n) ≡ ok n
unfolding int_part
int_part-IsShown lib n h = rw (int_part, h.1) refl

found_row-ok :
    (lib : Crypto) (db : Db) (row : User)
    → find_user_id row.id db.users ≡ some row
    → row.disabled ≡ false
    → two_factor_on row ≡ true
    → found_row lib db row.id ≡ ok row
unfolding found_row two_factor_on
found_row-ok lib db row found enabled factor = rw (found_row, found, enabled, factor) refl

compare_digest_self : (a : Text) → all is_ascii a ≡ true → compare_digest a a ≡ ok true
unfolding compare_digest
compare_digest_self a h = let same : (a == a) ≡ true = ==_refl a in rw (h, same) refl

module _ (lib : Crypto) (row : User) (nonce : Text) (made : ℕ) where
  abbrev mac_of : Text
  mac_of = challenge_mac lib (challenge_body lib row nonce made) row

  parse-make_challenge :
      IsShown lib row.id
      → IsShown lib (made + challenge_ttl)
      → contains nonce dot ≡ false
      → contains mac_of dot ≡ false
      → parse_challenge (split_dots [] (make_challenge lib row nonce made))
        ≡ ok (record {
          user_id = lib.show_int row.id;
          expires = lib.show_int (made + challenge_ttl);
          body = challenge_body lib row nonce made;
          mac = mac_of;
        })
  unfolding make_challenge challenge_body parse_challenge
  parse-make_challenge i x n m =
      let ends = split_dots-last [] mac_of m in
      let third = split_dots-part [] nonce mac_of n in
      let second =
        split_dots-part [] (lib.show_int (made + challenge_ttl)) (nonce ++ (dot ∷ mac_of)) x.2 in
      let first =
        split_dots-part [] (lib.show_int row.id)
          (lib.show_int (made + challenge_ttl) ++ (dot ∷ (nonce ++ (dot ∷ mac_of)))) i.2 in
      rw (append_assoc, append_assoc, first, second, third, ends) refl

  -- A challenge that was just made is good for three hundred seconds: in that time the code step
  -- gets as far as the lockout and the code itself, for an account that is not disabled and has
  -- two-factor sign-in on. The printed numbers are read back, the nonce and the MAC have no dot, and
  -- the MAC is ASCII.
  pub challenge_accepted :
      (db : Db) (code : Text) (now : ℕ)
      → IsShown lib row.id
      → IsShown lib (made + challenge_ttl)
      → contains nonce dot ≡ false
      → contains mac_of dot ≡ false
      → all is_ascii mac_of ≡ true
      → find_user_id row.id db.users ≡ some row
      → row.disabled ≡ false
      → two_factor_on row ≡ true
      → now ≤ made + challenge_ttl
      → code_step lib db (make_challenge lib row nonce made) code now
        ≡ try_code now row (check_second lib row code now)
  unfolding code_step same_mac
  challenge_accepted db code now i x n m ascii found enabled factor le =
      let early : ltb (made + challenge_ttl) now ≡ false = ground arith in
      rw
        (
          parse-make_challenge i x n m,
          i.0,
          x.0,
          int_part-IsShown lib (made + challenge_ttl) x,
          early,
          int_part-IsShown lib row.id i,
          found_row-ok lib db row found enabled factor,
          compare_digest_self mac_of ascii,
        )
        refl

  -- A challenge that is older than three hundred seconds is refused as expired, whatever the code,
  -- when its printed numbers are read back and its nonce and MAC have no dot.
  pub challenge_expires :
      (db : Db) (code : Text) (now : ℕ)
      → IsShown lib row.id
      → IsShown lib (made + challenge_ttl)
      → contains nonce dot ≡ false
      → contains mac_of dot ≡ false
      → made + challenge_ttl < now
      → code_step lib db (make_challenge lib row nonce made) code now ≡ err expired
  unfolding code_step
  challenge_expires db code now i x n m late =
      let over : ltb (made + challenge_ttl) now ≡ true = ground arith in
      rw
        (
          parse-make_challenge i x n m,
          i.0,
          x.0,
          int_part-IsShown lib (made + challenge_ttl) x,
          over,
        )
        refl
