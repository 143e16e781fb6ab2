-- ===== src/Access/Login.antt =====
-- app/access.py: challenges and the code step of a sign-in.
use bless_forge.Base.{
  ℕ, ◌+◌, Bool, true, false, not, ◌&&◌, ◌||◌, none, some, List, [], ◌∷◌, ◌++◌, ltb, eqb,
  if◌then◌else◌, nat_eq, string_eq, Text, text_eq,
}
use bless_forge.Auth.Model.{Refusal, Result, ok, err, raise, ◌>>=◌, ◌>>◌, User, Account, as_dict}
use bless_forge.Auth.Store.{Db, put_row}
use bless_forge.Auth.Login.{count_failure, is_locked, two_factor_on, signed_in}
use bless_forge.Auth.Sessions.{find_user_id}
use bless_forge.Access.Totp.{Crypto, compare_digest}
use bless_forge.Access.Second.{How, totp, recovery, wrong, check_second, challenge_mac}

abbrev pub challenge_ttl : ℕ
challenge_ttl = 300

abbrev pub dot : ℕ
dot = b'.'

-- `challenge.split(".")`
unfoldable pub split_dots : Text → Text → List Text
split_dots part [] = part ∷ []
split_dots part (c ∷ s) = elim (eqb c dot) [
  | true ↦ part ∷ split_dots [] s
  | false ↦ split_dots (part ++ (c ∷ [])) s
]

pub record Challenge : Type 0 where
  pub user_id : Text
  pub expires : Text
  pub body : Text
  pub mac : Text

abbrev pub expired : Refusal
expired = record {
  message = "That sign-in has expired or is not valid. Start again.";
  status = 401;
}

-- Exactly four parts; the body is the first three, joined again.
unfoldable pub parse_challenge : List Text → Result Challenge
parse_challenge (id ∷ expires ∷ nonce ∷ mac ∷ []) = ok (record {
  user_id = id;
  expires = expires;
  body = id ++ (dot ∷ expires) ++ (dot ∷ nonce);
  mac = mac;
})
parse_challenge _ = err expired

-- How a code that was looked at settles the row: a wrong one counts, a right one signs in.
unfoldable pub settle : ℕ → User × How → User
settle now (row, wrong) = count_failure now row
settle now (row, totp) = signed_in now row
settle now (row, recovery) = signed_in now row

unfoldable pub verdict : How → Result (Unit {0})
verdict wrong = raise "That code is not right." 401
verdict totp = ok tt
verdict recovery = ok tt

-- The code step on the row: refused while locked, else the code is checked and settles the row.
unfoldable pub try_code : ℕ → User → Result (User × How) → Result (User × How)
try_code now row checked =
    if is_locked now row
    then raise "Too many failed attempts." 429
    else (do done ← checked; ok (settle now done, done.1))

unfoldable pub same_mac : Bool → Result (Unit {0})
same_mac b = if b then ok tt else err expired

module _ (lib : Crypto) where
  -- `make_challenge`, with the nonce of `secrets.token_urlsafe`
  unfoldable pub challenge_body : User → Text → ℕ → Text
  challenge_body row nonce now =
      lib.show_int row.id ++ (dot ∷ lib.show_int (now + challenge_ttl)) ++ (dot ∷ nonce)

  unfoldable pub make_challenge : User → Text → ℕ → Text
  make_challenge row nonce now =
      let body = challenge_body row nonce now in body ++ (dot ∷ challenge_mac lib body row)

  -- `int(text)`, which raises ValueError on digits that are not decimal
  unfoldable pub int_part : Text → Result ℕ
  int_part text = elim (lib.int_of text) [ none ↦ raise "ValueError" 500 | some n ↦ ok n ]

  unfoldable pub found_row : Db → ℕ → Result User
  found_row db id = elim (find_user_id id db.users) [
    | none ↦ err expired
    | some row ↦ if row.disabled || not (two_factor_on row) then err expired else ok row
  ]

  -- The part of `finish_login` up to its commit; an error rolls back.
  unfoldable pub code_step : Db → Text → Text → ℕ → Result (User × How)
  code_step db challenge code now = do
    c ← parse_challenge (split_dots [] challenge)
    (if lib.isdigit c.user_id && lib.isdigit c.expires then ok tt else err expired)
    expires ← int_part c.expires
    (if ltb expires now then err expired else ok tt)
    id ← int_part c.user_id
    row ← found_row db id
    same ← compare_digest (challenge_mac lib c.body row) c.mac
    same_mac same
    try_code now row (check_second lib row code now)

  -- `finish_login`: a wrong code is raised after the commit, so that it counts.
  unfoldable pub finish_login : Db → Text → Text → ℕ → Db × Result (Account × How)
  finish_login db challenge code now = elim (code_step db challenge code now) [
    | err e ↦ (db, err e)
    | ok done ↦ (
      record db { users = put_row done.0 db.users },
      verdict done.1 >> ok (as_dict done.0, done.1),
    )
  ]
