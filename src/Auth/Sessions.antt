-- ===== src/Auth/Sessions.antt =====
-- app/auth.py: sessions. A session is stored under the SHA-256 of its token.
use bless_forge.Base.{
  String, ℕ, ◌+◌, ◌-◌, Option, none, some, List, [], ◌∷◌, ltb, leb, if◌then◌else◌, ◌==◌, nat_eq,
  string_eq, Text, text_eq, length, is_empty,
}
use bless_forge.Auth.Model.{User, Account, as_dict}
use bless_forge.Auth.Accounts.{Library}
use bless_forge.Auth.Store.{Session, Db, drop_sessions, row_of}
use bless_forge.Auth.Login.{session_ttl, last_seen_every}

unfoldable pub find_user_id : ℕ → List User → Option User
find_user_id id [] = none
find_user_id id (u ∷ us) = if u.id == id then some u else find_user_id id us

unfoldable pub find_session : Text → List Session → Option Session
find_session key [] = none
find_session key (s ∷ ss) = if s.token_sha256 == key then some s else find_session key ss

unfoldable pub delete_session : Text → List Session → List Session
delete_session key [] = []
delete_session key (s ∷ ss) =
    let rest = delete_session key ss in if s.token_sha256 == key then rest else s ∷ rest

unfoldable pub touch_session : Text → ℕ → List Session → List Session
touch_session key now [] = []
touch_session key now (s ∷ ss) =
    let rest = touch_session key now ss in
    if s.token_sha256 == key then record s { last_seen = now } ∷ ss else s ∷ rest

-- `sha256` is `hashlib`'s; `grants_of` is the select of `_grants_of` on `server_users`.
module _ (sha256 : Text → Text) where
  unfoldable pub start_session : Db → ℕ → Text → ℕ → Db × ℕ
  start_session db now token user_id =
      let expires = now + session_ttl in
      (
        record db {
          sessions =
              record {
                token_sha256 = sha256 token;
                user_id = user_id;
                expires_at = expires;
                last_seen = now;
              }
              ∷ db.sessions;
        },
        expires,
      )

  unfoldable pub revoke : Db → Text → Db
  revoke db token = record db { sessions = delete_session (sha256 token) db.sessions }

  -- The session's user row, if the join finds both.
  unfoldable pub joined : Db → Text → Option (Session × User)
  joined db key = elim (find_session key db.sessions) [
    | none ↦ none
    | some rec ↦ elim (find_user_id rec.user_id db.users) [
      | none ↦ none
      | some user ↦ some (rec, user)
    ]
  ]

  unfoldable pub session_user :
      (ℕ → List (Text × List String)) → Db → ℕ → Text → Db × Option Account
  session_user grants_of db now token =
      if is_empty token
      then (db, none)
      else (let key = sha256 token in
          elim (joined db key) [
            | none ↦ (db, none)
            | some (rec, user) ↦
                if leb rec.expires_at now
                then (record db { sessions = delete_session key db.sessions }, none)
                else if user.disabled
                then (db, none)
                else (
                  (if ltb last_seen_every (now - rec.last_seen)
                      then record db { sessions = touch_session key now db.sessions }
                      else db),
                  some (record (as_dict user) { grants = grants_of user.id }),
                )
          ])

  -- `revoke_all`, with the number of sessions dropped
  unfoldable pub revoke_all : Library → Db → Text → Db × ℕ
  revoke_all lib db username = elim (row_of lib db username) [
    | none ↦ (db, 0)
    | some row ↦
        let rest = drop_sessions row.id db.sessions in
        (record db { sessions = rest }, length db.sessions - length rest)
  ]
