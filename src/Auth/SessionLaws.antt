-- ===== src/Auth/SessionLaws.antt =====
-- About `start_session`, `session_user` and `revoke` (app/auth.py).
use bless_forge.Base.{
  String, ℕ, ◌+◌, ◌<◌, ◌≡◌, refl, inl, inr, true, false, none, some, List, [], ◌∷◌, arith, leb,
  Bool-cases, ◌==◌, nat_eq, string_eq, Text, text_eq, ==_refl, is_empty,
}
use bless_forge.Auth.Model.{User, as_dict}
use bless_forge.Auth.Store.{Session, Db}
use bless_forge.Auth.Login.{session_ttl}
use bless_forge.Auth.Sessions.{
  find_user_id, find_session, delete_session, start_session, revoke, joined, session_user,
}

-- A token that was just handed out is its account's until the session's length is over, with the
-- grants that are read at the time, unless the account is gone or disabled.
pub session_user-start_session :
    (sha256 : Text → Text) (grants_of : ℕ → List (Text × List String)) (db : Db) (start now : ℕ)
    (token : Text) (user : User)
    → is_empty token ≡ false
    → find_user_id user.id db.users ≡ some user
    → user.disabled ≡ false
    → now < start + session_ttl
    → (session_user sha256 grants_of (start_session sha256 db start token user.id).0 now token).1
      ≡ some (record (as_dict user) { grants = grants_of user.id })
unfolding session_user joined start_session find_session
session_user-start_session sha256 grants_of db start now token user t found enabled fresh =
    let over : leb (start + session_ttl) now ≡ false = ground arith in
    let same : (sha256 token == sha256 token) ≡ true = ==_refl (sha256 token) in
    rw (t, same, found, over, enabled) refl

find_session-delete_session :
    (key : Text) (ss : List Session) → find_session key (delete_session key ss) ≡ none
unfolding find_session delete_session
find_session-delete_session key [] = refl
find_session-delete_session key (s ∷ ss) = elim (Bool-cases (s.token_sha256 == key)) [
  | inl e ↦ rw e (find_session-delete_session key ss)
  | inr e ↦ rw e (rw e (find_session-delete_session key ss))
]

-- After signing out, the token is nobody's, at any time and whatever else is in the database.
pub session_user-revoke :
    (sha256 : Text → Text) (grants_of : ℕ → List (Text × List String)) (db : Db) (now : ℕ)
    (token : Text)
    → (session_user sha256 grants_of (revoke sha256 db token) now token).1 ≡ none
unfolding session_user joined revoke
session_user-revoke sha256 grants_of db now token = elim (Bool-cases (is_empty token)) [
  | inl e ↦ rw e refl
  | inr e ↦ rw (e, find_session-delete_session (sha256 token) db.sessions) refl
]
