-- ===== src/Auth/Store.antt =====
-- app/auth.py: the operations on accounts. A `db.session()` block that raises rolls its changes
-- back, so such an operation returns the new database and a value, or an error.
use bless_forge.Base.{
  String, ℕ, Bool, false, not, ◌&&◌, ◌||◌, Option, none, some, List, [], ◌∷◌, leb, if◌then◌else◌,
  ◌==◌, nat_eq, string_eq, Text, text_eq, contains, keep_in, length, take, is_empty,
}
use bless_forge.Base.Strings.{strip}
use bless_forge.Auth.Permissions.{permissions, roles}
use bless_forge.Auth.Model.{
  Result, ok, err, raise, ◌>>=◌, ◌>>◌, ScopeRecord, User, Account, as_dict,
}
use bless_forge.Auth.Rights.{clean_scope}
use bless_forge.Auth.Accounts.{Library, normalise_username}

pub record Session : Type 0 where
  pub token_sha256 : Text
  pub user_id : ℕ
  pub expires_at : ℕ
  pub last_seen : ℕ

pub record Db : Type 0 where
  pub users : List User
  pub sessions : List Session
  pub next_id : ℕ

-- `select(User).where(User.username == want)`; the column is unique.
unfoldable pub find_row : Text → List User → Option User
find_row want [] = none
find_row want (u ∷ us) = if u.username == want then some u else find_row want us

-- The changed row is written back in place of the row of its name.
unfoldable pub put_row : User → List User → List User
put_row row [] = []
put_row row (u ∷ us) =
    let rest = put_row row us in if u.username == row.username then row ∷ us else u ∷ rest

unfoldable pub delete_row : Text → List User → List User
delete_row want [] = []
delete_row want (u ∷ us) =
    let rest = delete_row want us in if u.username == want then us else u ∷ rest

-- `delete(SessionRow).where(SessionRow.user_id == id)`
unfoldable pub drop_sessions : ℕ → List Session → List Session
drop_sessions id [] = []
drop_sessions id (s ∷ ss) =
    let rest = drop_sessions id ss in if s.user_id == id then rest else s ∷ rest

-- `User.role == "admin"` and not disabled
abbrev pub is_enabled_admin : User → Bool
is_enabled_admin u = u.role == "admin" && not u.disabled

unfoldable pub enabled_admins : List User → List User
enabled_admins [] = []
enabled_admins (u ∷ us) =
    let rest = enabled_admins us in if is_enabled_admin u then u ∷ rest else rest

unfoldable pub any_id : ℕ → List User → Bool
any_id id [] = false
any_id id (u ∷ us) = u.id == id || any_id id us

-- `_guard_last_admin`
unfoldable pub guard_last_admin : List User → User → Result (Unit {0})
guard_last_admin users row =
    let admins = enabled_admins users in
    if leb (length admins) 1 && any_id row.id admins
    then raise "That is the only admin left." 409
    else ok tt

-- What `update_user` is asked to change; `none` leaves the field alone.
pub record Changes : Type 0 where
  pub role : Option String
  pub display : Option Text
  pub permissions : Option (List String)
  pub scope : Option (Option ScopeRecord)
  pub disabled : Option Bool
  pub unlock : Bool

unfoldable pub change_role : List User → Option String → User → Result User
change_role users none row = ok row
change_role users (some role) row =
    if not (contains roles role)
    then raise "Unknown role" 400
    else if row.role == "admin" && not (role == "admin")
    then guard_last_admin users row >> ok (record row { role = role })
    else ok (record row { role = role })

-- `str(display).strip()[:60] or fallback`
unfoldable pub display_name : Text → Text → Text
display_name display fallback =
    let d = take 60 (strip display) in if is_empty d then fallback else d

unfoldable pub change_fields : Changes → User → User
change_fields c row = record row {
  display = elim c.display [ none ↦ row.display | some d ↦ display_name d row.username ];
  permissions = elim c.permissions [ none ↦ row.permissions | some ps ↦ keep_in permissions ps ];
  scope = elim c.scope [ none ↦ row.scope | some s ↦ clean_scope s ];
}

-- The row is flushed before the admins are counted, so `users` has the row as it is by now.
unfoldable pub change_disabled : List User → Option Bool → User → Result User
change_disabled users none row = ok row
change_disabled users (some b) row =
    if b && row.role == "admin"
    then guard_last_admin users row >> ok (record row { disabled = b })
    else ok (record row { disabled = b })

unfoldable pub change_lock : Bool → User → User
change_lock unlock row = if unlock then record row { failures = 0; locked_until = none } else row

-- The sessions of an account that was just disabled are dropped.
unfoldable pub sessions_after : Option Bool → User → List Session → List Session
sessions_after none row ss = ss
sessions_after (some b) row ss = if b then drop_sessions row.id ss else ss

module _ (lib : Library) where
  -- `_row`: a name that is not a username finds nothing.
  unfoldable pub row_of : Db → Text → Option User
  row_of db username = elim (normalise_username lib username) [
    | ok want ↦ find_row want db.users
    | err e ↦ none
  ]

  unfoldable pub require_row : Db → Text → Result User
  require_row db username = elim (row_of db username) [
    | none ↦ raise "No such user." 404
    | some row ↦ ok row
  ]

  unfoldable pub update_user : Db → Text → Changes → Result (Db × Account)
  update_user db username c = do
    row ← require_row db username
    row₁ ← change_role db.users c.role row
    let row₂ = change_fields c row₁
    row₃ ← change_disabled (put_row row₂ db.users) c.disabled row₂
    let row₄ = change_lock c.unlock row₃
    ok (
      record db {
        users = put_row row₄ db.users;
        sessions = sessions_after c.disabled row₄ db.sessions;
      },
      as_dict row₄,
    )

  -- Sessions go with the account (ON DELETE CASCADE).
  unfoldable pub delete_user : Db → Text → Result Db
  delete_user db username = do
    row ← require_row db username
    (if row.role == "admin" then guard_last_admin db.users row else ok tt)
    ok (record db {
      users = delete_row row.username db.users;
      sessions = drop_sessions row.id db.sessions;
    })
