-- ===== src/Auth/LastAdmin.antt =====
-- About `_guard_last_admin` in `update_user` and `delete_user` (app/auth.py).
use bless_forge.Base.{
  ◌<◌, ◌≡◌, ◌∙◌, some, arith, if◌then◌else◌, ◌==◌, nat_eq, string_eq, Text, text_eq,
}
use bless_forge.Auth.Model.{ok, User, Account, >>=-eq-ok}
use bless_forge.Auth.Accounts.{Library}
use bless_forge.Auth.Store.{
  Db, find_row, put_row, delete_row, guard_last_admin, Changes, change_role, change_fields,
  change_disabled, change_lock, require_row, update_user, delete_user,
}
use bless_forge.Auth.Admins.{
  admins, weight, admins-put_row, admins-delete_row, find_row-put_row, guard_last_admin-ok,
  change_role-ok, change_disabled-ok, change_role-username, change_disabled-username,
  change_fields-keeps, change_lock-keeps, require_row-ok,
}

-- The count of admins through the two guarded changes and the two that are not.
module _ (db : Db) (c : Changes) (row row₁ row₃ : User) where
  abbrev row₂ : User
  row₂ = change_fields c row₁

  abbrev row₄ : User
  row₄ = change_lock c.unlock row₃

  steps-keep_admin :
      0 < admins db.users
      → find_row row.username db.users ≡ some row
      → change_role db.users c.role row ≡ ok row₁
      → change_disabled (put_row row₂ db.users) c.disabled row₂ ≡ ok row₃
      → 0 < admins (put_row row₄ db.users)
  steps-keep_admin some_admin found changed set =
      let name₂ : row₂.username ≡ row.username =
        (change_fields-keeps c row₁).0 ∙ change_role-username db.users row row₁ c.role changed in
      let name₄ : row₄.username ≡ row.username =
        (change_lock-keeps c.unlock row₃).0
        ∙ change_disabled-username (put_row row₂ db.users) row₂ row₃ c.disabled set
        ∙ name₂ in
      let found₂ : find_row row₂.username db.users ≡ some row = rw name₂ found in
      let found₄ : find_row row₄.username db.users ≡ some row = rw name₄ found in
      let count₂ = admins-put_row db.users row row₂ found₂ in
      let count₄ = admins-put_row db.users row row₄ found₄ in
      let kept₁ = change_role-ok db.users some_admin row.username c.role row row₁ found changed in
      let w₂ = (change_fields-keeps c row₁).1 in
      let w₄ = (change_lock-keeps c.unlock row₃).1 in
      let kept₃ =
        change_disabled-ok (put_row row₂ db.users) (omega arith) row₂.username c.disabled row₂ row₃
          (find_row-put_row db.users row row₂ found₂) set in
      omega arith

-- Whatever an account is changed to, by name, if there was an enabled admin before there is one
-- after: demoting or disabling the last one fails.
pub update_user-keeps_admin :
    (lib : Library) (db : Db) (username : Text) (c : Changes) {db' : Db} {account : Account}
    → 0 < admins db.users
    → update_user lib db username c ≡ ok (db', account)
    → 0 < admins db'.users
unfolding update_user
update_user-keeps_admin lib db username c {db'} some_admin h =
    let (row, found, h₁) = >>=-eq-ok (require_row lib db username) _ h in
    let (row₁, changed, h₂) = >>=-eq-ok (change_role db.users c.role row) _ h₁ in
    let (row₃, set, h₃) =
      >>=-eq-ok
        (change_disabled (put_row (change_fields c row₁) db.users) c.disabled
          (change_fields c row₁))
        _ h₂ in
    let kept =
      steps-keep_admin db c row row₁ row₃ some_admin (require_row-ok lib db username row found)
        changed set in
    let users : db'.users ≡ put_row (change_lock c.unlock row₃) db.users = ground arith in
    rw users kept

-- Deleting an account leaves an enabled admin, if there was one.
pub delete_user-keeps_admin :
    (lib : Library) (db : Db) (username : Text) {db' : Db}
    → 0 < admins db.users
    → delete_user lib db username ≡ ok db'
    → 0 < admins db'.users
unfolding delete_user
delete_user-keeps_admin lib db username {db'} some_admin h =
    let (row, found, h₁) = >>=-eq-ok (require_row lib db username) _ h in
    let (x, guarded, h₂) =
      >>=-eq-ok (if row.role == "admin" then guard_last_admin db.users row else ok tt) _ h₁ in
    let f = require_row-ok lib db username row found in
    let count = admins-delete_row db.users row.username row f in
    let users : db'.users ≡ delete_row row.username db.users = ground arith in
    let kept : weight row < admins db.users = guard-weight row x f guarded in rw users (omega arith)
  where
    guard-weight :
        (row : User) (x : Unit {0})
        → find_row row.username db.users ≡ some row
        → (if row.role == "admin" then guard_last_admin db.users row else ok tt) ≡ ok x
        → weight row < admins db.users
    guard-weight row x f g =
        ground (arith, guard_last_admin-ok db.users some_admin row.username row {x = x} f)
