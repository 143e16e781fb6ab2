-- ===== src/Access/Grants.antt =====
-- app/access.py: permissions on one server, on top of an account's role.
use bless_forge.Base.{
  String, ℕ, Bool, not, ◌&&◌, Option, none, some, List, [], ◌∷◌, if◌then◌else◌, ◌==◌, nat_eq,
  string_eq, Text, text_eq, contains, add_once, keep_out, is_empty,
}
use bless_forge.Auth.Permissions.{permissions, global_permissions}
use bless_forge.Auth.Model.{Result, ok, raise, ◌>>=◌, ◌>>◌}
use bless_forge.Auth.Accounts.{Library}
use bless_forge.Auth.Store.{Db, require_row}

-- `GRANTABLE`
unfoldable pub grantable : List String
grantable = keep_out global_permissions permissions

-- A row of `server_users`, keyed by the server and the account
pub record ServerUser : Type 0 where
  pub server_id : Text
  pub user_id : ℕ
  pub permissions : List String

unfoldable pub pick_grantable : List String → List String → Result (List String)
pick_grantable [] out = ok out
pick_grantable (p ∷ ps) out =
    let rest = pick_grantable ps (add_once out p) in
    if not (contains permissions p)
    then raise "Unknown permission" 400
    else if not (contains grantable p)
    then raise "That is not about one server, so it cannot be given on one." 400
    else rest

-- Every other right needs to see the server.
unfoldable pub with_view : List String → List String
with_view perms =
    if not (is_empty perms) && not (contains perms "server.view")
    then "server.view" ∷ perms
    else perms

abbrev pub is_key : Text → ℕ → ServerUser → Bool
is_key server_id user_id g = g.server_id == server_id && g.user_id == user_id

unfoldable pub without_grant : Text → ℕ → List ServerUser → List ServerUser
without_grant server_id user_id [] = []
without_grant server_id user_id (g ∷ gs) =
    let rest = without_grant server_id user_id gs in
    if is_key server_id user_id g then rest else g ∷ rest

-- The grant that one account has on one server: `s.get(ServerUser, (server_id, user_id))`
unfoldable pub find_grant : Text → ℕ → List ServerUser → Option (List String)
find_grant server_id user_id [] = none
find_grant server_id user_id (g ∷ gs) =
    if is_key server_id user_id g then some g.permissions else find_grant server_id user_id gs

-- `_grants_of`
unfoldable pub grants_of : List ServerUser → ℕ → List (Text × List String)
grants_of [] user_id = []
grants_of (g ∷ gs) user_id =
    let rest = grants_of gs user_id in
    if g.user_id == user_id then (g.server_id, g.permissions) ∷ rest else rest

-- A row that is there is changed in place; else one is added.
unfoldable pub put_grant : Text → ℕ → List String → List ServerUser → List ServerUser
put_grant server_id user_id perms [] =
    record { server_id = server_id; user_id = user_id; permissions = perms } ∷ []
put_grant server_id user_id perms (g ∷ gs) =
    let rest = put_grant server_id user_id perms gs in
    if is_key server_id user_id g then record g { permissions = perms } ∷ gs else g ∷ rest

-- `set_grant`, with the permissions that were stored, or `none` when the grant was removed
module _ (lib : Library) where
  unfoldable pub set_grant :
      Db
      → List Text
      → List ServerUser
      → Text
      → Text
      → List String
      → Result (List ServerUser × Option (List String))
  set_grant db servers table username server_id asked = do
    picked ← pick_grantable asked []
    let perms = with_view picked
    row ← require_row lib db username
    (if contains servers server_id then ok tt else raise "No such server." 404)
    (if is_empty perms
        then ok (without_grant server_id row.id table, none)
        else ok (put_grant server_id row.id perms table, some perms))
