-- ===== src/Auth/Rights.antt =====
-- app/auth.py: what an account may do, and on which servers.
use bless_forge.Base.{
  String, Bool, true, false, not, ◌&&◌, ◌||◌, Option, none, some, List, [], ◌++◌, if◌then◌else◌,
  is_some, ◌==◌, nat_eq, string_eq, Text, text_eq, contains, keep_in, keep_out, take, is_empty, get,
}
use bless_forge.Auth.Permissions.{permissions, role_permissions}
use bless_forge.Auth.Model.{User, ScopeRecord, TokenLimits, Account}

abbrev pub list_or_empty : Option (List String) → List String
list_or_empty none = []
list_or_empty (some ps) = ps

-- The role's permissions and the account's own, less the denied ones.
unfoldable pub role_rights : User → List String
role_rights row =
    keep_out row.denied
      (list_or_empty (get role_permissions row.role) ++ keep_in permissions row.permissions)

-- What was granted on one server.
unfoldable pub grant_rights : List (Text × List String) → Option Text → List String
grant_rights grants none = []
grant_rights grants (some sid) = keep_in permissions (list_or_empty (get grants sid))

unfoldable pub granted : Account → Option Text → List String
granted user server_id =
    if user.role == "admin"
    then permissions
    else role_rights user.row ++ grant_rights user.grants server_id

unfoldable pub limited : Option TokenLimits → List String → List String
limited none ps = ps
limited (some token) ps = keep_in token.permissions ps

-- The set, as a list; only membership is ever asked of it.
unfoldable pub effective_permissions : Account → Option Text → List String
effective_permissions user server_id = limited user.via_token (granted user server_id)

unfoldable pub may : Option Account → String → Option Text → Bool
may none permission server_id = false
may (some user) permission server_id =
    not user.disabled && contains (effective_permissions user server_id) permission

-- A token kept to some servers, and this is not one of them.
unfoldable pub token_excludes : Option TokenLimits → Option Text → Bool
token_excludes none server_id = false
token_excludes (some token) none = false
token_excludes (some token) (some sid) =
    not (is_empty token.servers) && not (contains token.servers sid)

-- `rack_of(server_id) in racks`; `rack_of` gives `none` for a server on no rack, and no rack is
-- called that.
abbrev pub on_rack : (Text → Option Text) → List Text → Text → Bool
on_rack rack_of racks sid = elim (rack_of sid) [ none ↦ false | some rack ↦ contains racks rack ]

-- The server is listed, granted, or on a rack that is listed.
unfoldable pub listed : Account → Text → (Text → Option Text) → Bool
listed user sid rack_of =
    contains user.scope.servers sid
    || is_some (get user.grants sid)
    || on_rack rack_of user.scope.racks sid

unfoldable pub in_scope : Option Account → Option Text → (Text → Option Text) → Bool
in_scope none server_id rack_of = false
in_scope (some user) server_id rack_of =
    if user.disabled
    then false
    else if token_excludes user.via_token server_id
    then false
    else if user.role == "admin"
    then true
    else if user.scope.every
    then true
    else elim server_id [ none ↦ true | some sid ↦ listed user sid rack_of ]

-- `_clean_scope`; `none` is a scope that is not a dictionary.
unfoldable pub clean_scope : Option ScopeRecord → ScopeRecord
clean_scope none = record { every = false; servers = []; racks = [] }
clean_scope (some scope) = record {
  every = scope.every;
  servers = take 200 scope.servers;
  racks = take 80 scope.racks;
}
