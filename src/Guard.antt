-- ===== src/Guard.antt =====
-- app/main.py: the middleware that decides whether a request may proceed. The session and the token
-- lookups (Auth/Sessions, Access/Tokens) are made before it; their results are its arguments.
pub mod Passed
pub mod Laws
use bless_forge.Base.{
  String, ℕ, ◌/◌, Bool, true, not, ◌&&◌, ◌||◌, Option, none, some, List, [], ◌∷◌, ltb,
  if◌then◌else◌, is_some, ◌==◌, nat_eq, string_eq, Text, text_eq, contains, codes, ◌>>=◌, ◌>>◌,
}
use bless_forge.Auth.Model.{Account}
use bless_forge.Auth.Rights.{may, in_scope}
use bless_forge.Base.Strings.{starts_with}
use bless_forge.Policy.Pattern.{upper}
use bless_forge.Policy.Entry.{public, any, admin, deny, node}
use bless_forge.Policy.{required, server_id_of}

-- `pass` calls the route, with the account that the request carries; `refuse` answers.
pub data Verdict : Type 0 where
  pass : Option Account → Verdict
  refuse : ℕ → String → Verdict

-- The session's account, or else the one behind the bearer token.
unfoldable pub caller : Option Account → Option Account → Option Account
caller none token = token
caller (some user) token = some user

abbrev pub open_paths : List Text
open_paths = codes "/api/auth/password" ∷ codes "/api/auth/session" ∷ codes "/api/auth/logout" ∷ []

unfoldable pub permitted : Account → Text → String → Bool → Bool
permitted user path permission scoped =
    permission == any || may (some user) permission (if scoped then server_id_of path else none)

-- `if sid and not auth.in_scope(...)`
unfoldable pub reaches : (Text → Option Text) → Account → Option Text → Bool
reaches rack_of user none = true
reaches rack_of user (some sid) = in_scope (some user) (some sid) rack_of

-- The scope check, and then the route.
unfoldable pub check_scope : (Text → Option Text) → Account → Text → Bool → Verdict
check_scope rack_of user path scoped =
    if scoped && not (reaches rack_of user (server_id_of path))
    then refuse 404 "Not found."
    else pass (some user)

-- The tests of the permission: the admin role, or the permission itself.
unfoldable pub authorise_right : (Text → Option Text) → Account → Text → String → Bool → Verdict
authorise_right rack_of user path permission scoped =
    if permission == admin
    then (if user.role == "admin"
        then check_scope rack_of user path scoped
        else refuse 403 "Admins only.")
    else if permitted user path permission scoped
    then check_scope rack_of user path scoped
    else refuse 403 "You do not have permission to do that"

abbrev pub token_blocked : Account → Text → String → Bool
token_blocked user path permission =
    is_some user.via_token && (permission == admin || starts_with path (codes "/api/auth/"))

abbrev pub password_due : Account → Text → Bool
password_due user path = user.must_change && not (contains open_paths path)

-- What follows once the caller is known.
unfoldable pub authorise : (Text → Option Text) → Account → Text → String → Bool → Verdict
authorise rack_of user path permission scoped =
    if token_blocked user path permission
    then refuse 403 "API tokens cannot do that; sign in instead."
    else if password_due user path
    then refuse 403 "Set a new password before continuing."
    else if permission == deny
    then refuse 404 "Not found."
    else authorise_right rack_of user path permission scoped

abbrev pub authorise_caller : (Text → Option Text) → Option Account → Text → String × Bool → Verdict
authorise_caller rack_of none path rule = refuse 401 "Sign in to continue."
authorise_caller rack_of (some user) path rule = authorise rack_of user path rule.0 rule.1

unfoldable pub guard :
    (Text → Option Text) → Text → Text → Option Account → Option Account → Verdict
guard rack_of method path session token =
    let rule = required (upper method) path in
    if not (starts_with path (codes "/api"))
    then pass none
    else if upper method == codes "OPTIONS"
    then pass none
    else if rule.0 == public || rule.0 == node
    then pass none
    else authorise_caller rack_of (caller session token) path rule

-- Whether the request is written to the audit log, after the route has answered with `status`.
unfoldable pub is_recorded : Text → ℕ → String → Bool
is_recorded method status permission =
    not (method == codes "GET") && ltb status 400 && not (permission == any || permission == public)
