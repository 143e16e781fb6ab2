-- ===== src/Examples/Routes.antt =====
-- Requests against the route table and the guard.
use bless_forge.Base.{
  ◌≡◌, refl, ◌≢◌, ◌⊎◌, true, false, Option, none, some, nat_eq, string_eq, Text, text_eq, codes,
}
use bless_forge.Auth.Model.{Account, as_dict}
use bless_forge.Auth.Rights.{
  may, effective_permissions, granted, limited, role_rights, grant_rights, in_scope, token_excludes,
  listed,
}
use bless_forge.Policy.Entry.{deny, admin}
use bless_forge.Policy.Pattern.{strip_prefix, upper}
use bless_forge.Policy.{required, server_id_of, method_name, trimmed}
use bless_forge.Policy.Open.{OneOf, open_routes}
use bless_forge.Policy.Safety.{server_route_scoped, admin_area}
use bless_forge.Base.Strings.{starts_with}
use bless_forge.Guard.{
  guard, caller, permitted, reaches, check_scope, authorise, authorise_right, pass, refuse,
}
use bless_forge.Guard.Passed.{HasRight, InReach}
use bless_forge.Guard.Laws.{guard_sound, guard_restricts, guard_anonymous}
use bless_forge.Examples.Data.{carol, no_rack}

abbrev backups : Text
backups = codes "/api/instances/smp/backups"

abbrev users_route : Text
users_route = codes "/api/admin/users"

required-backups : required (codes "GET") backups ≡ ("server.view", true)
unfolding required
required-backups = refl

server_id_of-backups : server_id_of backups ≡ some (codes "smp")
unfolding server_id_of
server_id_of-backups = refl

server_route_scoped_example :
    (required (codes "GET") backups ≡ (deny, false))
    ⊎ ((required (codes "GET") backups).1 ≡ true)
    ⊎ ((required (codes "GET") backups).0 ≡ admin)
server_route_scoped_example =
    server_route_scoped (codes "GET") backups (codes "smp") server_id_of-backups

strip_prefix-users : strip_prefix admin_area users_route ≡ some (codes "/users")
unfolding strip_prefix
strip_prefix-users = refl

guard-backups :
    guard no_rack (codes "get") backups (some (as_dict carol)) none ≡ pass (some (as_dict carol))
unfolding guard starts_with upper required caller authorise authorise_right permitted may
    effective_permissions limited granted role_rights check_scope reaches server_id_of in_scope
    listed token_excludes grant_rights
guard-backups = refl

guard_sound_example :
    (caller (some (as_dict carol)) none ≡ some (as_dict carol))
    × HasRight (as_dict carol) backups (required (upper (codes "get")) backups)
    × InReach no_rack (as_dict carol) backups (required (upper (codes "get")) backups).1
guard_sound_example =
    guard_sound no_rack (codes "get") backups (some (as_dict carol)) none guard-backups

guard_restricts_example :
    (((as_dict carol).via_token ≡ none)
      ⊎ (((required (upper (codes "get")) backups).0 ≢ admin)
          × (strip_prefix (codes "/api/admin") backups ≡ none)
          × (starts_with backups (codes "/api/auth/") ≡ false)))
    × (((as_dict carol).must_change ≡ false)
        ⊎ (backups ≡ codes "/api/auth/password")
        ⊎ (backups ≡ codes "/api/auth/session")
        ⊎ (backups ≡ codes "/api/auth/logout"))
guard_restricts_example =
    guard_restricts no_rack (codes "get") backups (some (as_dict carol)) none guard-backups

abbrev no_account : Option Account
no_account = none

abbrev login : Text
login = codes "/api/auth/login/"

guard-login : guard no_rack (codes "post") login none none ≡ pass none
unfolding guard starts_with upper required
guard-login = refl

guard-no_account : guard no_rack (codes "get") backups none none ≡ refuse 401 "Sign in to continue."
unfolding guard starts_with upper required caller
guard-no_account = refl

guard_anonymous_example :
    (no_account ≡ none)
    × ((starts_with login (codes "/api") ≡ false)
        ⊎ (upper (codes "post") ≡ codes "OPTIONS")
        ⊎ OneOf open_routes (method_name (upper (codes "post"))) (trimmed login))
guard_anonymous_example = guard_anonymous no_rack (codes "post") login guard-login
