-- ===== src/Examples/Rights.antt =====
-- Rights, tokens and grants.
use bless_forge.Base.{
  String, ◌+◌, ◌-◌, ◌*◌, ◌≤◌, ◌≡◌, refl, true, not, ◌&&◌, none, some, List, [], ◌∷◌, nat_eq,
  string_eq, Text, text_eq, contains, codes, All,
}
use bless_forge.Auth.Permissions.{permissions}
use bless_forge.Auth.Model.{ok, User, Account, as_dict}
use bless_forge.Auth.Rights.{
  effective_permissions, granted, limited, role_rights, grant_rights, in_scope, token_excludes,
  listed,
}
use bless_forge.Auth.RightsLaws.{without_token, token_never_more, effective_known}
use bless_forge.Auth.Accounts.{normalise_username}
use bless_forge.Auth.Store.{row_of, require_row, find_row}
use bless_forge.Access.Tokens.{
  ApiToken, NewToken, days, create_token, grantable_for, pick, pick_servers, expiry, count_of,
  max_tokens,
}
use bless_forge.Access.TokenLaws.{create_token-within}
use bless_forge.Access.Grants.{
  ServerUser, set_grant, put_grant, pick_grantable, with_view, grantable,
}
use bless_forge.Access.GrantLaws.{session_of, set_grant-in_force}
use bless_forge.Examples.Data.{plain_library, people, carol, limits, by_token, no_rack}

token_never_more_example : contains (effective_permissions by_token none) "console.command" ≡ (
    contains (effective_permissions (without_token by_token) none) "console.command"
    && contains limits.permissions "console.command")
token_never_more_example = token_never_more by_token limits none "console.command" refl

carol-command : contains (effective_permissions (as_dict carol) none) "console.command" ≡ true
unfolding effective_permissions limited granted role_rights grant_rights
carol-command = refl

effective_known_example : contains permissions "console.command" ≡ true
effective_known_example = effective_known (as_dict carol) none "console.command" carol-command

-- The permission that the account is denied is granted on one server.
abbrev carol_granted : Account
carol_granted = record (as_dict carol) { grants = (codes "smp", "backups.make" ∷ []) ∷ [] }

carol_granted-backups :
    contains (effective_permissions carol_granted (some (codes "smp"))) "backups.make" ≡ true
unfolding effective_permissions limited granted role_rights grant_rights
carol_granted-backups = refl

abbrev digest : Text → Text
digest token = token

abbrev new_token : NewToken
new_token = record {
  name = codes "ci";
  permissions = "console.command" ∷ [];
  servers = codes "smp" ∷ [];
  expires = days 30;
  token = codes "bf_x";
  id = 1;
}

abbrev made_token : ApiToken
made_token = record {
  id = 1;
  user_id = 3;
  name = codes "ci";
  token_sha256 = codes "bf_x";
  permissions = "console.command" ∷ [];
  servers = codes "smp" ∷ [];
  expires_at = some (1000 + 30 * 86400);
  last_used = none;
  last_ip = [];
}

token_made :
    create_token digest [] 1000 (as_dict carol) no_rack new_token ≡ ok (made_token ∷ [], made_token)
unfolding create_token bless_forge.Base.Strings.strip pick grantable_for effective_permissions
    limited granted role_rights pick_servers in_scope token_excludes listed expiry count_of
token_made = refl

create_token-within_example :
    All (λ p. contains (grantable_for (as_dict carol)) p ≡ true) made_token.permissions
    × All (λ sid. in_scope (some (as_dict carol)) (some sid) no_rack ≡ true) made_token.servers
    × (count_of 3 (made_token ∷ []) ≤ max_tokens)
create_token-within_example =
    create_token-within digest [] 1000 (as_dict carol) no_rack new_token token_made

abbrev table : List ServerUser
table = record { server_id = codes "smp"; user_id = 3; permissions = "server.view" ∷ [] } ∷ []

abbrev perms_on_hub : List String
perms_on_hub = "server.view" ∷ "files.write" ∷ []

abbrev table_after : List ServerUser
table_after =
    record { server_id = codes "smp"; user_id = 3; permissions = "server.view" ∷ [] }
    ∷ record { server_id = codes "hub"; user_id = 3; permissions = perms_on_hub }
    ∷ []

grant_set :
    set_grant plain_library people
      (codes "smp" ∷ codes "hub" ∷ [])
      table
      (codes "carol")
      (codes "hub")
      ("files.write" ∷ [])
    ≡ ok (table_after, some perms_on_hub)
unfolding set_grant pick_grantable grantable require_row row_of normalise_username
    bless_forge.Base.Strings.lower bless_forge.Base.Strings.strip find_row with_view put_grant
grant_set = refl

set_grant-in_force_example :
    (row : User) × (require_row plain_library people (codes "carol") ≡ ok row)
    × All
        (λ p.
          contains (effective_permissions (session_of row table_after) (some (codes "hub"))) p
          ≡ true)
        perms_on_hub
    × (in_scope (some (session_of row table_after)) (some (codes "hub")) no_rack ≡ not row.disabled)
set_grant-in_force_example =
    set_grant-in_force plain_library people (codes "smp" ∷ codes "hub" ∷ []) table (codes "carol")
      (codes "hub") ("files.write" ∷ []) no_rack grant_set
