-- ===== src/Auth/RightsLaws.antt =====
-- About `effective_permissions`, `may` and `in_scope` (app/auth.py).
use bless_forge.Base.{
  String, ◌≡◌, refl, inl, inr, true, false, not, ◌&&◌, ◌||◌, Option, none, some, List, arith,
  Bool-cases, and-true_left, and-true_right, or-true_cases, ◌==◌, nat_eq, string_eq, Text, text_eq,
  contains, contains-append, contains-keep_in, contains-keep_out, is_empty, all, get, all-contains,
}
use bless_forge.Auth.Permissions.{permissions, role_permissions}
use bless_forge.Auth.Model.{User, TokenLimits, Account}
use bless_forge.Auth.Rights.{
  role_rights, grant_rights, granted, limited, effective_permissions, token_excludes, in_scope,
  listed, list_or_empty,
}

abbrev pub without_token : Account → Account
without_token user = record user { via_token = none }

-- A right that an account has through a token is named by the token and is a right that the
-- account has without it, whatever its role is now.
pub token_never_more :
    (user : Account) (token : TokenLimits) (server_id : Option Text) (p : String)
    → user.via_token ≡ some token
    → contains (effective_permissions user server_id) p ≡ (
        contains (effective_permissions (without_token user) server_id) p
        && contains token.permissions p)
unfolding effective_permissions limited granted
token_never_more user token server_id p h = rw (h) (contains-keep_in token.permissions _ p)

-- The role lists hold known permissions only.
role_permissions-known :
    (role p : String)
    → contains (list_or_empty (get role_permissions role)) p ≡ true
    → contains permissions p ≡ true
role_permissions-known role p h =
    all-contains (contains permissions) (list_or_empty (get role_permissions role)) p (known role) h
  where
    known :
        (r : String) → all (contains permissions) (list_or_empty (get role_permissions r)) ≡ true
    known r = ground arith

module _ (p : String) where
  contains-role_rights :
      (row : User)
      → contains (role_rights row) p ≡ (
          (contains (list_or_empty (get role_permissions row.role)) p
            || (contains row.permissions p && contains permissions p))
          && not (contains row.denied p))
  unfolding role_rights
  contains-role_rights row = rw (contains-keep_out, contains-append, contains-keep_in)

  contains-grant_rights :
      (grants : List (Text × List String)) (sid : Text)
      → contains (grant_rights grants (some sid)) p
        ≡ (contains (list_or_empty (get grants sid)) p && contains permissions p)
  unfolding grant_rights
  contains-grant_rights grants sid = contains-keep_in permissions _ p

role_rights-known :
    (row : User) (p : String) → contains (role_rights row) p ≡ true → contains permissions p ≡ true
role_rights-known row p h =
    elim (or-true_cases _ _ (and-true_left _ _ (rw contains-role_rights at h))) [
      | inl k ↦ role_permissions-known row.role p k
      | inr k ↦ and-true_right _ _ k
    ]

grant_rights-known :
    (grants : List (Text × List String)) (server_id : Option Text) (p : String)
    → contains (grant_rights grants server_id) p ≡ true
    → contains permissions p ≡ true
grant_rights-known grants none p h = unfold grant_rights in cc
grant_rights-known grants (some sid) p h = and-true_right _ _ (rw contains-grant_rights at h)

granted-known :
    (user : Account) (server_id : Option Text) (p : String)
    → contains (granted user server_id) p ≡ true
    → contains permissions p ≡ true
unfolding granted
granted-known user server_id p h = elim (Bool-cases (user.role == "admin")) [
  | inl e ↦ rw e at h
  | inr e ↦ elim (or-true_cases _ _ (rw contains-append at (rw e at h))) [
    | inl k ↦ role_rights-known user.row p k
    | inr k ↦ grant_rights-known user.grants server_id p k
  ]
]

limited-granted :
    (token : Option TokenLimits) (ps : List String) (p : String)
    → contains (limited token ps) p ≡ true
    → contains ps p ≡ true
unfolding limited
limited-granted none ps p h = h
limited-granted (some token) ps p h = and-true_left _ _ (rw contains-keep_in at h)

-- Whatever the rows of the database hold, every right that an account has is on the permission
-- list: a name that was retired or made up gives nothing.
pub effective_known :
    (user : Account) (server_id : Option Text) (p : String)
    → contains (effective_permissions user server_id) p ≡ true
    → contains permissions p ≡ true
unfolding effective_permissions
effective_known user server_id p h =
    granted-known user server_id p (limited-granted user.via_token _ p h)

role_rights-not_denied :
    (row : User) (p : String)
    → contains (role_rights row) p ≡ true
    → not (contains row.denied p) ≡ true
role_rights-not_denied row p h = and-true_right _ _ (rw contains-role_rights at h)

-- A denied permission comes back only through a grant on the very server, or the admin role.
pub denied_stays :
    (user : Account) (server_id : Option Text) (p : String)
    → (user.role == "admin") ≡ false
    → contains user.denied p ≡ true
    → contains (effective_permissions user server_id) p ≡ true
    → contains (grant_rights user.grants server_id) p ≡ true
unfolding effective_permissions granted
denied_stays user server_id p e d h =
    elim (or-true_cases _ _
      (rw contains-append at (rw e at (limited-granted user.via_token _ p h)))) [
        | inl k ↦ let n = role_rights-not_denied user.row p k in let m = rw d at n in cc
        | inr k ↦ k
      ]

-- A token reaches a server when its owner does now and the token is not kept to other servers.
pub token_scope_never_more :
    (user : Account) (token : TokenLimits) (sid : Text) (rack_of : Text → Option Text)
    → user.via_token ≡ some token
    → in_scope (some user) (some sid) rack_of ≡ (
        in_scope (some (without_token user)) (some sid) rack_of
        && (is_empty token.servers || contains token.servers sid))
unfolding in_scope token_excludes
token_scope_never_more user token sid rack_of h = rw h (ground (arith, same_listed))
  where
    same_listed : listed user sid rack_of ≡ listed (without_token user) sid rack_of
    same_listed = unfold listed in refl
