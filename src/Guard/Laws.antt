-- ===== src/Guard/Laws.antt =====
-- About the requests that pass `guard` (app/main.py).
use bless_forge.Base.{
  String, ◌≡◌, ap, ◌≢◌, ◌⊎◌, inl, inr, Bool, false, ◌||◌, Option, none, some, arith, Bool-cases,
  Option-cases, ◌==◌, ==_iff, nat_eq, string_eq, Text, text_eq, codes,
}
use bless_forge.Auth.Model.{Account}
use bless_forge.Policy.Pattern.{upper, strip_prefix}
use bless_forge.Policy.Entry.{public, admin, deny, node}
use bless_forge.Policy.Safety.{scoped_names_server, admin_area, admin_area_closed}
use bless_forge.Policy.Open.{OneOf, open_routes, required_open}
use bless_forge.Policy.{required, method_name, trimmed}
use bless_forge.Base.Strings.{starts_with}
use bless_forge.Guard.{pass, caller, reaches, token_blocked, password_due, guard}
use bless_forge.Guard.Passed.{
  HasRight, InReach, check_scope-pass, refused, authorise_right-pass, authorise-pass,
  authorise_caller-pass, guard-pass,
}

-- A request to the API that is passed on with an account: the account is the session's, or else the
-- token's; it has the right that the route's rule asks for; where the rule is scoped the path names
-- a server, and the account reaches it.
pub guard_sound :
    (rack_of : Text → Option Text) (method path : Text) (session token : Option Account)
    {user : Account}
    → guard rack_of method path session token ≡ pass (some user)
    → (caller session token ≡ some user)
      × HasRight user path (required (upper method) path)
      × InReach rack_of user path (required (upper method) path).1
guard_sound rack_of method path session token {user} h =
    let rule = required (upper method) path in
    let (who, a) =
      authorise_caller-pass rack_of (caller session token) path rule
        (guard-pass rack_of method path session token h) in
    let (t, c, d, r) = authorise-pass rack_of user path rule a in
    let (right, k) = authorise_right-pass rack_of user path rule r in
    let reach = (check_scope-pass rack_of user path rule.1 k).1 in
    (
      who,
      right,
      elim (Bool-cases rule.1) [
        | inl scoped ↦
            let (sid, e) =
              scoped_names_server (upper method) path rule.0
                (ap (λ (b : Bool). (rule.0, b)) scoped) in
            inr (sid, e, unfold reaches in (rw e at (reach scoped)))
        | inr open_route ↦ inl open_route
      ],
    )

via_token-cases :
    (user : Account) (path : Text) (permission : String)
    → token_blocked user path permission ≡ false
    → (user.via_token ≡ none)
      ⊎ (((permission == admin) ≡ false) × (starts_with path (codes "/api/auth/") ≡ false))
via_token-cases user path permission h = elim (Option-cases user.via_token) [
  | inl e ↦ inl e
  | inr (token, e) ↦
      let k : (permission == admin || starts_with path (codes "/api/auth/")) ≡ false = rw e at h in
      inr (ground (arith, k), ground (arith, k))
]

outside_admin_area :
    (method path : Text)
    → ((required method path).0 == deny) ≡ false
    → ((required method path).0 == admin) ≡ false
    → strip_prefix admin_area path ≡ none
outside_admin_area method path d a = elim (Option-cases (strip_prefix admin_area path)) [
  | inl e ↦ e
  | inr (rest, e) ↦ absurd (elim (admin_area_closed method path rest e) [
    | inl refused_all ↦ let k = rw refused_all at d in cc
    | inr admins ↦ let k = rw admins at a in cc
  ])
]

password_due-cases :
    (user : Account) (path : Text)
    → password_due user path ≡ false
    → (user.must_change ≡ false)
      ⊎ (path ≡ codes "/api/auth/password")
      ⊎ (path ≡ codes "/api/auth/session")
      ⊎ (path ≡ codes "/api/auth/logout")
password_due-cases user path h = ground (
  arith,
  h,
  ==_iff path (codes "/api/auth/password"),
  ==_iff path (codes "/api/auth/session"),
  ==_iff path (codes "/api/auth/logout"),
)

-- A request that is passed on with an account: it came with no token, or its rule is not for admins
-- only and its path is neither under /api/admin nor under /api/auth/; and the account's password
-- need not change, or the path is one of /api/auth/password, /api/auth/session, /api/auth/logout.
pub guard_restricts :
    (rack_of : Text → Option Text) (method path : Text) (session token : Option Account)
    {user : Account}
    → guard rack_of method path session token ≡ pass (some user)
    → ((user.via_token ≡ none)
        ⊎ (((required (upper method) path).0 ≢ admin)
            × (strip_prefix (codes "/api/admin") path ≡ none)
            × (starts_with path (codes "/api/auth/") ≡ false)))
      × ((user.must_change ≡ false)
          ⊎ (path ≡ codes "/api/auth/password")
          ⊎ (path ≡ codes "/api/auth/session")
          ⊎ (path ≡ codes "/api/auth/logout"))
guard_restricts rack_of method path session token {user} h =
    let rule = required (upper method) path in
    let (who, a) =
      authorise_caller-pass rack_of (caller session token) path rule
        (guard-pass rack_of method path session token h) in
    let (t, c, d, r) = authorise-pass rack_of user path rule a in
    (
      elim (via_token-cases user path rule.0 t) [
        | inl e ↦ inl e
        | inr (a, o) ↦
            inr (
              (λ e. absurd (let k = rw e at a in cc)),
              outside_admin_area (upper method) path d a,
              o,
            )
      ],
      password_due-cases user path c,
    )

-- A request that is passed on though it came with neither session nor token is passed on without an
-- account, and it is outside /api, an OPTIONS request, or one of the eight open routes, the status
-- and sign-in ones and those of the node agents, up to slashes at the end of the path.
pub guard_anonymous :
    (rack_of : Text → Option Text) (method path : Text) {who : Option Account}
    → guard rack_of method path none none ≡ pass who
    → (who ≡ none)
      × ((starts_with path (codes "/api") ≡ false)
          ⊎ (upper method ≡ codes "OPTIONS")
          ⊎ OneOf open_routes (method_name (upper method)) (trimmed path))
unfolding guard caller
guard_anonymous rack_of method path {who} h = elim (Bool-cases (starts_with path (codes "/api"))) [
  | inr a ↦ (let k = rw a at h in cc, inl a)
  | inl a ↦ elim (Bool-cases (upper method == codes "OPTIONS")) [
    | inl o ↦
        (let k = rw (a, o) at h in cc, inr (inl ((==_iff (upper method) (codes "OPTIONS")).0 o)))
    | inr o ↦
        elim (Bool-cases (
          (required (upper method) path).0 == public || (required (upper method) path).0 == node)) [
            | inl p ↦
                (let k = rw (a, o, p) at h in cc, inr (inr (required_open (upper method) path p)))
            | inr p ↦ refused (rw (a, o, p) at h)
          ]
  ]
]
