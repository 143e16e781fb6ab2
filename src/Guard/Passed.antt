-- ===== src/Guard/Passed.antt =====
-- What each test of `guard` (app/main.py) lets pass.
use mathlib.Core.Path.{subst}
use mathlib.Core.Option.{some-injective}
use bless_forge.Base.{
  String, ℕ, ◌≡◌, sym, ◌⊎◌, inl, inr, Bool, true, false, ◌||◌, Option, none, some, arith,
  if◌then◌else◌, Bool-cases, ◌==◌, ==_iff, nat_eq, string_eq, Text, text_eq, codes,
}
use bless_forge.Auth.Model.{Account}
use bless_forge.Auth.Rights.{may, in_scope}
use bless_forge.Policy.Pattern.{upper}
use bless_forge.Policy.Entry.{public, any, admin, deny, node}
use bless_forge.Policy.{required, server_id_of}
use bless_forge.Base.Strings.{starts_with}
use bless_forge.Guard.{
  pass, refuse, caller, permitted, reaches, check_scope, authorise, authorise_right, token_blocked,
  password_due, authorise_caller, guard,
}

-- The caller's rights for a rule: admins only, any account, or the permission.
abbrev pub HasRight : Account → Text → String × Bool → Type 0
HasRight user path rule =
    ((rule.0 ≡ admin) × (user.role ≡ "admin"))
    ⊎ (rule.0 ≡ any)
    ⊎ (may (some user) rule.0 (if rule.1 then server_id_of path else none) ≡ true)

-- The route is not scoped, or it names a server and the caller reaches it.
abbrev pub InReach : (Text → Option Text) → Account → Text → Bool → Type 0
InReach rack_of user path scoped =
    (scoped ≡ false)
    ⊎ ((sid : Text) × (server_id_of path ≡ some sid)
        × (in_scope (some user) (some sid) rack_of ≡ true))

pub check_scope-pass :
    (rack_of : Text → Option Text) (user : Account) (path : Text) (scoped : Bool)
    {who : Option Account}
    → check_scope rack_of user path scoped ≡ pass who
    → (who ≡ some user) × (scoped ≡ true → reaches rack_of user (server_id_of path) ≡ true)
unfolding check_scope
check_scope-pass rack_of user path scoped h = (ground arith, λ s. ground arith)

pub refused :
    {status : ℕ} {message : String} {who : Option Account} {P : Type 0}
    → refuse status message ≡ pass who
    → P
refused h = absurd (cc)

module _ (rack_of : Text → Option Text) (user : Account) (path : Text) where
  pub authorise_right-pass :
      (rule : String × Bool) {who : Option Account}
      → authorise_right rack_of user path rule.0 rule.1 ≡ pass who
      → HasRight user path rule × (check_scope rack_of user path rule.1 ≡ pass who)
  unfolding authorise_right permitted
  authorise_right-pass (permission, scoped) h = elim (Bool-cases (permission == admin)) [
    | inl a ↦ elim (Bool-cases (user.role == "admin")) [
      | inl r ↦
          (inl ((==_iff permission admin).0 a, (==_iff user.role "admin").0 r), rw (a, r) at h)
      | inr r ↦ refused (rw (a, r) at h)
    ]
    | inr a ↦ elim (Bool-cases (permission == any)) [
      | inl e ↦ (inr (inl ((==_iff permission any).0 e)), rw (a, e) at h)
      | inr e ↦
          elim (Bool-cases
            (may (some user) permission (if scoped then server_id_of path else none))) [
              | inl m ↦ (inr (inr m), rw (a, e, m) at h)
              | inr m ↦ refused (rw (a, e, m) at h)
            ]
    ]
  ]

  pub authorise-pass :
      (rule : String × Bool) {who : Option Account}
      → authorise rack_of user path rule.0 rule.1 ≡ pass who
      → (token_blocked user path rule.0 ≡ false)
        × (password_due user path ≡ false)
        × ((rule.0 == deny) ≡ false)
        × (authorise_right rack_of user path rule.0 rule.1 ≡ pass who)
  unfolding authorise
  authorise-pass (permission, scoped) h = elim (Bool-cases (token_blocked user path permission)) [
    | inl e ↦ refused (rw e at h)
    | inr t ↦ elim (Bool-cases (password_due user path)) [
      | inl e ↦ refused (rw (t, e) at h)
      | inr c ↦ elim (Bool-cases (permission == deny)) [
        | inl e ↦ refused (rw (t, c, e) at h)
        | inr d ↦ (t, c, d, rw (t, c, d) at h)
      ]
    ]
  ]

pub authorise_caller-pass :
    (rack_of : Text → Option Text) (who : Option Account) (path : Text) (rule : String × Bool)
    {user : Account}
    → authorise_caller rack_of who path rule ≡ pass (some user)
    → (who ≡ some user) × (authorise rack_of user path rule.0 rule.1 ≡ pass (some user))
authorise_caller-pass rack_of none path rule h = refused h
authorise_caller-pass rack_of (some u) path rule {user} h =
    let (t, c, d, r) = authorise-pass rack_of u path rule h in
    let (right, k) = authorise_right-pass rack_of u path rule r in
    let same = (check_scope-pass rack_of u path rule.1 k).0 in
    let e : user ≡ u = some-injective user u same in
    (
      sym same,
      subst (λ (v : Account). authorise rack_of v path rule.0 rule.1 ≡ pass (some user)) (sym e) h,
    )

pub guard-pass :
    (rack_of : Text → Option Text) (method path : Text) (session token : Option Account)
    {user : Account}
    → guard rack_of method path session token ≡ pass (some user)
    → authorise_caller rack_of (caller session token) path (required (upper method) path)
      ≡ pass (some user)
unfolding guard
guard-pass rack_of method path session token h =
    elim (Bool-cases (starts_with path (codes "/api"))) [
      | inl a ↦ elim (Bool-cases (upper method == codes "OPTIONS")) [
        | inl o ↦ absurd (let k = rw (a, o) at h in cc)
        | inr o ↦
            elim (Bool-cases (
              (required (upper method) path).0 == public
              || (required (upper method) path).0 == node)) [
                | inl p ↦ absurd (let k = rw (a, o, p) at h in cc)
                | inr p ↦ rw (a, o, p) at h
              ]
      ]
      | inr a ↦ absurd (let k = rw a at h in cc)
    ]
