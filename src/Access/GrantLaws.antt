-- ===== src/Access/GrantLaws.antt =====
-- About `set_grant` and the grants that a session reads (app/access.py).
use bless_forge.Base.{
  All, All-contains, String, ℕ, ◌≡◌, refl, ◌⊎◌, inl, inr, true, false, not, ◌&&◌, Option, none,
  some, List, [], ◌∷◌, arith, if◌then◌else◌, Bool-cases, or-true_cases, ◌==◌, ==_iff, nat_eq,
  string_eq, Text, text_eq, ==_refl, contains, add_once, contains-add_once, contains-append,
  contains-keep_in, is_empty, get,
}
use bless_forge.Auth.Permissions.{permissions}
use bless_forge.Auth.Model.{ok, raise, >>=-eq-ok, User, Account, as_dict}
use bless_forge.Auth.Rights.{
  effective_permissions, granted, limited, grant_rights, in_scope, listed, token_excludes,
}
use bless_forge.Auth.Accounts.{Library}
use bless_forge.Auth.Store.{Db, require_row}
use bless_forge.Access.Grants.{
  ServerUser, grantable, pick_grantable, with_view, find_grant, grants_of, put_grant, set_grant,
}

-- What the dictionary of grants that a session carries says of a server is the row of the table.
get-grants_of :
    (table : List ServerUser) (user_id : ℕ) (server_id : Text)
    → get (grants_of table user_id) server_id ≡ find_grant server_id user_id table
unfolding grants_of find_grant
get-grants_of [] user_id server_id = refl
get-grants_of (g ∷ gs) user_id server_id = ground (
  arith,
  get-grants_of gs user_id server_id,
  ==_iff server_id g.server_id,
  ==_iff g.server_id server_id,
  ==_refl server_id,
)

find_grant-put_grant_self :
    (sid : Text) (uid : ℕ) (ps : List String) (table : List ServerUser)
    → find_grant sid uid (put_grant sid uid ps table) ≡ some ps
unfolding find_grant put_grant
find_grant-put_grant_self sid uid ps [] = ground (arith, ==_refl sid, ==_refl uid)
find_grant-put_grant_self sid uid ps (g ∷ gs) =
    ground (arith, find_grant-put_grant_self sid uid ps gs, ==_refl sid)

-- Changing one grant leaves every other as it was.
pub find_grant-put_grant_ne :
    (sid sid' : Text) (uid uid' : ℕ) (ps : List String) (table : List ServerUser)
    → (sid' == sid && uid' == uid) ≡ false
    → find_grant sid uid (put_grant sid' uid' ps table) ≡ find_grant sid uid table
unfolding find_grant put_grant
find_grant-put_grant_ne sid sid' uid uid' ps [] h = rw h refl
find_grant-put_grant_ne sid sid' uid uid' ps (g ∷ gs) h = ground (
  arith,
  find_grant-put_grant_ne sid sid' uid uid' ps gs h,
  ==_iff g.server_id sid,
  ==_iff g.server_id sid',
  ==_iff sid' sid,
)

pick_grantable-known :
    (ps out r : List String) (p : String)
    → pick_grantable ps out ≡ ok r
    → contains r p ≡ true
    → (contains out p ≡ true) ⊎ ((contains permissions p ≡ true) × (contains grantable p ≡ true))
unfolding pick_grantable
pick_grantable-known [] out r p h m = let same : out ≡ r = ground arith in inl (rw same m)
pick_grantable-known (q ∷ ps) out r p h m = elim (Bool-cases (contains permissions q)) [
  | inl known ↦ elim (Bool-cases (contains grantable q)) [
    | inl given ↦ elim (pick_grantable-known ps (add_once out q) r p (rw (known, given) at h) m) [
      | inl taken ↦ elim (contains-add_once out q p taken) [
        | inl before ↦ inl before
        | inr now ↦ inr (rw now known, rw now given)
      ]
      | inr other ↦ inr other
    ]
    | inr refused ↦ absurd (let k = rw (known, refused) at h in cc)
  ]
  | inr unknown ↦ absurd (let k = rw unknown at h in cc)
]

contains-with_view :
    (ps : List String) (p : String)
    → contains (with_view ps) p ≡ true
    → (p ≡ "server.view") ⊎ (contains ps p ≡ true)
unfolding with_view
contains-with_view ps p h =
    elim (Bool-cases (not (is_empty ps) && not (contains ps "server.view"))) [
      | inl e ↦ elim (or-true_cases (p == "server.view") (contains ps p) (rw e at h)) [
        | inl k ↦ inl ((==_iff p "server.view").0 k)
        | inr k ↦ inr k
      ]
      | inr e ↦ inr (rw e at h)
    ]

with_view-known :
    (asked picked : List String) (p : String)
    → pick_grantable asked [] ≡ ok picked
    → contains (with_view picked) p ≡ true
    → contains permissions p ≡ true
with_view-known asked picked p h m = elim (contains-with_view picked p m) [
  | inl view ↦ rw view refl
  | inr there ↦ elim (pick_grantable-known asked [] picked p h there) [
    | inl k ↦ absurd (cc)
    | inr k ↦ k.0
  ]
]

contains-granted :
    (user : Account) (sid : Text) (ps : List String) (p : String)
    → get user.grants sid ≡ some ps
    → contains ps p ≡ true
    → contains permissions p ≡ true
    → contains (granted user (some sid)) p ≡ true
unfolding granted
contains-granted user sid ps p g m k = elim (Bool-cases (user.role == "admin")) [
  | inl e ↦ rw e k
  | inr e ↦
      let there : contains (grant_rights user.grants (some sid)) p ≡ true =
        unfold grant_rights in rw g (rw contains-keep_in (rw (m, k) refl)) in
      rw e (rw contains-append (ground (arith, there)))
]

in_scope-granted :
    (user : Account) (sid : Text) (ps : List String) (rack_of : Text → Option Text)
    → user.via_token ≡ none
    → get user.grants sid ≡ some ps
    → in_scope (some user) (some sid) rack_of ≡ not user.disabled
unfolding in_scope token_excludes
in_scope-granted user sid ps rack_of t g = rw t (ground (arith, there))
  where
    there : listed user sid rack_of ≡ true
    there = unfold listed in rw g (ground arith)

-- The account as a session sees it after the table was changed.
abbrev pub session_of : User → List ServerUser → Account
session_of row table = record (as_dict row) { grants = grants_of table row.id }

-- What `set_grant` stored is in force on the server at once: the account that it was given to holds
-- every permission of the grant there, and reaches the server unless it is disabled.
pub set_grant-in_force :
    (lib : Library) (db : Db) (servers : List Text) (table : List ServerUser) (username sid : Text)
    (asked : List String) (rack_of : Text → Option Text) {table' : List ServerUser}
    {perms : List String}
    → set_grant lib db servers table username sid asked ≡ ok (table', some perms)
    → (row : User) × (require_row lib db username ≡ ok row)
      × All
          (λ p. contains (effective_permissions (session_of row table') (some sid)) p ≡ true)
          perms
      × (in_scope (some (session_of row table')) (some sid) rack_of ≡ not row.disabled)
unfolding set_grant
set_grant-in_force lib db servers table username sid asked rack_of {table'} {perms} h =
    let (picked, p₁, h₁) = >>=-eq-ok (pick_grantable asked []) _ h in
    let (row, p₂, h₂) = >>=-eq-ok (require_row lib db username) _ h₁ in
    let (_, p₃, h₃) =
      >>=-eq-ok (if contains servers sid then ok tt else raise "No such server." 404) _ h₂ in
    let e₁ : perms ≡ with_view picked = ground arith in
    let e₂ : table' ≡ put_grant sid row.id perms table = ground arith in
    let g : get (grants_of table' row.id) sid ≡ some perms =
      rw (e₂, get-grants_of) (find_grant-put_grant_self sid row.id perms table) in
    (
      row,
      p₂,
      All-contains _ perms (λ p m.
          unfold effective_permissions limited in
          contains-granted (session_of row table') sid perms p g m
            (with_view-known asked picked p p₁ (rw e₁ at m))),
      in_scope-granted (session_of row table') sid perms rack_of refl g,
    )
