-- ===== src/Policy/Safety.antt =====
-- About the rule table as a whole (app/policy.py).
use bless_forge.Base.{
  String, ◌≡◌, refl, ap, ◌⊎◌, inl, inr, Bool, true, false, not, ◌||◌, List, [], ◌∷◌, some, Text,
  ◌==◌, ==_iff, string_eq, codes, all, contains, is_empty, arith, Bool-cases, or-true_cases,
}
use bless_forge.Auth.Permissions.{permissions}
use bless_forge.Policy.Pattern.{matches, strip_prefix, rstrip}
use bless_forge.Policy.Entry.{Rule, public, any, admin, deny, node}
use bless_forge.Policy.Matching.{
  segment_after, clashes, captured_of_matches, strip_prefix_of_clashes, captured-rstrip,
  strip_prefix-rstrip,
}
use bless_forge.Policy.Scope.{Decides-all, required_cases}
use bless_forge.Policy.{rules, captured, server_id_of, applies, method_name, trimmed, required}

abbrev instances : Text
instances = codes "/api/instances/"

abbrev names_server : Rule → Bool
names_server r = not r.scoped || segment_after instances r.pattern

abbrev scoped_if_server : Rule → Bool
scoped_if_server r = r.scoped || r.permission == admin || clashes instances r.pattern

abbrev pub admin_area : Text
admin_area = codes "/api/admin"

abbrev admin_only : Rule → Bool
admin_only r = r.permission == admin || clashes admin_area r.pattern

abbrev pub sentinels : List String
sentinels = public ∷ any ∷ admin ∷ node ∷ []

abbrev known : Rule → Bool
known r = contains sentinels r.permission || contains permissions r.permission

names_server_table : all names_server rules ≡ true
unfolding rules
names_server_table = refl

scoped_if_server_table : all scoped_if_server rules ≡ true
unfolding rules
scoped_if_server_table = refl

admin_only_table : all admin_only rules ≡ true
unfolding rules
admin_only_table = refl

known_table : all known rules ≡ true
unfolding rules
known_table = refl

server_id_of-trimmed : (path : Text) → server_id_of (trimmed path) ≡ server_id_of path
unfolding server_id_of trimmed
server_id_of-trimmed path = elim (Bool-cases (is_empty (rstrip path))) [
  | inl e ↦ rw (e, ← captured-rstrip instances path) (rw (rstrip_empty path e))
  | inr e ↦ rw e (captured-rstrip instances path)
]
  where
    rstrip_empty : (p : Text) → is_empty (rstrip p) ≡ true → rstrip p ≡ []
    rstrip_empty p h = ground arith

applies-matches :
    (method path : Text) (r : Rule) → applies method path r ≡ true → matches r.pattern path ≡ true
unfolding applies
applies-matches method path r h = ground arith

-- A route whose rule is scoped has a server id in its path, so the scope check is never skipped
-- for want of one.
pub scoped_names_server :
    (method path : Text) (permission : String)
    → required method path ≡ (permission, true)
    → (id : Text) × (server_id_of path ≡ some id)
scoped_names_server method path permission h = elim (required_cases method path) [
  | inl (e, _) ↦ absurd (cc)
  | inr d ↦
      let q = Decides-all names_server names_server_table d in
      let m = applies-matches (method_name method) (trimmed path) d.by d.applied in
      let s : d.by.scoped ≡ true = cc (d.answered, h) in
      let (id, e) = captured_of_matches instances d.by.pattern (trimmed path) (ground arith) m in
      (id, (rw (← server_id_of-trimmed path) (unfold server_id_of in e)))
]

-- Every route under one server is refused to all, for admins only, or checked against the
-- caller's scope.
pub server_route_scoped :
    (method path id : Text)
    → server_id_of path ≡ some id
    → (required method path ≡ (deny, false))
      ⊎ ((required method path).1 ≡ true)
      ⊎ ((required method path).0 ≡ admin)
server_route_scoped method path id h = elim (required_cases method path) [
  | inl (e, _) ↦ inl e
  | inr d ↦
      let q = Decides-all scoped_if_server scoped_if_server_table d in
      let m = applies-matches (method_name method) (trimmed path) d.by d.applied in
      let e : server_id_of (trimmed path) ≡ some id = rw server_id_of-trimmed h in
      let e' : captured (strip_prefix instances (trimmed path)) ≡ some id =
        unfold server_id_of in e in
      let a = ap (λ (t : String × Bool). t.0) d.answered in
      let b = ap (λ (t : String × Bool). t.1) d.answered in
      inr (
        ground (
          arith,
          strip_prefix_of_clashes instances d.by.pattern (trimmed path),
          e',
          a,
          b,
          ==_iff d.by.permission admin,
        ))
]

strip_prefix-admin_area :
    (path rest : Text)
    → strip_prefix admin_area path ≡ some rest
    → (rest' : Text) × (strip_prefix admin_area (trimmed path) ≡ some rest')
unfolding trimmed
strip_prefix-admin_area path rest h =
    let (rest', e) = strip_prefix-rstrip admin_area path rest refl h in
    (rest', ground (arith, nonempty (rstrip path) rest'))
  where
    nonempty : (p r : Text) → strip_prefix admin_area p ≡ some r → is_empty p ≡ false
    nonempty [] r k = unfold strip_prefix in cc
    nonempty (x ∷ p) r k = refl

-- Whatever the method, nothing under /api/admin is open to anyone but an admin.
pub admin_area_closed :
    (method path rest : Text)
    → strip_prefix admin_area path ≡ some rest
    → (required method path ≡ (deny, false)) ⊎ ((required method path).0 ≡ admin)
admin_area_closed method path rest h = elim (required_cases method path) [
  | inl (e, _) ↦ inl e
  | inr d ↦
      let q = Decides-all admin_only admin_only_table d in
      let m = applies-matches (method_name method) (trimmed path) d.by d.applied in
      let (rest', e) = strip_prefix-admin_area path rest h in
      let a = ap (λ (t : String × Bool). t.0) d.answered in
      inr (
        ground (
          arith,
          strip_prefix_of_clashes admin_area d.by.pattern (trimmed path),
          e,
          a,
          ==_iff d.by.permission admin,
        ))
]

-- Every answer is a refusal, a sentinel, or a permission of the permission list.
pub required_known :
    (method path : Text)
    → (required method path ≡ (deny, false))
      ⊎ (contains sentinels (required method path).0 ≡ true)
      ⊎ (contains permissions (required method path).0 ≡ true)
required_known method path = elim (required_cases method path) [
  | inl (e, _) ↦ inl e
  | inr d ↦
      let q = Decides-all known known_table d in
      let a = ap (λ (t : String × Bool). t.0) d.answered in rw a (inr (or-true_cases _ _ q))
]
