-- ===== src/Policy/Open.antt =====
-- The rules of the table that want no account (app/policy.py: `RULES`).
use bless_forge.Base.{
  String, ℕ, ◌≡◌, refl, sym, ap, ◌∙◌, ◌⊎◌, inl, inr, Bool, true, false, not, ◌&&◌, ◌||◌, List, [],
  ◌∷◌, ◌++◌, arith, eqb, eqb_iff, and-true_left, and-true_right, or-true_cases, ◌==◌, ==_iff,
  nat_eq, string_eq, Text, text_eq, codes, all,
}
use bless_forge.Policy.Pattern.{Token, lit, wild, matches, newline}
use bless_forge.Policy.Entry.{Rule, public, node}
use bless_forge.Policy.Scope.{Decides-all, required_cases}
use bless_forge.Policy.{rules, applies, method_name, trimmed, required}

-- The eight requests, as method and path
abbrev pub open_routes : List (Text × Text)
open_routes =
    (codes "GET", codes "/api/healthz")
    ∷ (codes "GET", codes "/api/status")
    ∷ (codes "POST", codes "/api/auth/login")
    ∷ (codes "POST", codes "/api/auth/login/2fa")
    ∷ (codes "GET", codes "/api/auth/session")
    ∷ (codes "GET", codes "/api/agent/servers")
    ∷ (codes "POST", codes "/api/agent/events")
    ∷ (codes "POST", codes "/api/agent/sftp-auth")
    ∷ []

-- The path, or the path and the newline that `$` lets follow it
abbrev pub IsPath : Text → Text → Type 0
IsPath path s = (s ≡ path) ⊎ (s ≡ path ++ (newline ∷ []))

-- The method and the path are those of one of the routes
abbrev pub OneOf : List (Text × Text) → Text → Text → Type 0
OneOf [] method s = ⊥
OneOf ((m, path) ∷ routes) method s = ((method ≡ m) × IsPath path s) ⊎ OneOf routes method s

abbrev spells : Text → List Token → Bool
spells [] [] = true
spells [] (t ∷ p) = false
spells (c ∷ path) [] = false
spells (c ∷ path) (wild ∷ p) = false
spells (c ∷ path) (lit d ∷ p) = eqb c d && spells path p

abbrev listed : List (Text × Text) → Rule → Bool
listed [] r = false
listed ((m, path) ∷ routes) r = ((r.method == m) && spells path r.pattern) || listed routes r

abbrev wants_no_account : Rule → Bool
wants_no_account r = r.permission == public || r.permission == node

abbrev open_is_listed : Rule → Bool
open_is_listed r = not (wants_no_account r) || (not (r.method == codes "*") && listed open_routes r)

open_is_listed_table : all open_is_listed rules ≡ true
unfolding rules
open_is_listed_table = refl

at_end-IsPath : (s : Text) → matches [] s ≡ true → IsPath [] s
unfolding matches
at_end-IsPath [] h = inl refl
at_end-IsPath (x ∷ []) h = inr (ap (λ c. c ∷ []) ((eqb_iff x newline).0 h))
at_end-IsPath (x ∷ y ∷ s) h = absurd (cc)

IsPath-cons :
    (c d x : ℕ) (path s : Text)
    → eqb c d ≡ true
    → eqb x d ≡ true
    → IsPath path s
    → IsPath (c ∷ path) (x ∷ s)
IsPath-cons c d x path s same at (inl e) =
    inl (let a = (eqb_iff c d).0 same in let b = (eqb_iff x d).0 at in cc)
IsPath-cons c d x path s same at (inr e) =
    inr (let a = (eqb_iff c d).0 same in let b = (eqb_iff x d).0 at in cc)

spells-IsPath :
    (path : Text) (p : List Token) (s : Text)
    → spells path p ≡ true
    → matches p s ≡ true
    → IsPath path s
unfolding matches
spells-IsPath [] [] s h m = at_end-IsPath s (unfold matches in m)
spells-IsPath [] (t ∷ p) s h m = absurd (cc)
spells-IsPath (c ∷ path) [] s h m = absurd (cc)
spells-IsPath (c ∷ path) (wild ∷ p) s h m = absurd (cc)
spells-IsPath (c ∷ path) (lit d ∷ p) [] h m = absurd (cc)
spells-IsPath (c ∷ path) (lit d ∷ p) (x ∷ s) h m =
    IsPath-cons c d x path s (and-true_left _ _ h) (and-true_left _ _ m)
      (spells-IsPath path p s (and-true_right (eqb c d) _ h) (and-true_right (eqb x d) _ m))

listed-OneOf :
    (routes : List (Text × Text)) (r : Rule) (method s : Text)
    → listed routes r ≡ true
    → r.method ≡ method
    → matches r.pattern s ≡ true
    → OneOf routes method s
listed-OneOf [] r method s h e m = absurd (cc)
listed-OneOf ((m', path) ∷ routes) r method s h e m = elim (or-true_cases _ _ h) [
  | inl here ↦ inl (
    sym e ∙ (==_iff r.method m').0 (and-true_left _ _ here),
    spells-IsPath path r.pattern s (and-true_right (r.method == m') _ here) m,
  )
  | inr there ↦ inr (listed-OneOf routes r method s there e m)
]

applies-exact :
    (method path : Text) (r : Rule)
    → applies method path r ≡ true
    → not (r.method == codes "*") ≡ true
    → (r.method ≡ method) × (matches r.pattern path ≡ true)
unfolding applies
applies-exact method path r h named =
    ((==_iff r.method method).0 (ground (arith, h, named)), ground (arith, h))

-- A request whose rule wants no account is one of the eight, by its method and path.
pub required_open :
    (method path : Text)
    → ((required method path).0 == public || (required method path).0 == node) ≡ true
    → OneOf open_routes (method_name method) (trimmed path)
required_open method path h = elim (required_cases method path) [
  | inl (e, _) ↦ absurd (let k = rw e at h in cc)
  | inr d ↦
      let q = Decides-all open_is_listed open_is_listed_table d in
      let a = ap (λ (t : String × Bool). t.0) d.answered in
      let wants : wants_no_account d.by ≡ true = rw a at h in
      let (named, among) : (not (d.by.method == codes "*") ≡ true)
          × (listed open_routes d.by ≡ true) =
        (ground (arith, q, wants), ground (arith, q, wants)) in
      let (same, m) = applies-exact (method_name method) (trimmed path) d.by d.applied named in
      listed-OneOf open_routes d.by (method_name method) (trimmed path) among same m
]
