-- ===== src/Access/TokenLaws.antt =====
-- About `create_token` (app/access.py).
use bless_forge.Base.{
  All, All-contains, String, ℕ, ◌≤◌, ◌≡◌, ◌⊎◌, inl, inr, Bool, true, false, not, Option, some, List,
  [], ◌∷◌, arith, ltb, Bool-cases, nat_eq, string_eq, Text, text_eq, contains, add_once,
  contains-add_once, take, is_empty,
}
use bless_forge.Base.Strings.{strip}
use bless_forge.Auth.Permissions.{permissions}
use bless_forge.Auth.Model.{ok, check, check-ok, >>=-eq-ok, Account}
use bless_forge.Auth.Rights.{in_scope}
use bless_forge.Access.Tokens.{
  ApiToken, NewToken, max_tokens, grantable_for, pick, pick_servers, expiry, count_of, create_token,
}

-- What the loop takes was taken before or is allowed.
pick-allowed :
    (allowed ps out r : List String) (p : String)
    → pick allowed ps out ≡ ok r
    → contains r p ≡ true
    → (contains out p ≡ true) ⊎ (contains allowed p ≡ true)
unfolding pick
pick-allowed allowed [] out r p h m = let same : out ≡ r = ground arith in inl (rw same m)
pick-allowed allowed (q ∷ ps) out r p h m = elim (Bool-cases (contains permissions q)) [
  | inl known ↦ elim (Bool-cases (contains allowed q)) [
    | inl given ↦ elim (pick-allowed allowed ps (add_once out q) r p (rw (known, given) at h) m) [
      | inl taken ↦ elim (contains-add_once out q p taken) [
        | inl before ↦ inl before
        | inr now ↦ inr (rw now given)
      ]
      | inr other ↦ inr other
    ]
    | inr refused ↦ absurd (let k = rw (known, refused) at h in cc)
  ]
  | inr unknown ↦ absurd (let k = rw unknown at h in cc)
]

pick_servers-in_scope :
    (owner : Account) (rack_of : Text → Option Text) (sids out r : List Text) (sid : Text)
    → pick_servers owner rack_of sids out ≡ ok r
    → contains r sid ≡ true
    → (contains out sid ≡ true) ⊎ (in_scope (some owner) (some sid) rack_of ≡ true)
unfolding pick_servers
pick_servers-in_scope owner rack_of [] out r sid h m =
    let same : out ≡ r = ground arith in inl (rw same m)
pick_servers-in_scope owner rack_of (q ∷ sids) out r sid h m =
    elim (Bool-cases (in_scope (some owner) (some q) rack_of)) [
      | inl reached ↦
          elim (pick_servers-in_scope owner rack_of sids (add_once out q) r sid (rw reached at h)
            m) [
              | inl taken ↦ elim (contains-add_once out q sid taken) [
                | inl before ↦ inl before
                | inr now ↦ inr (rw now reached)
              ]
              | inr other ↦ inr other
            ]
      | inr refused ↦ absurd (let k = rw refused at h in cc)
    ]

from_empty : {P : Type 0} (b : Bool) → (b ≡ true → ⊥) → (b ≡ true) ⊎ P → P
from_empty b n (inl k) = absurd (n k)
from_empty b n (inr p) = p

-- A token that is made holds only permissions that its owner holds somewhere at the time, is kept
-- only to servers that the owner reaches, and leaves the owner with at most twenty-five.
pub create_token-within :
    (sha256 : Text → Text) (tokens : List ApiToken) (now : ℕ) (owner : Account)
    (rack_of : Text → Option Text) (new : NewToken) {made : List ApiToken} {row : ApiToken}
    → create_token sha256 tokens now owner rack_of new ≡ ok (made, row)
    → All (λ p. contains (grantable_for owner) p ≡ true) row.permissions
      × All (λ sid. in_scope (some owner) (some sid) rack_of ≡ true) row.servers
      × (count_of owner.id made ≤ max_tokens)
unfolding create_token
create_token-within sha256 tokens now owner rack_of new {made} {row} h =
    let name = take 60 (strip new.name) in
    let (_, named, h₁) =
      >>=-eq-ok
        (check (not (is_empty name)) "Give the token a name, so you know later what uses it." 400) _
        h in
    let (_, asked, h₂) =
      >>=-eq-ok
        (check (not (is_empty new.permissions)) "Pick at least one permission for the token." 400) _
        h₁ in
    let (perms, picked, h₃) = >>=-eq-ok (pick (grantable_for owner) new.permissions []) _ h₂ in
    let (sids, kept, h₄) = >>=-eq-ok (pick_servers owner rack_of new.servers []) _ h₃ in
    let (expires, until, h₅) = >>=-eq-ok (expiry now new.expires) _ h₄ in
    let (_, room, h₆) =
      >>=-eq-ok
        (check (ltb (count_of owner.id tokens) max_tokens) "You have 25 tokens already." 409) _
        h₅ in
    let e₁ : row.permissions ≡ perms = ground arith in
    let e₂ : row.servers ≡ sids = ground arith in
    let e₃ : made ≡ row ∷ tokens = ground arith in
    let fits : ltb (count_of owner.id tokens) max_tokens ≡ true = check-ok _ _ _ room in
    (
      All-contains _ row.permissions (λ p m.
          from_empty false (λ k. cc)
            (pick-allowed (grantable_for owner) new.permissions [] perms p picked (rw e₁ at m))),
      All-contains _ row.servers (λ sid m.
          from_empty false (λ k. cc)
            (pick_servers-in_scope owner rack_of new.servers [] sids sid kept (rw e₂ at m))),
      rw e₃ (unfold count_of in ground (arith, fits)),
    )
