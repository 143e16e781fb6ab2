-- ===== src/Policy/Scope.antt =====
-- About the first rule that applies in `required` (app/policy.py).
use bless_forge.Base.{
  String, ◌≡◌, refl, ap, ◌⊎◌, inl, inr, Bool, true, false, not, List, [], ◌∷◌, ◌++◌, Text,
  string_eq, all, all-append, arith, Bool-cases,
}
use bless_forge.Policy.Entry.{Rule, deny}
use bless_forge.Policy.{rules, applies, first_match, method_name, trimmed, required}

-- A rule that decides a request, with the rules in front of it.
pub record Decides (method path : Text) (rs : List Rule) (answer : String × Bool) : Type 0 where
  pub before : List Rule
  pub by : Rule
  pub after : List Rule
  pub split : rs ≡ before ++ (by ∷ after)
  pub earlier : all (λ r. not (applies method path r)) before ≡ true
  pub applied : applies method path by ≡ true
  pub answered : answer ≡ (by.permission, by.scoped)

Decides-cons :
    (method path : Text) (r : Rule) {rs : List Rule} {answer : String × Bool}
    → applies method path r ≡ false
    → Decides method path rs answer
    → Decides method path (r ∷ rs) answer
Decides-cons method path r e d = record {
  before = r ∷ d.before;
  by = d.by;
  after = d.after;
  split = ap (λ rest. r ∷ rest) d.split;
  earlier = rw e d.earlier;
  applied = d.applied;
  answered = d.answered;
}

first_match_cases :
    (method path : Text) (rs : List Rule)
    → ((first_match method path rs ≡ (deny, false))
        × (all (λ r. not (applies method path r)) rs ≡ true))
      ⊎ Decides method path rs (first_match method path rs)
unfolding first_match
first_match_cases method path [] = inl (refl, refl)
first_match_cases method path (r ∷ rs) = elim (Bool-cases (applies method path r)) [
  | inl e ↦ inr (record {
    before = [];
    by = r;
    after = rs;
    split = refl;
    earlier = refl;
    applied = e;
    answered = rw e refl;
  })
  | inr e ↦ elim (first_match_cases method path rs) [
    | inl (h, k) ↦ inl (rw e h, rw e k)
    | inr d ↦ inr (rw e (Decides-cons method path r e d))
  ]
]

-- The request is refused exactly when no rule applies; else the first rule that applies decides:
-- every rule in front of it does not apply.
pub required_cases :
    (method path : Text)
    → ((required method path ≡ (deny, false))
        × (all (λ r. not (applies (method_name method) (trimmed path) r)) rules ≡ true))
      ⊎ Decides (method_name method) (trimmed path) rules (required method path)
unfolding required
required_cases method path = first_match_cases (method_name method) (trimmed path) rules

-- A test that every rule of a table passes is passed by the rule that decides.
pub Decides-all :
    (q : Rule → Bool) {method path : Text} {rs : List Rule} {answer : String × Bool}
    → all q rs ≡ true
    → (d : Decides method path rs answer) → q d.by ≡ true
Decides-all q h d =
    let e = rw d.split at h in ground (arith, all-append q d.before (d.by ∷ d.after))
