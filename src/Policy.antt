-- ===== src/Policy.antt =====
-- app/policy.py: which permission each API route needs.
pub mod Pattern
pub mod Entry
pub mod Rules
pub mod MoreRules
pub mod Matching
pub mod Scope
pub mod Safety
pub mod Open
use bless_forge.Base.{
  String, ◌≡◌, refl, Bool, true, false, ◌&&◌, ◌||◌, List, [], ◌∷◌, ◌++◌, Option, none, some, Text,
  ◌==◌, text_eq, codes, is_empty, if◌then◌else◌,
}
use Pattern.{Token, matches, strip_prefix, rstrip, segment, upper, slash}
use Entry.{Rule, deny, any}
use Rules.{
  open_rules, node_rules, admin_rules, fleet_rules, power_rules, console_rules, file_rules,
  mod_rules, config_rules, player_rules, backup_rules,
}
use MoreRules.{
  tuning_rules, create_rules, catalogue_rules, roulette_rules, job_rules, upload_rules,
  decision_rules, assistant_rules,
}

-- `RULES`, in order
unfoldable pub rules : List Rule
unfolding open_rules node_rules admin_rules fleet_rules power_rules console_rules file_rules
    mod_rules config_rules player_rules backup_rules tuning_rules create_rules catalogue_rules
    roulette_rules job_rules upload_rules decision_rules assistant_rules
rules =
    open_rules ++ node_rules ++ admin_rules ++ fleet_rules ++ power_rules ++ console_rules
    ++ file_rules ++ mod_rules ++ config_rules ++ player_rules ++ backup_rules ++ tuning_rules
    ++ create_rules ++ catalogue_rules ++ roulette_rules ++ job_rules ++ upload_rules
    ++ decision_rules ++ assistant_rules

-- The id that `([^/]+)` captures behind a literal prefix: one character at least.
abbrev pub captured : Option Text → Option Text
captured none = none
captured (some rest) = if is_empty (segment rest) then none else some (segment rest)

unfoldable pub server_id_of : Text → Option Text
unfolding strip_prefix segment
server_id_of path = captured (strip_prefix (codes "/api/instances/") path)

-- The test of the loop in `required`, and the loop: the first rule that applies decides.
unfoldable pub applies : Text → Text → Rule → Bool
unfolding matches
applies method path r = (r.method == codes "*" || r.method == method) && matches r.pattern path

unfoldable pub first_match : Text → Text → List Rule → String × Bool
unfolding applies
first_match method path [] = (deny, false)
first_match method path (r ∷ rs) =
    let rest = first_match method path rs in
    if applies method path r then (r.permission, r.scoped) else rest

-- `(method or "GET").upper()`
unfoldable pub method_name : Text → Text
unfolding upper
method_name method = upper (if is_empty method then codes "GET" else method)

-- `path.rstrip("/") or "/"`
unfoldable pub trimmed : Text → Text
unfolding rstrip
trimmed path = let p = rstrip path in if is_empty p then slash ∷ [] else p

unfoldable pub required : Text → Text → String × Bool
unfolding rules first_match method_name trimmed
required method path = first_match (method_name method) (trimmed path) rules

required_test :
    (required (codes "get") (codes "/api/instances/ab-1/files/") ≡ ("files.read", true))
    × (required (codes "POST") (codes "/api/healthz") ≡ (deny, false))
    × (required (codes "GET") (codes "/api/exports/a.zip") ≡ (any, false))
unfolding required
required_test = (refl, refl, refl)
