-- ===== src/Access/Tokens.antt =====
-- app/access.py: API tokens.
use bless_forge.Base.{
  String, ℕ, ◌+◌, ◌-◌, ◌*◌, Bool, true, false, not, ◌&&◌, Option, none, some, List, [], ◌∷◌, ◌++◌,
  ltb, leb, if◌then◌else◌, ◌==◌, nat_eq, string_eq, Text, text_eq, contains, add_once, keep_in,
  codes, length, take, is_empty,
}
use bless_forge.Base.Strings.{strip}
use bless_forge.Base.Equality.{text_beq}
use bless_forge.Auth.Permissions.{permissions}
use bless_forge.Auth.Model.{Result, ok, raise, check, ◌>>=◌, ◌>>◌, User, Account}
use bless_forge.Auth.Rights.{effective_permissions, in_scope}
use bless_forge.Auth.Sessions.{find_user_id}

abbrev pub token_prefix : Text
token_prefix = codes "bf_"

abbrev pub max_tokens : ℕ
max_tokens = 25

abbrev pub token_used_every : ℕ
token_used_every = 300

abbrev pub max_token_days : ℕ
max_token_days = 365

-- A row of `api_tokens`
pub record ApiToken : Type 0 where
  pub id : ℕ
  pub user_id : ℕ
  pub name : Text
  pub token_sha256 : Text
  pub permissions : List String
  pub servers : List Text
  pub expires_at : Option ℕ
  pub last_used : Option ℕ
  pub last_ip : Text

unfoldable pub grant_union : List (Text × List String) → List String
grant_union [] = []
grant_union ((sid, ps) ∷ grants) = keep_in permissions ps ++ grant_union grants

-- `grantable_for`
unfoldable pub grantable_for : Account → List String
grantable_for user = effective_permissions user none ++ grant_union user.grants

-- The loop over the permissions asked for: `out` is what was taken so far.
unfoldable pub pick : List String → List String → List String → Result (List String)
pick allowed [] out = ok out
pick allowed (p ∷ ps) out =
    let rest = pick allowed ps (add_once out p) in
    if not (contains permissions p)
    then raise "Unknown permission" 400
    else if not (contains allowed p)
    then raise "A token cannot have more than you do" 400
    else rest

unfoldable pub pick_servers :
    Account → (Text → Option Text) → List Text → List Text → Result (List Text)
pick_servers owner rack_of [] out = ok out
pick_servers owner rack_of (sid ∷ sids) out =
    let rest = pick_servers owner rack_of sids (add_once out sid) in
    if not (in_scope (some owner) (some sid) rack_of)
    then raise "Server is not one of yours." 400
    else rest

-- `expires_days`: absent, not a number, negative, or a number.
pub data Days : Type 0 where
  never not_number negative : Days
  days : ℕ → Days

unfoldable pub expiry : ℕ → Days → Result (Option ℕ)
expiry now never = ok none
expiry now not_number = raise "Expiry is a number of days." 400
expiry now negative = raise "Expiry is 1 to 365 days, or none." 400
expiry now (days n) =
    if leb 1 n && leb n max_token_days
    then ok (some (now + n * 86400))
    else raise "Expiry is 1 to 365 days, or none." 400

unfoldable pub count_of : ℕ → List ApiToken → ℕ
count_of user_id [] = 0
count_of user_id (t ∷ ts) = (if t.user_id == user_id then 1 else 0) + count_of user_id ts

-- The arguments of `create_token`, the token drawn by `secrets.token_urlsafe` and its row's id.
pub record NewToken : Type 0 where
  pub name : Text
  pub permissions : List String  -- `[]` also for what is not a list
  pub servers : List Text
  pub expires : Days
  pub token : Text
  pub id : ℕ

module _ (sha256 : Text → Text) where
  unfoldable pub create_token :
      List ApiToken
      → ℕ
      → Account
      → (Text → Option Text)
      → NewToken
      → Result (List ApiToken × ApiToken)
  create_token tokens now owner rack_of new = do
    let name = take 60 (strip new.name)
    check (not (is_empty name)) "Give the token a name, so you know later what uses it." 400
    check (not (is_empty new.permissions)) "Pick at least one permission for the token." 400
    perms ← pick (grantable_for owner) new.permissions []
    sids ← pick_servers owner rack_of new.servers []
    expires ← expiry now new.expires
    check (ltb (count_of owner.id tokens) max_tokens) "You have 25 tokens already." 409
    let row : ApiToken = record {
      id = new.id;
      user_id = owner.id;
      name = name;
      token_sha256 = sha256 new.token;
      permissions = perms;
      servers = sids;
      expires_at = expires;
      last_used = none;
      last_ip = [];
    }
    ok (row ∷ tokens, row)

  unfoldable pub find_token : Text → List ApiToken → Option ApiToken
  find_token key [] = none
  find_token key (t ∷ ts) = if t.token_sha256 == key then some t else find_token key ts

  unfoldable pub touch : Text → ℕ → Text → List ApiToken → List ApiToken
  touch key now ip [] = []
  touch key now ip (t ∷ ts) =
      let rest = touch key now ip ts in
      if t.token_sha256 == key
      then record t { last_used = some now; last_ip = take 64 ip } ∷ ts
      else t ∷ rest

  -- The token and its owner's row, if the join finds both.
  unfoldable pub joined : List ApiToken → List User → Text → Option (ApiToken × User)
  joined tokens users key = elim (find_token key tokens) [
    | none ↦ none
    | some tok ↦ elim (find_user_id tok.user_id users) [ none ↦ none | some row ↦ some (tok, row) ]
  ]

  abbrev is_bearer : Text → Bool
  is_bearer token = text_beq (take 3 token) token_prefix && leb (length token) 120

  abbrev is_over : ℕ → Option ℕ → Bool
  is_over now none = false
  is_over now (some t) = leb t now

  abbrev used_at : Option ℕ → ℕ
  used_at none = 0
  used_at (some t) = t

  -- `token_user`: the account, with the token's limits; its use is written now and then.
  unfoldable pub token_user :
      (ℕ → List (Text × List String))
      → List ApiToken
      → List User
      → ℕ
      → Text
      → Text
      → List ApiToken × Option Account
  token_user grants_of tokens users now token ip =
      if not (is_bearer token) then (tokens, none) else elim (joined tokens users (sha256 token)) [
        | none ↦ (tokens, none)
        | some (tok, row) ↦
            if is_over now tok.expires_at
            then (tokens, none)
            else if row.disabled
            then (tokens, none)
            else (
              (if ltb token_used_every (now - used_at tok.last_used)
                  then touch (sha256 token) now ip tokens
                  else tokens),
              some (record {
                row = row;
                grants = grants_of row.id;
                via_token =
                    some (record {
                      id = tok.id;
                      permissions = tok.permissions;
                      servers = tok.servers;
                    });
              }),
            )
      ]

-- `revoke_token`: by id, and by owner unless an admin asks.
unfoldable pub revoke_token : ℕ → Option ℕ → List ApiToken → List ApiToken
revoke_token id owner [] = []
revoke_token id owner (t ∷ ts) =
    let rest = revoke_token id owner ts in
    if t.id == id && (elim owner [ none ↦ true | some user_id ↦ t.user_id == user_id ])
    then rest
    else t ∷ rest
