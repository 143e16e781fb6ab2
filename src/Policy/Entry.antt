-- ===== src/Policy/Entry.antt =====
-- app/policy.py: the sentinels, `Rule` and `_r`.
use bless_forge.Base.{String, Bool, List, none, Text, codes}
use bless_forge.Policy.Pattern.{Token, compile, upper}

abbrev pub public : String
public = "@public"

abbrev pub any : String
any = "@any"

abbrev pub admin : String
admin = "@admin"

abbrev pub deny : String
deny = "@deny"

abbrev pub node : String
node = "@node"

pub record Rule : Type 0 where
  pub method : Text
  pub pattern : List Token
  pub permission : String
  pub scoped : Bool

-- `_r`
unfoldable pub rule : String → String → String → Bool → Rule
unfolding compile upper
rule method path permission scoped = record {
  method = upper (codes method);
  pattern = compile none (codes path);
  permission = permission;
  scoped = scoped;
}
