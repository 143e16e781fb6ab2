-- ===== src/Properties/Edit.antt =====
-- app/properties.py: `coerce` and `save`, with the kinds of the catalogue.
use bless_forge.Base.{
  ℕ, Bool, false, not, ◌&&◌, ◌||◌, Option, none, some, List, [], ◌∷◌, map, eqb, if◌then◌else◌,
  nat_eq, string_eq, Text, text_eq, contains, codes, is_empty, Result, ok, err, ◌>>◌, raise, check,
}
use bless_forge.Base.Strings.{strip, lower}
use bless_forge.Properties.Lines.{is_name_char, render}

-- `int(text)` printed again, if it is a number, and what `\w` matches.
pub record Reading : Type 0 where
  pub canonical_int : Text → Option Text
  pub is_word : ℕ → Bool

abbrev pub bool_keys : List Text
bool_keys = map codes (
    "enable-query" ∷ "enable-rcon" ∷ "enable-status" ∷ "prevent-proxy-connections" ∷ "online-mode"
    ∷ "white-list" ∷ "enforce-whitelist" ∷ "pvp" ∷ "enforce-secure-profile" ∷ "hide-online-players"
    ∷ "generate-structures" ∷ "allow-nether" ∷ "force-gamemode" ∷ "hardcore" ∷ "spawn-monsters"
    ∷ "spawn-npcs" ∷ "spawn-animals" ∷ "allow-flight" ∷ "sync-chunk-writes" ∷ "use-native-transport"
    ∷ "enable-command-block" ∷ "broadcast-console-to-ops" ∷ "broadcast-rcon-to-ops" ∷ "log-ips"
    ∷ "require-resource-pack" ∷ "accepts-transfers" ∷ [])

abbrev pub int_keys : List Text
int_keys = map codes (
    "server-port" ∷ "query.port" ∷ "rcon.port" ∷ "network-compression-threshold" ∷ "max-players"
    ∷ "player-idle-timeout" ∷ "max-world-size" ∷ "spawn-protection" ∷ "view-distance"
    ∷ "simulation-distance" ∷ "entity-broadcast-range-percentage" ∷ "max-tick-time"
    ∷ "max-chained-neighbor-updates" ∷ "pause-when-empty-seconds" ∷ [])

abbrev pub guarded_keys : List Text
guarded_keys = codes "server-port" ∷ []

-- A submitted value: a Boolean, or another with its `str`
pub data Value : Type 0 where
  flag : Bool → Value
  text : Text → Value

abbrev pub show_bool : Bool → Text
show_bool b = if b then codes "true" else codes "false"

abbrev pub str_of : Value → Text
str_of (flag b) = if b then codes "True" else codes "False"
str_of (text t) = t

abbrev truthy : List Text
truthy = map codes ("1" ∷ "true" ∷ "yes" ∷ "on" ∷ [])

abbrev pub bool_value : Value → Text
bool_value (flag b) = show_bool b
bool_value (text t) = show_bool (contains truthy (lower (strip t)))

abbrev pub int_value : Option Text → Result Text
int_value none = raise "must be a whole number" 400
int_value (some t) = ok t

unfoldable pub coerce : Reading → Text → Value → Result Text
unfolding strip lower
coerce reading key value =
    if contains bool_keys key
    then ok (bool_value value)
    else if contains int_keys key
    then int_value (reading.canonical_int (strip (str_of value)))
    else if contains (str_of value) 10 || contains (str_of value) 13
    then raise "cannot contain a line break" 400
    else ok (str_of value)

-- `re.match(r"^[\w.\-]+$", key)`: the end matches before a last newline as well
unfoldable pub is_key : (ℕ → Bool) → Text → Bool
is_key is_word [] = false
is_key is_word (c ∷ []) = is_name_char is_word c
is_key is_word (c ∷ d ∷ []) = is_name_char is_word c && (eqb d 10 || is_name_char is_word d)
is_key is_word (c ∷ d ∷ e ∷ s) = is_name_char is_word c && is_key is_word (d ∷ e ∷ s)

abbrev pub add_accepted : Text → Result Text → List (Text × Text) → List (Text × Text)
add_accepted key (ok t) others = (key, t) ∷ others
add_accepted key (err problem) others = others

-- The updates that are written, with their keys checked and values coerced
unfoldable pub accepted : Reading → List (Text × Value) → List (Text × Text)
unfolding is_key coerce
accepted reading [] = []
accepted reading ((key, value) ∷ rest) =
    let others = accepted reading rest in
    if not (is_key reading.is_word key) || contains guarded_keys key
    then others
    else add_accepted key (coerce reading key value) others

-- `save`: what is saved, and the file that is written, if one is
unfoldable pub save :
    Reading → List (Text × Value) → Text → Result (List (Text × Text) × Option Text)
unfolding accepted render
save reading updates raw = do
  check (not (is_empty updates)) "no changes supplied" 400
  let clean = accepted reading updates
  ok (clean, if is_empty clean then none else some (render reading.is_word raw clean))
