-- ===== src/Racks/Model.antt =====
-- app/fleetgroups.py: the state, `_clean_group`, `_slug` and `_unique_id`.
use bless_forge.Base.{
  ℕ, zero, suc, Bool, false, ◌&&◌, ◌||◌, Option, none, some, List, [], ◌∷◌, ◌++◌, map, leb, eqb,
  if◌then◌else◌, nat_eq, string_eq, Text, text_eq, contains, codes, take, is_empty,
}
use bless_forge.Base.Strings.{strip, lower, is_digit}

abbrev pub motifs : List Text
motifs =
    map codes
      ("sakura" ∷ "kitsune" ∷ "torii" ∷ "matsu" ∷ "tsuki" ∷ "mizu" ∷ "kaminari" ∷ "yuki" ∷ [])

abbrev pub max_groups : ℕ
max_groups = 40

abbrev pub max_name : ℕ
max_name = 48

-- `unicodedata`'s NFKD form less what is not ASCII, and `str` of an integer.
pub record Printing : Type 0 where
  pub nfkd_ascii : Text → Text
  pub show : ℕ → Text

pub record Group : Type 0 where
  pub id : Text
  pub name : Text
  pub motif : Text

-- What a request or a suggestion says of a rack; a missing id, name or motif is `None`
pub record RawGroup : Type 0 where
  pub id : Option Text
  pub name : Option Text
  pub motif : Option Text
  pub server_ids : List Text

-- A record of `activity`
pub record Activity : Type 0 where
  pub first_seen : ℕ
  pub name : Option Text
  pub running : Bool
  pub last_started : Option ℕ
  pub observed : Bool
  pub last_running_at : Option ℕ

pub record State : Type 0 where
  pub groups : List Group
  pub assign : List (Text × Text)
  pub activity : List (Text × Activity)

abbrev is_alnum : ℕ → Bool
is_alnum c = is_digit c || (leb b'A' c && leb c b'Z') || (leb b'a' c && leb c b'z')

abbrev pub dash : ℕ
dash = b'-'

abbrev starts_dashed : Text → Bool
starts_dashed [] = false
starts_dashed (c ∷ s) = eqb c dash

-- `re.sub(r"[^a-zA-Z0-9]+", "-", base)`
unfoldable pub dashed : Text → Text
dashed [] = []
dashed (c ∷ s) =
    let rest = dashed s in
    if is_alnum c then c ∷ rest else if starts_dashed rest then rest else dash ∷ rest

unfoldable pub left_dashes : Text → Text
left_dashes [] = []
left_dashes (c ∷ s) = let rest = left_dashes s in if eqb c dash then rest else c ∷ s

unfoldable pub right_dashes : Text → Text
right_dashes [] = []
right_dashes (c ∷ s) =
    let rest = right_dashes s in if eqb c dash && is_empty rest then [] else c ∷ rest

unfoldable pub slug : Printing → Text → Text
unfolding dashed left_dashes right_dashes lower
slug printing name =
    let base = lower (right_dashes (left_dashes (dashed (printing.nfkd_ascii name)))) in
    if is_empty base then codes "rack" else base

-- `str(value or "").strip()`
abbrev pub stripped_or_empty : Option Text → Text
stripped_or_empty none = []
stripped_or_empty (some t) = strip t

abbrev pub known_motif : Option Text → Text
known_motif none = codes "sakura"
known_motif (some m) = if contains motifs m then m else codes "sakura"

abbrev pub some_text : Text → Text → Text
some_text first second = if is_empty first then second else first

unfoldable pub clean_group : Printing → RawGroup → Option Group
unfolding strip slug
clean_group printing raw =
    let name = take max_name (stripped_or_empty raw.name) in
    if is_empty name
    then none
    else some (record {
      id = take 64 (some_text (stripped_or_empty raw.id) (slug printing name));
      name = name;
      motif = known_motif raw.motif;
    })

-- `f"{want}-{n}"`
abbrev pub numbered : Printing → Text → ℕ → Text
numbered printing want n = want ++ (dash ∷ printing.show n)

-- `count` candidates, from `n` on; `stamp` is `int(time.time())`
unfoldable pub next_free : Printing → Text → List Text → ℕ → ℕ → ℕ → Text
next_free printing want taken stamp zero n = numbered printing want stamp
next_free printing want taken stamp (suc count) n =
    let later = next_free printing want taken stamp count (suc n) in
    if contains taken (numbered printing want n) then later else numbered printing want n

-- The candidates are `range(2, 200)`
unfoldable pub unique_id : Printing → ℕ → Text → List Text → Text
unique_id printing stamp want taken =
    if contains taken want then next_free printing want taken stamp 198 2 else want
