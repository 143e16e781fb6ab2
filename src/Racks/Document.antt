-- ===== src/Racks/Document.antt =====
-- app/fleetgroups.py: `document`, the layout as it is answered.
use bless_forge.Base.{
  Bool, true, false, ◌&&◌, ◌||◌, Option, none, some, List, [], ◌∷◌, ltb, eqb, if◌then◌else◌, ◌==◌,
  nat_eq, string_eq, Text, text_eq, contains,
}
use bless_forge.Racks.Model.{Group, State}
use bless_forge.Racks.Change.{ids_of}

-- A rack of the answer, with the servers that hang on it
pub record RackView : Type 0 where
  pub group : Group
  pub server_ids : List Text

pub record Document : Type 0 where
  pub groups : List RackView
  pub assign : List (Text × Text)

-- `a <= b` on texts
abbrev pub text_leb : Text → Text → Bool
text_leb [] b = true
text_leb (c ∷ a) [] = false
text_leb (c ∷ a) (d ∷ b) = ltb c d || (eqb c d && text_leb a b)

unfoldable pub insert_sorted : Text → List Text → List Text
insert_sorted x [] = x ∷ []
insert_sorted x (y ∷ ys) =
    let rest = insert_sorted x ys in if text_leb x y then x ∷ y ∷ ys else y ∷ rest

unfoldable pub sorted : List Text → List Text
unfolding insert_sorted
sorted [] = []
sorted (x ∷ xs) = insert_sorted x (sorted xs)

-- `known is None or sid in known`
abbrev pub is_known : Option (List Text) → Text → Bool
is_known none sid = true
is_known (some known) sid = contains known sid

abbrev pub known_only : Option (List Text) → List (Text × Text) → List (Text × Text)
known_only known [] = []
known_only known ((s, g) ∷ rest) =
    let others = known_only known rest in if is_known known s then (s, g) ∷ others else others

-- `members[gid]`
abbrev pub members_of : Text → List (Text × Text) → List Text
members_of gid [] = []
members_of gid ((s, g) ∷ rest) =
    let others = members_of gid rest in if g == gid then s ∷ others else others

abbrev pub views : List (Text × Text) → List Group → List RackView
views assigned [] = []
views assigned (g ∷ gs) =
    record { group = g; server_ids = sorted (members_of g.id assigned) } ∷ views assigned gs

abbrev on_racks : List Text → List (Text × Text) → List (Text × Text)
on_racks ids [] = []
on_racks ids ((s, g) ∷ rest) =
    let others = on_racks ids rest in if contains ids g then (s, g) ∷ others else others

unfoldable pub document : Option (List Text) → State → Document
unfolding sorted
document known s =
    let assigned = known_only known s.assign in
    record { groups = views assigned s.groups; assign = on_racks (ids_of s.groups) assigned }
