-- ===== src/Racks/Change.antt =====
-- app/fleetgroups.py: `save_group`, `delete_group`, `assign`, `plan` and `forget`.
use bless_forge.Base.{
  ℕ, Bool, false, not, ◌&&◌, Option, none, some, List, [], ◌∷◌, ◌++◌, map, leb, if◌then◌else◌, ◌==◌,
  nat_eq, string_eq, Text, text_eq, contains, length, take, is_empty, get, Result, ok, raise,
}
use bless_forge.Racks.Model.{Printing, Group, RawGroup, State, max_groups, clean_group, unique_id}

abbrev pub ids_of : List Group → List Text
ids_of = map (λ g. g.id)

-- `state["assign"][sid] = gid`
unfoldable pub hang : Text → Text → List (Text × Text) → List (Text × Text)
hang sid gid [] = (sid, gid) ∷ []
hang sid gid ((s, g) ∷ rest) =
    let others = hang sid gid rest in if sid == s then (s, gid) ∷ rest else (s, g) ∷ others

-- `state["assign"].pop(sid, None)`
unfoldable pub take_down {ℓ} : {V : Type ℓ} → Text → List (Text × V) → List (Text × V)
take_down sid [] = []
take_down sid ((s, v) ∷ rest) =
    let others = take_down sid rest in if sid == s then others else (s, v) ∷ others

unfoldable pub hang_all : List Text → Text → List (Text × Text) → List (Text × Text)
hang_all [] gid assigned = assigned
hang_all (sid ∷ sids) gid assigned = hang_all sids gid (hang sid gid assigned)

unfoldable pub take_down_all : List Text → List (Text × Text) → List (Text × Text)
take_down_all [] assigned = assigned
take_down_all (sid ∷ sids) assigned = take_down_all sids (take_down sid assigned)

abbrev pub with_groups : State → List Group → State
with_groups s groups = record { groups = groups; assign = s.assign; activity = s.activity }

abbrev pub with_assign : State → List (Text × Text) → State
with_assign s assigned = record { groups = s.groups; assign = assigned; activity = s.activity }

-- The rack that is there takes the new name and motif
unfoldable pub rename_group : Text → Group → List Group → List Group
rename_group gid new [] = []
rename_group gid new (g ∷ gs) =
    let others = rename_group gid new gs in
    if g.id == gid
    then record { id = g.id; name = new.name; motif = new.motif } ∷ gs
    else g ∷ others

-- The group as it is hung, under an id that no other has
abbrev pub with_unique_id : Printing → ℕ → State → Group → Group
with_unique_id printing stamp s new = record {
  id = unique_id printing stamp new.id (ids_of s.groups);
  name = new.name;
  motif = new.motif;
}

unfoldable pub hang_group : Printing → ℕ → State → Group → State
hang_group printing stamp s new =
    with_groups s (s.groups ++ (with_unique_id printing stamp s new ∷ []))

-- `any(g["id"] == gid for g in groups)`, and that `gid` is not empty
abbrev pub is_there : Option Text → List Group → Bool
is_there none groups = false
is_there (some gid) groups = not (is_empty gid) && contains (ids_of groups) gid

abbrev pub id_or_empty : Option Text → Text
id_or_empty none = []
id_or_empty (some gid) = gid

abbrev pub save_cleaned : Printing → ℕ → Option Text → Option Group → State → Result State
save_cleaned printing stamp gid none s = raise "A rack needs a name." 400
save_cleaned printing stamp gid (some new) s =
    if is_there gid s.groups
    then ok (with_groups s (rename_group (id_or_empty gid) new s.groups))
    else if leb max_groups (length s.groups)
    then raise "That is 40 racks already." 400
    else ok (hang_group printing stamp s new)

unfoldable pub save_group : Printing → ℕ → Option Text → Text → Option Text → State → Result State
save_group printing stamp gid name motif s =
    let raw : RawGroup = record { id = gid; name = some name; motif = motif; server_ids = [] } in
    save_cleaned printing stamp gid (clean_group printing raw) s

abbrev pub groups_but : Text → List Group → List Group
groups_but gid [] = []
groups_but gid (g ∷ gs) = let rest = groups_but gid gs in if g.id == gid then rest else g ∷ rest

abbrev pub hung_but : Text → List (Text × Text) → List (Text × Text)
hung_but gid [] = []
hung_but gid ((s, g) ∷ rest) =
    let others = hung_but gid rest in if g == gid then others else (s, g) ∷ others

unfoldable pub delete_group : Text → State → State
delete_group gid s = with_assign (with_groups s (groups_but gid s.groups)) (hung_but gid s.assign)

-- `assign`; `None` and an empty id take the servers down
unfoldable pub assign_servers : List Text → Option Text → State → Result State
assign_servers sids none s = ok (with_assign s (take_down_all sids s.assign))
assign_servers sids (some gid) s =
    if is_empty gid
    then ok (with_assign s (take_down_all sids s.assign))
    else if contains (ids_of s.groups) gid
    then ok (with_assign s (hang_all sids gid s.assign))
    else raise "That rack is not there any more." 400

-- One rack of a suggestion
unfoldable pub plan_group : Printing → ℕ → List Text → Group → State → State
plan_group printing stamp sids new s =
    let hung = hang_group printing stamp s new in
    with_assign hung (hang_all sids (with_unique_id printing stamp s new).id s.assign)

-- The loop of `plan`; an entry that is not a dictionary is `none`
unfoldable pub plan_groups : Printing → ℕ → List (Option RawGroup) → State → State
plan_groups printing stamp [] s = s
plan_groups printing stamp (none ∷ raws) s = plan_groups printing stamp raws s
plan_groups printing stamp (some raw ∷ raws) s = elim (clean_group printing raw) [
  | none ↦ plan_groups printing stamp raws s
  | some new ↦
      if leb max_groups (length s.groups)
      then s
      else plan_groups printing stamp raws (plan_group printing stamp raw.server_ids new s)
]

unfoldable pub plan : Printing → ℕ → List (Option RawGroup) → State → State
plan printing stamp raws s = plan_groups printing stamp (take max_groups raws) s

-- The assignment is only looked at where the server has no activity
unfoldable pub forget : Text → State → State
forget sid s = elim (get s.activity sid) [
  | some seen ↦ record { groups = s.groups; assign = s.assign; activity = take_down sid s.activity }
  | none ↦ record {
    groups = s.groups;
    assign = take_down sid s.assign;
    activity = take_down sid s.activity;
  }
]
