-- ===== src/Examples/Groups.antt =====
-- Racks: runs on concrete inputs.
use bless_forge.Base.{
  ◌≡◌, refl, true, false, Option, none, some, List, [], ◌∷◌, ◌++◌, map, arith, nat_eq, string_eq,
  Text, text_eq, codes, All,
}
use bless_forge.Base.Strings.{strip}
use bless_forge.Racks.Model.{
  Printing, Group, RawGroup, Activity, State, clean_group, slug, dashed, left_dashes, right_dashes,
  unique_id, next_free,
}
use bless_forge.Racks.Change.{
  hang, hang_all, hang_group, delete_group, assign_servers, plan_group, plan_groups, plan, forget,
}
use bless_forge.Racks.Document.{document}
use bless_forge.Racks.Listing.{Shows, document-Shows}
use bless_forge.Racks.Sound.{IsSound}
use bless_forge.Racks.Reached.{Step, stay, go, assigned, planned, Steps-IsSound}

-- Names that are ASCII already, and numbers printed as one character.
abbrev plain_printing : Printing
plain_printing = record { nfkd_ascii = λ t. t; show = λ n. n ∷ [] }

abbrev blank : State
blank = record { groups = []; assign = []; activity = [] }

blank-IsSound : IsSound blank
blank-IsSound = record { different = refl; few = omega arith; clean = refl; hung = refl }

abbrev wish : List Text → Option RawGroup
wish sids = some (record {
  id = none;
  name = some (codes " My Mods! ");
  motif = some (codes "torii");
  server_ids = sids;
})

abbrev wishes : List (Option RawGroup)
wishes = wish (codes "smp" ∷ []) ∷ none ∷ wish (codes "hub" ∷ []) ∷ []

abbrev mods_id : Text
mods_id = codes "my-mods"

abbrev second_id : Text
second_id = codes "my-mods-" ++ (2 ∷ [])

abbrev rack_of : Text → Group
rack_of gid = record { id = gid; name = codes "My Mods!"; motif = codes "torii" }

-- Two racks of one name have two ids.
abbrev two_racks : State
two_racks = record {
  groups = rack_of mods_id ∷ rack_of second_id ∷ [];
  assign = (codes "smp", mods_id) ∷ (codes "hub", second_id) ∷ [];
  activity = [];
}

plan-wishes : plan plain_printing 7 wishes blank ≡ two_racks
unfolding plan plan_groups clean_group strip slug dashed left_dashes right_dashes unique_id
    next_free plan_group hang_group hang_all hang
plan-wishes = refl

abbrev moved : State
moved = record {
  groups = rack_of mods_id ∷ rack_of second_id ∷ [];
  assign = (codes "smp", second_id) ∷ (codes "hub", second_id) ∷ [];
  activity = [];
}

Steps-IsSound_example : IsSound (delete_group mods_id moved)
unfolding plan plan_groups clean_group strip slug dashed left_dashes right_dashes unique_id
    next_free plan_group hang_group hang_all hang assign_servers
Steps-IsSound_example =
    Steps-IsSound plain_printing (λ a b h. cc)
      (go (planned 7 wishes) (
        go (assigned (codes "smp" ∷ []) (some second_id) {after = moved} refl)
          (go (Step.deleted mods_id) stay)))
      blank-IsSound

document-Shows_example :
    (map (λ v. v.group) (document (some (codes "smp" ∷ [])) moved).groups ≡ moved.groups)
    × All (Shows (some (codes "smp" ∷ [])) moved) (document (some (codes "smp" ∷ [])) moved).groups
document-Shows_example = document-Shows (some (codes "smp" ∷ [])) moved

abbrev seen_up : Activity
seen_up = record {
  first_seen = 1;
  name = none;
  running = true;
  last_started = some 1;
  observed = false;
  last_running_at = some 1;
}

-- A deleted server that was ever polled stays on its rack: only its activity is dropped.
forget_seen :
    (forget (codes "smp") (record {
      groups = two_racks.groups;
      assign = two_racks.assign;
      activity = (codes "smp", seen_up) ∷ [];
    })).assign
    ≡ two_racks.assign
unfolding forget
forget_seen = refl
