-- ===== src/Racks/Kept.antt =====
-- Each change of the racks keeps them sound (app/fleetgroups.py).
use bless_forge.Base.{
  ◌≤◌, ◌≡◌, refl, ◌∙◌, inl, inr, true, Option, none, some, List, [], ◌∷◌, arith, Bool-cases,
  and-true_left, and-true_right, ◌==◌, nat_eq, string_eq, Text, text_eq, contains, length, is_empty,
  all, get, ok, raise,
}
use bless_forge.Racks.Model.{Group, Activity, State}
use bless_forge.Racks.Change.{
  ids_of, take_down, hang_all, take_down_all, groups_but, hung_but, delete_group, assign_servers,
  forget, with_assign,
}
use bless_forge.Racks.Sound.{
  distinct, is_clean, is_hung, IsSound, hang_all-hung, take_down-hung, take_down_all-hung,
  contains-groups_but,
}

distinct-groups_but :
    (gid : Text) (gs : List Group)
    → distinct (ids_of gs) ≡ true
    → distinct (ids_of (groups_but gid gs)) ≡ true
distinct-groups_but gid [] h = refl
distinct-groups_but gid (g ∷ gs) h =
    let ih = distinct-groups_but gid gs (ground arith) in
    let still = contains-groups_but gid g.id gs in
    elim (Bool-cases (g.id == gid)) [ inl e ↦ rw e ih | inr e ↦ rw e (ground arith) ]

clean-groups_but :
    (gid : Text) (gs : List Group)
    → all is_clean gs ≡ true
    → all is_clean (groups_but gid gs) ≡ true
clean-groups_but gid [] h = refl
clean-groups_but gid (g ∷ gs) h =
    let first : is_clean g ≡ true = and-true_left (is_clean g) _ h in
    let ih = clean-groups_but gid gs (and-true_right (is_clean g) _ h) in
    elim (Bool-cases (g.id == gid)) [ inl e ↦ rw e ih | inr e ↦ rw (e, first) ih ]

length-groups_but : (gid : Text) (gs : List Group) → length (groups_but gid gs) ≤ length gs
length-groups_but gid [] = omega arith
length-groups_but gid (g ∷ gs) =
    let ih = length-groups_but gid gs in
    elim (Bool-cases (g.id == gid)) [
      | inl e ↦ rw e (omega (arith, ih))
      | inr e ↦ rw e (omega (arith, ih))
    ]

hung-hung_but :
    (gid : Text) (gs : List Group) (pairs : List (Text × Text))
    → all (is_hung (ids_of gs)) pairs ≡ true
    → all (is_hung (ids_of (groups_but gid gs))) (hung_but gid pairs) ≡ true
hung-hung_but gid gs [] h = refl
hung-hung_but gid gs ((s, g) ∷ rest) h =
    let ih = hung-hung_but gid gs rest (and-true_right (contains (ids_of gs) g) _ h) in
    let there : contains (ids_of gs) g ≡ true = and-true_left (contains (ids_of gs) g) _ h in
    elim (Bool-cases (g == gid)) [
      | inl e ↦ rw e ih
      | inr e ↦
          let stays : contains (ids_of (groups_but gid gs)) g ≡ true =
            contains-groups_but gid g gs ∙ rw (there, e) refl in
          rw (e, stays) ih
    ]

pub delete_group-IsSound : (gid : Text) (s : State) → IsSound s → IsSound (delete_group gid s)
unfolding delete_group
delete_group-IsSound gid s sound = record {
  different = distinct-groups_but gid s.groups sound.different;
  few = let le = length-groups_but gid s.groups in omega (arith, le, sound.few);
  clean = clean-groups_but gid s.groups sound.clean;
  hung = hung-hung_but gid s.groups s.assign sound.hung;
}

pub with_assign-IsSound :
    (s : State) (assigned : List (Text × Text))
    → IsSound s
    → all (is_hung (ids_of s.groups)) assigned ≡ true
    → IsSound (with_assign s assigned)
with_assign-IsSound s assigned sound h = record {
  different = sound.different;
  few = sound.few;
  clean = sound.clean;
  hung = h;
}

pub assign_servers-IsSound :
    (sids : List Text) (gid : Option Text) (s : State) {after : State}
    → IsSound s
    → assign_servers sids gid s ≡ ok after
    → IsSound after
unfolding assign_servers
assign_servers-IsSound sids none s {after} sound h =
    let e : with_assign s (take_down_all sids s.assign) ≡ after = cc in
    rw (← e) (with_assign-IsSound s _ sound (take_down_all-hung _ sids s.assign sound.hung))
assign_servers-IsSound sids (some gid) s {after} sound h = elim (Bool-cases (is_empty gid)) [
  | inl empty ↦
      let k : ok (with_assign s (take_down_all sids s.assign)) ≡ ok after = rw empty at h in
      let e : with_assign s (take_down_all sids s.assign) ≡ after = cc in
      rw (← e) (with_assign-IsSound s _ sound (take_down_all-hung _ sids s.assign sound.hung))
  | inr named ↦ elim (Bool-cases (contains (ids_of s.groups) gid)) [
    | inl there ↦
        let k : ok (with_assign s (hang_all sids gid s.assign)) ≡ ok after =
          rw (named, there) at h in
        let e : with_assign s (hang_all sids gid s.assign) ≡ after = cc in
        rw (← e)
          (with_assign-IsSound s _ sound (hang_all-hung _ sids gid s.assign there sound.hung))
    | inr gone ↦
        let k : raise "That rack is not there any more." 400 ≡ ok after = rw (named, gone) at h in
        cc
  ]
]

pub forget-IsSound : (sid : Text) (s : State) → IsSound s → IsSound (forget sid s)
unfolding forget
forget-IsSound sid s sound = go (get s.activity sid)
  where
    go :
        (seen : Option Activity)
        → IsSound (elim seen [
          | some a ↦ record {
            groups = s.groups;
            assign = s.assign;
            activity = take_down sid s.activity;
          }
          | none ↦ record {
            groups = s.groups;
            assign = take_down sid s.assign;
            activity = take_down sid s.activity;
          }
        ])
    go (some a) = record {
      different = sound.different;
      few = sound.few;
      clean = sound.clean;
      hung = sound.hung;
    }
    go none = record {
      different = sound.different;
      few = sound.few;
      clean = sound.clean;
      hung = take_down-hung _ sid s.assign sound.hung;
    }
