-- ===== src/Racks/Grown.antt =====
-- Hanging racks keeps the racks sound (app/fleetgroups.py).
use bless_forge.Base.{
  ℕ, zero, suc, ◌≤◌, ◌<◌, ◌≡◌, refl, ap, ◌∙◌, inl, inr, true, Option, none, some, List, [], ◌∷◌,
  arith, leb, Bool-cases, Option-cases, and-true_left, and-true_right, ◌==◌, nat_eq, string_eq,
  Text, text_eq, ==_refl, contains, contains-append, length, take, is_empty, all, all-append,
  length-append, ok, raise,
}
use bless_forge.Racks.Model.{
  Printing, Group, RawGroup, State, motifs, max_groups, max_name, clean_group, known_motif,
  stripped_or_empty, some_text, slug,
}
use bless_forge.Racks.Change.{
  ids_of, rename_group, with_unique_id, hang_group, with_groups, save_cleaned, save_group,
  plan_group, plan_groups, plan, is_there, id_or_empty,
}
use bless_forge.Racks.Fresh.{unique_id-fresh}
use bless_forge.Racks.Sound.{
  is_clean, IsSound, ids_of-append, length-ids_of, distinct-append, all-hung-more, hang_all-hung,
}
use bless_forge.Racks.Kept.{with_assign-IsSound}

ids_of-rename_group :
    (gid : Text) (new : Group) (gs : List Group) → ids_of (rename_group gid new gs) ≡ ids_of gs
unfolding rename_group
ids_of-rename_group gid new [] = refl
ids_of-rename_group gid new (g ∷ gs) =
    let ih = ids_of-rename_group gid new gs in
    elim (Bool-cases (g.id == gid)) [ inl e ↦ rw e refl | inr e ↦ rw (e, ih) refl ]

clean-rename_group :
    (gid : Text) (new : Group) (gs : List Group)
    → is_clean new ≡ true
    → all is_clean gs ≡ true
    → all is_clean (rename_group gid new gs) ≡ true
unfolding rename_group
clean-rename_group gid new [] c h = refl
clean-rename_group gid new (g ∷ gs) c h =
    let first : is_clean g ≡ true = and-true_left (is_clean g) _ h in
    let others : all is_clean gs ≡ true = and-true_right (is_clean g) _ h in
    elim (Bool-cases (g.id == gid)) [
      | inl e ↦ rw (e, c) others
      | inr e ↦ rw (e, first) (clean-rename_group gid new gs c others)
    ]

rename_group-IsSound :
    (gid : Text) (new : Group) (s : State)
    → is_clean new ≡ true
    → IsSound s
    → IsSound (with_groups s (rename_group gid new s.groups))
rename_group-IsSound gid new s c sound =
    let ids = ids_of-rename_group gid new s.groups in
    record {
      different = rw ids sound.different;
      few =
          let size = length-ids_of (rename_group gid new s.groups) in
          let before = length-ids_of s.groups in
          let same = ap length ids in omega (arith, size, before, same, sound.few);
      clean = clean-rename_group gid new s.groups c sound.clean;
      hung = rw ids sound.hung;
    }

length-take : (n : ℕ) (xs : Text) → length (take n xs) ≤ n
length-take zero xs = omega arith
length-take (suc n) [] = omega arith
length-take (suc n) (x ∷ xs) = omega (arith, length-take n xs)

known_motif-motifs : (motif : Option Text) → contains motifs (known_motif motif) ≡ true
known_motif-motifs none = refl
known_motif-motifs (some m) = elim (Bool-cases (contains motifs m)) [
  | inl e ↦ rw e e
  | inr e ↦ rw e refl
]

clean_group-is_clean :
    (printing : Printing) (raw : RawGroup) {new : Group}
    → clean_group printing raw ≡ some new
    → is_clean new ≡ true
unfolding clean_group
clean_group-is_clean printing raw {new} h =
    let name = take max_name (stripped_or_empty raw.name) in
    elim (Bool-cases (is_empty name)) [
      | inl e ↦ let k : none ≡ some new = rw e at h in cc
      | inr e ↦
          let made : Group = record {
            id = take 64 (some_text (stripped_or_empty raw.id) (slug printing name));
            name = name;
            motif = known_motif raw.motif;
          } in
          let k : some made ≡ some new = rw e at h in
          let same : made ≡ new = cc in
          let short : leb (length name) max_name ≡ true =
            ground (arith, length-take max_name (stripped_or_empty raw.name)) in
          rw (← same) (rw (known_motif-motifs raw.motif, e, short) refl)
    ]

module _ (printing : Printing) (injective : (a b : ℕ) → printing.show a ≡ printing.show b → a ≡ b)
    (stamp : ℕ) where
  hang_group-IsSound :
      (s : State) (new : Group)
      → IsSound s
      → is_clean new ≡ true
      → length s.groups < max_groups
      → IsSound (hang_group printing stamp s new)
  unfolding hang_group
  hang_group-IsSound s new sound c room =
      let made = with_unique_id printing stamp s new in
      let ids = ids_of-append s.groups (made ∷ []) in
      let size = length-ids_of s.groups in
      let fresh =
        unique_id-fresh printing injective new.id stamp (ids_of s.groups)
          (omega (arith, size, room)) in
      record {
        different = rw ids (distinct-append (ids_of s.groups) made.id sound.different fresh);
        few = let longer = length-append s.groups (made ∷ []) in omega (arith, longer, room);
        clean = all-append is_clean s.groups (made ∷ []) ∙ (ground (arith, sound.clean, c));
        hung = rw ids (all-hung-more (ids_of s.groups) (made.id ∷ []) s.assign sound.hung);
      }

  hang_group-there :
      (s : State) (new : Group)
      → contains
          (ids_of (hang_group printing stamp s new).groups)
          (with_unique_id printing stamp s new).id
        ≡ true
  unfolding hang_group
  hang_group-there s new =
      let made = with_unique_id printing stamp s new in
      let itself : contains (made.id ∷ []) made.id ≡ true = ground (arith, ==_refl made.id) in
      rw
        (
          ids_of-append s.groups (made ∷ []),
          contains-append (ids_of s.groups) (made.id ∷ []) made.id,
          itself,
        )
        (ground arith)

  save_cleaned-IsSound :
      (gid : Option Text) (new : Option Group) (s : State) {after : State}
      → ((g : Group) → new ≡ some g → is_clean g ≡ true)
      → IsSound s
      → save_cleaned printing stamp gid new s ≡ ok after
      → IsSound after
  save_cleaned-IsSound gid none s c sound h = cc
  save_cleaned-IsSound gid (some new) s {after} c sound h =
      elim (Bool-cases (is_there gid s.groups)) [
        | inl there ↦
            let renamed = with_groups s (rename_group (id_or_empty gid) new s.groups) in
            let k : ok renamed ≡ ok after = rw there at h in
            let e : renamed ≡ after = cc in
            rw (← e) (rename_group-IsSound (id_or_empty gid) new s (c new refl) sound)
        | inr missing ↦ elim (Bool-cases (leb max_groups (length s.groups))) [
          | inl full ↦
              let k : raise "That is 40 racks already." 400 ≡ ok after = rw (missing, full) at h in
              cc
          | inr room ↦
              let k : ok (hang_group printing stamp s new) ≡ ok after = rw (missing, room) at h in
              let e : hang_group printing stamp s new ≡ after = cc in
              rw (← e) (hang_group-IsSound s new sound (c new refl) (ground arith))
        ]
      ]

  pub save_group-IsSound :
      (gid : Option Text) (name : Text) (motif : Option Text) (s : State) {after : State}
      → IsSound s
      → save_group printing stamp gid name motif s ≡ ok after
      → IsSound after
  unfolding save_group
  save_group-IsSound gid name motif s sound h =
      let raw : RawGroup = record { id = gid; name = some name; motif = motif; server_ids = [] } in
      save_cleaned-IsSound gid (clean_group printing raw) s
        (λ g e. clean_group-is_clean printing raw e) sound h

  plan_group-IsSound :
      (sids : List Text) (new : Group) (s : State)
      → IsSound s
      → is_clean new ≡ true
      → length s.groups < max_groups
      → IsSound (plan_group printing stamp sids new s)
  unfolding plan_group hang_group
  plan_group-IsSound sids new s sound c room =
      let hung = hang_group printing stamp s new in
      let made = with_unique_id printing stamp s new in
      let grown = hang_group-IsSound s new sound c room in
      with_assign-IsSound hung _ grown (
        hang_all-hung (ids_of hung.groups) sids made.id s.assign (hang_group-there s new)
          grown.hung)

  plan_groups-IsSound :
      (raws : List (Option RawGroup)) (s : State)
      → IsSound s
      → IsSound (plan_groups printing stamp raws s)
  unfolding plan_groups
  plan_groups-IsSound [] s sound = sound
  plan_groups-IsSound (none ∷ raws) s sound = plan_groups-IsSound raws s sound
  plan_groups-IsSound (some raw ∷ raws) s sound = elim (Option-cases (clean_group printing raw)) [
    | inl e ↦ rw (plan_groups, e) (plan_groups-IsSound raws s sound)
    | inr (new, e) ↦ elim (Bool-cases (leb max_groups (length s.groups))) [
      | inl full ↦ rw (plan_groups, e, full) sound
      | inr room ↦
          let hung =
            plan_group-IsSound raw.server_ids new s sound (clean_group-is_clean printing raw e)
              (ground arith) in
          rw (plan_groups, e, room) (plan_groups-IsSound raws _ hung)
    ]
  ]

  pub plan-IsSound :
      (raws : List (Option RawGroup)) (s : State) → IsSound s → IsSound (plan printing stamp raws s)
  unfolding plan
  plan-IsSound raws s sound = plan_groups-IsSound (take max_groups raws) s sound
