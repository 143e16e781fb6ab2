-- ===== src/Deps/Sound.antt =====
-- The plan of `resolve` (app/deps.py).
use mathlib.Core.List.{append_assoc}
use bless_forge.Base.{
  ℕ, zero, suc, ◌+◌, ◌≤◌, ◌<◌, ◌≡◌, refl, ◌∙◌, inl, inr, Bool, true, not, ◌&&◌, ◌||◌, Option, none,
  some, List, [], ◌∷◌, ◌++◌, arith, ltb, leb, eqb, if◌then◌else◌, ltb→lt, Bool-cases, ◌==◌, nat_eq,
  string_eq, Text, text_eq, ==_refl, contains, codes, length, is_empty, all, length-append, Result,
  ok, err,
}
use bless_forge.Deps.Model.{
  Dependency, Version, Project, Catalog, Installed, PlanEntry, Walk, Item, renderer, client_only,
}
use bless_forge.Deps.Resolve.{
  max_depth, max_dependencies, or_text, key, required_of, item_of, each, add_warning, add, see,
  add_planned, unless_renderer, place, entry_of, never_on_server, enter, stop_visit, visit,
  visit_root, fetch, root_item, start_walk,
}
use bless_forge.Deps.Grows.{
  some_holds-append_left, some_holds-append_last, all-or, asked_for, is_full, was_seen, is_sound,
  is_met, Grows, Grows-same, Grows-asked_for, Grows-trans, Grows-is_met, Visits, each-Grows,
}

-- The visits of what an entry above the last level requires
abbrev Follows : (Item → Walk → Walk) → ℕ → Type 0
Follows follow depth =
    (entry : PlanEntry)
    → entry.depth ≡ depth
    → depth < max_depth
    → (d : Dependency) (s : Walk) → asked_for s.plan entry.name (entry.depth + 1) ≡ true
    → Visits s (follow (item_of entry d) s) (item_of entry d)

-- The entry added, and then what follows from it
add-Grows :
    (entry : PlanEntry) (s t : Walk)
    → Grows (add entry s) t
    → length s.plan < max_dependencies
    → is_sound t entry ≡ true
    → Grows s t
add-Grows entry s t g room sound = record {
  new = entry ∷ g.new;
  grown = g.grown ∙ append_assoc s.plan (entry ∷ []) g.new;
  kept = g.kept;
  bounded = λ h. g.bounded (let n = length-append s.plan (entry ∷ []) in omega (arith, n, room));
  sound = rw (sound, g.sound) refl;
}

asked_for-name :
    (plan : List PlanEntry) (entry : PlanEntry)
    → asked_for (plan ++ (entry ∷ [])) entry.name (entry.depth + 1) ≡ true
asked_for-name plan entry =
    let self : ((entry.name == entry.name) && eqb (entry.depth + 1) (entry.depth + 1)) ≡ true =
      ground (arith, ==_refl entry.name) in
    let found =
      some_holds-append_last (λ p. (p.name == entry.name) && eqb (p.depth + 1) (entry.depth + 1))
        plan entry self in
    ground (arith, found)

-- An entry that was asked for is sound once what it requires was visited
is_sound-followed :
    (entry : PlanEntry) (s t : Walk)
    → entry.depth ≤ max_depth
    → asked_for s.plan entry.required_by entry.depth ≡ true
    → Grows (add entry s) t
    → (eqb entry.depth max_depth
        || all
            (λ d. is_met t (or_text d.project_id d.version_id))
            (required_of entry.version.dependencies))
      ≡ true
    → is_sound t entry ≡ true
is_sound-followed entry s t low asked g met =
    let more =
      some_holds-append_left (λ p. (p.name == entry.required_by) && eqb (p.depth + 1) entry.depth)
        s.plan (entry ∷ []) in
    let asked_too : asked_for (add entry s).plan entry.required_by entry.depth ≡ true =
      ground (arith, asked, more) in
    let later = Grows-asked_for (add entry s) t entry.required_by entry.depth g asked_too in
    let apart =
      all-or (is_full t) (λ d. was_seen t (or_text d.project_id d.version_id))
        (required_of entry.version.dependencies) in
    ground (arith, low, later, met, apart)

added-Grows :
    (follow : Item → Walk → Walk) (entry : PlanEntry) (s : Walk)
    → Follows follow entry.depth
    → entry.depth ≤ max_depth
    → asked_for s.plan entry.required_by entry.depth ≡ true
    → length s.plan < max_dependencies
    → let added = add entry s in
      let followed = each follow entry (required_of entry.version.dependencies) added in
      Grows s (if ltb entry.depth max_depth then followed else added)
added-Grows follow entry s follows low asked room =
    let added = add entry s in
    elim (Bool-cases (ltb entry.depth max_depth)) [
      | inl above ↦
          let (g, met) =
            each-Grows follow entry (follows entry refl (ltb→lt entry.depth max_depth above))
              (required_of entry.version.dependencies) added (asked_for-name s.plan entry) in
          let t = each follow entry (required_of entry.version.dependencies) added in
          rw above (
            add-Grows entry s t g room
              (is_sound-followed entry s t low asked g (rw met (ground arith))))
      | inr last ↦
          let g = Grows-same added added refl (λ pid h. h) in
          rw last (
            add-Grows entry s added g room
              (is_sound-followed entry s added low asked g (ground (arith, low, last))))
    ]

add_planned-Grows :
    (follow : Item → Walk → Walk) (entry : PlanEntry) (s : Walk)
    → Follows follow entry.depth
    → entry.depth ≤ max_depth
    → asked_for s.plan entry.required_by entry.depth ≡ true
    → length s.plan < max_dependencies
    → Grows s (add_planned follow entry s)
unfolding add_planned
add_planned-Grows follow entry s follows low asked room =
    elim (Bool-cases (entry.server_side == codes "unsupported")) [
      | inl only ↦
          let noted = add_warning (client_only entry.name) s in
          rw only (
            Grows-trans s noted _ (Grows-same s noted refl (λ pid h. h))
              (added-Grows follow entry noted follows low asked room))
      | inr both ↦ rw both (added-Grows follow entry s follows low asked room)
    ]

unless_renderer-Grows :
    (follow : Item → Walk → Walk) (item : Item) (entry : PlanEntry) (name : Option Text) (s : Walk)
    → Follows follow entry.depth
    → entry.depth ≤ max_depth
    → asked_for s.plan entry.required_by entry.depth ≡ true
    → length s.plan < max_dependencies
    → Grows s (unless_renderer follow item entry name s)
unfolding unless_renderer
unless_renderer-Grows follow item entry none s follows low asked room =
    add_planned-Grows follow entry s follows low asked room
unless_renderer-Grows follow item entry (some name) s follows low asked room =
    elim (Bool-cases (is_empty item.required_by)) [
      | inl root ↦
          let noted = add_warning (renderer name) s in
          rw root (
            Grows-trans s noted _ (Grows-same s noted refl (λ pid h. h))
              (add_planned-Grows follow entry noted follows low asked room))
      | inr dependency ↦ rw dependency (Grows-same s _ refl (λ pid h. h))
    ]

place-Grows :
    (follow : Item → Walk → Walk) (installed : Installed) (item : Item) (already : Bool)
    (fetched : Result (Option (Version × Project))) (s : Walk)
    → Follows follow item.depth
    → item.depth ≤ max_depth
    → asked_for s.plan item.required_by item.depth ≡ true
    → length s.plan < max_dependencies
    → Grows s (place follow installed item already fetched s)
unfolding place
place-Grows follow installed item already (err e) s follows low asked room =
    Grows-same s _ refl (λ pid h. h)
place-Grows follow installed item already (ok none) s follows low asked room =
    Grows-same s _ refl (λ pid h. h)
place-Grows follow installed item already (ok (some (version, project))) s follows low asked room =
    unless_renderer-Grows follow item (entry_of installed item version project already)
      (never_on_server project.slug) s follows low asked room

module _ (catalog : Catalog) (mc_version loader : Text) (installed : Installed) where
  enter-Visits :
      (follow : Item → Walk → Walk) (item : Item) (s : Walk)
      → Follows follow item.depth
      → item.depth ≤ max_depth
      → asked_for s.plan item.required_by item.depth ≡ true
      → Visits s (enter catalog mc_version loader installed follow item s) item
  unfolding enter
  enter-Visits follow item s follows low asked =
      let k = key item.project in
      let already = contains installed.by_project k in
      let saw = see k s in
      let seen : Grows s saw = Grows-same s saw refl (λ pid h. ground (arith, h)) in
      let met : is_met saw item.project ≡ true = ground (arith, ==_refl k) in
      elim (Bool-cases (contains s.seen k || leb max_dependencies (length s.plan))) [
        | inl sorts_first ↦
            rw sorts_first (record { grows = Grows-same s s refl (λ pid h. h); met = sorts_first })
        | inr new ↦ elim (Bool-cases (already && not (is_empty item.required_by))) [
          | inl present ↦ rw (new, present) (record { grows = seen; met = met })
          | inr absent ↦
              let g =
                place-Grows follow installed item already
                  (fetch catalog mc_version loader installed item) saw follows low asked
                  (ground (arith, new)) in
              rw (new, absent)
                (record {
                  grows = Grows-trans s saw _ seen g;
                  met = Grows-is_met saw _ item.project g met;
                })
        ]
      ]

  visit-Visits :
      (left : ℕ) (item : Item) (s : Walk)
      → item.depth + left ≡ max_depth
      → asked_for s.plan item.required_by item.depth ≡ true
      → Visits s (visit catalog mc_version loader installed left item s) item
  unfolding visit
  visit-Visits zero item s depth asked =
      enter-Visits stop_visit item s
        (λ entry same above d t asked. absurd (omega (arith, depth, above))) (omega (arith, depth))
        asked
  visit-Visits (suc left) item s depth asked =
      enter-Visits (visit catalog mc_version loader installed left) item s
        (λ entry same above d t asked.
          visit-Visits left (item_of entry d) t (omega (arith, depth, same)) asked)
        (omega (arith, depth)) asked

  -- What `resolve` plans on Modrinth is at most forty entries, none deeper than four. Each is the
  -- root or named as needed by an entry one level above it, and what an entry above the last level
  -- requires was visited, unless the plan is full, and so was the root.
  pub visit_root-IsSound :
      (project file : Text)
      → let s = visit_root catalog mc_version loader installed project file in
        (length s.plan ≤ max_dependencies)
        × (all (is_sound s) s.plan ≡ true)
        × (is_met s project ≡ true)
  unfolding visit_root
  visit_root-IsSound project file =
      let root = visit-Visits max_depth (root_item project file) start_walk (omega arith) refl in
      let g = root.grows in (g.bounded (omega arith), rw g.grown g.sound, root.met)
