-- ===== src/Deps/Levels.antt =====
-- The levels of `visit` (app/deps.py: `resolve`): four below the root are all that its guard lets it
-- enter.
use bless_forge.Base.{
  ℕ, zero, suc, ◌+◌, ◌≤◌, ◌<◌, ◌≡◌, refl, ap, ◌∙◌, inl, inr, Bool, Option, none, some, List, [],
  ◌∷◌, arith, ltb, ltb→lt, Bool-cases, nat_eq, string_eq, Text, text_eq, contains, Result, ok, err,
}
use bless_forge.Deps.Model.{Dependency, Version, Project, Catalog, Installed, PlanEntry, Walk, Item}
use bless_forge.Deps.Resolve.{
  max_depth, key, required_of, item_of, each, add, see, note_client_only, add_planned,
  unless_renderer, place, entry_of, never_on_server, enter, stop_visit, visit, fetch,
}

-- Two ways to follow agree on what an entry above the last level requires
abbrev Agrees : (Item → Walk → Walk) → (Item → Walk → Walk) → ℕ → Type 0
Agrees follow other depth =
    depth < max_depth
    → (item : Item) → item.depth ≡ depth + 1
    → (s : Walk) → follow item s ≡ other item s

each-Agrees :
    (follow other : Item → Walk → Walk) (entry : PlanEntry) (ds : List Dependency) (s : Walk)
    → ((item : Item) → item.depth ≡ entry.depth + 1 → (s : Walk) → follow item s ≡ other item s)
    → each follow entry ds s ≡ each other entry ds s
each-Agrees follow other entry [] s same = refl
each-Agrees follow other entry (d ∷ ds) s same =
    let here = same (item_of entry d) refl s in
    each-Agrees follow other entry ds (follow (item_of entry d) s) same
    ∙ ap (each other entry ds) here

add_planned-Agrees :
    (follow other : Item → Walk → Walk) (entry : PlanEntry) (s : Walk)
    → Agrees follow other entry.depth
    → add_planned follow entry s ≡ add_planned other entry s
unfolding add_planned
add_planned-Agrees follow other entry s same = elim (Bool-cases (ltb entry.depth max_depth)) [
  | inr last ↦ rw last refl
  | inl above ↦
      let k =
        each-Agrees follow other entry (required_of entry.version.dependencies)
          (add entry (note_client_only entry s)) (same (ltb→lt entry.depth max_depth above)) in
      rw above k
]

unless_renderer-Agrees :
    (follow other : Item → Walk → Walk) (item : Item) (entry : PlanEntry) (name : Option Text)
    (s : Walk)
    → Agrees follow other entry.depth
    → unless_renderer follow item entry name s ≡ unless_renderer other item entry name s
unfolding unless_renderer
unless_renderer-Agrees follow other item entry none s same =
    add_planned-Agrees follow other entry s same
unless_renderer-Agrees follow other item entry (some name) s same =
    rw (add_planned-Agrees follow other entry _ same) refl

place-Agrees :
    (follow other : Item → Walk → Walk) (installed : Installed) (item : Item) (already : Bool)
    (fetched : Result (Option (Version × Project))) (s : Walk)
    → Agrees follow other item.depth
    → place follow installed item already fetched s ≡ place other installed item already fetched s
unfolding place
place-Agrees follow other installed item already (err e) s same = refl
place-Agrees follow other installed item already (ok none) s same = refl
place-Agrees follow other installed item already (ok (some (version, project))) s same =
    unless_renderer-Agrees follow other item (entry_of installed item version project already)
      (never_on_server project.slug) s same

module _ (catalog : Catalog) (mc_version loader : Text) (installed : Installed) where
  enter-Agrees :
      (follow other : Item → Walk → Walk) (item : Item) (s : Walk)
      → Agrees follow other item.depth
      → enter catalog mc_version loader installed follow item s
        ≡ enter catalog mc_version loader installed other item s
  unfolding enter
  enter-Agrees follow other item s same =
      rw
        (place-Agrees follow other installed item (contains installed.by_project (key item.project))
          (fetch catalog mc_version loader installed item) (see (key item.project) s) same)
        refl

  -- Any two numbers of levels that reach down to the fourth give the same visit: its guard on the
  -- depth ends it, not the levels.
  pub visit-enough :
      (left other : ℕ) (item : Item) (s : Walk)
      → max_depth ≤ item.depth + left
      → max_depth ≤ item.depth + other
      → visit catalog mc_version loader installed left item s
        ≡ visit catalog mc_version loader installed other item s
  unfolding visit
  visit-enough zero zero item s low deep = refl
  visit-enough zero (suc other) item s low deep =
      enter-Agrees stop_visit (visit catalog mc_version loader installed other) item s
        (λ above. absurd (omega (arith, low, above)))
  visit-enough (suc left) zero item s low deep =
      enter-Agrees (visit catalog mc_version loader installed left) stop_visit item s
        (λ above. absurd (omega (arith, deep, above)))
  visit-enough (suc left) (suc other) item s low deep =
      enter-Agrees (visit catalog mc_version loader installed left)
        (visit catalog mc_version loader installed other) item s
        (λ above next depth t.
          visit-enough left other next t (omega (arith, low, depth)) (omega (arith, deep, depth)))
