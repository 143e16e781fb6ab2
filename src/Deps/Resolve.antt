-- ===== src/Deps/Resolve.antt =====
-- app/deps.py: `resolve` on Modrinth.
use bless_forge.Base.{
  ℕ, zero, suc, ◌+◌, Bool, true, false, not, ◌&&◌, ◌||◌, Option, none, some, List, [], ◌∷◌, ◌++◌,
  ltb, leb, if◌then◌else◌, ◌==◌, nat_eq, string_eq, Text, text_eq, contains, codes, length,
  is_empty, get, Result, ok, err, ◌>>=◌,
}
use bless_forge.Base.Strings.{lower}
use bless_forge.Deps.Stems.{stem}
use bless_forge.Deps.Pick.{pick_file}
use bless_forge.Deps.Model.{
  Dependency, Version, Project, Catalog, Installed, Match, unmatched, exact_filename, looks_like,
  PlanEntry, Warning, no_version, unresolved, needs_renderer, renderer, client_only, Walk, Item,
  InstallPlan,
}

abbrev pub max_depth : ℕ
max_depth = 4

abbrev pub max_dependencies : ℕ
max_dependencies = 40

-- `NEVER_ON_SERVER` of app/clientscan.py, by a project's slug
abbrev pub never_on_server : Text → Option Text
never_on_server slug =
    get
      ((codes "sodium", codes "Sodium")
        ∷ (codes "embeddium", codes "Embeddium")
        ∷ (codes "oculus", codes "Oculus")
        ∷ [])
      (lower slug)

abbrev pub add_warning : Warning → Walk → Walk
add_warning w s = record { plan = s.plan; warnings = s.warnings ++ (w ∷ []); seen = s.seen }

abbrev pub or_text : Text → Text → Text
or_text [] other = other
or_text (c ∷ s) other = c ∷ s

abbrev stem_match : Bool → Option Text → Bool × Match
stem_match already none = (already, unmatched)
stem_match already (some existing) = (true, looks_like existing)

-- `_mark_if_present`: a file of the same name, or else of the same stem
abbrev pub marked : Installed → Text → Bool → Bool × Match
marked installed file_name already =
    if contains installed.files file_name
    then (true, exact_filename)
    else if is_empty (stem file_name)
    then (already, unmatched)
    else stem_match already (get installed.stems (stem file_name))

-- `f"{src}:{pid}"`
abbrev pub key : Text → Text
key pid = codes "modrinth:" ++ pid

-- `_mr_dependencies`, less what names neither a project nor a version
abbrev pub is_required : Dependency → Bool
is_required d = d.kind == codes "required" && not (is_empty (or_text d.project_id d.version_id))

abbrev pub required_of : List Dependency → List Dependency
required_of [] = []
required_of (d ∷ ds) = let rest = required_of ds in if is_required d then d ∷ rest else rest

abbrev pub entry_of : Installed → Item → Version → Project → Bool → PlanEntry
entry_of installed item version project already =
    let (present, match) = marked installed version.file_name already in
    record {
      project_id = or_text version.mod_id item.project;
      version = version;
      name = or_text project.name version.file_name;
      logo = project.logo;
      required_by = item.required_by;
      depth = item.depth;
      already_installed = present;
      server_side = project.server_side;
      present_as = match;
    }

abbrev pub or_none : Option Project → Project
or_none none = record { slug = []; name = []; logo = []; server_side = [] }
or_none (some project) = project

-- The visit of one required dependency of an entry
abbrev pub item_of : PlanEntry → Dependency → Item
item_of entry d = record {
  project = or_text d.project_id d.version_id;
  file = d.version_id;
  depth = entry.depth + 1;
  required_by = entry.name;
}

-- `for dep in req: await visit(...)`
abbrev pub each : (Item → Walk → Walk) → PlanEntry → List Dependency → Walk → Walk
each follow entry [] s = s
each follow entry (d ∷ ds) s = each follow entry ds (follow (item_of entry d) s)

abbrev pub add : PlanEntry → Walk → Walk
add entry s = record { plan = s.plan ++ (entry ∷ []); warnings = s.warnings; seen = s.seen }

abbrev pub note_client_only : PlanEntry → Walk → Walk
note_client_only entry s =
    if entry.server_side == codes "unsupported" then add_warning (client_only entry.name) s else s

-- From the entry on: the plan, then what the entry requires
unfoldable pub add_planned : (Item → Walk → Walk) → PlanEntry → Walk → Walk
add_planned follow entry s =
    let added = add entry (note_client_only entry s) in
    let followed = each follow entry (required_of entry.version.dependencies) added in
    if ltb entry.depth max_depth then followed else added

-- `_client_renderer`: a dependency that only runs on a client is left out
unfoldable pub unless_renderer : (Item → Walk → Walk) → Item → PlanEntry → Option Text → Walk → Walk
unfolding add_planned
unless_renderer follow item entry none s = add_planned follow entry s
unless_renderer follow item entry (some name) s =
    if is_empty item.required_by
    then add_planned follow entry (add_warning (renderer name) s)
    else add_warning (needs_renderer item.required_by name) s

abbrev pub with_project :
    Result (Option Version) → (Version → Result Project) → Result (Option (Version × Project))
with_project (err e) project = err e
with_project (ok none) project = ok none
with_project (ok (some v)) project = project v >>= λ p. ok (some (v, p))

unfoldable pub place :
    (Item → Walk → Walk)
    → Installed
    → Item
    → Bool
    → Result (Option (Version × Project))
    → Walk
    → Walk
unfolding unless_renderer
place follow installed item already (err e) s = add_warning (unresolved item.project e) s
place follow installed item already (ok none) s =
    add_warning (no_version item.project item.required_by) s
place follow installed item already (ok (some (version, project))) s =
    unless_renderer follow item (entry_of installed item version project already)
      (never_on_server project.slug) s

abbrev pub see : Text → Walk → Walk
see k s = record { plan = s.plan; warnings = s.warnings; seen = k ∷ s.seen }

abbrev pub root_item : Text → Text → Item
root_item project file = record { project = project; file = file; depth = 0; required_by = [] }

abbrev pub start_walk : Walk
start_walk = record { plan = []; warnings = []; seen = [] }

abbrev pub stop_visit : Item → Walk → Walk
stop_visit item s = s

module _ (catalog : Catalog) (mc_version loader : Text) (installed : Installed) where
  abbrev pub look_up : Item → Result (Option Version)
  unfolding pick_file
  look_up item =
      if is_empty item.file
      then (do
        candidates ← catalog.list_versions item.project mc_version loader
        ok (pick_file candidates mc_version loader))
      else catalog.get_version item.file

  abbrev pub fetch : Item → Result (Option (Version × Project))
  fetch item =
      with_project (look_up item) (λ v. catalog.get_project item.project >>= λ p. ok (or_none p))

  -- `visit`, whose calls of itself are `follow`
  unfoldable pub enter : (Item → Walk → Walk) → Item → Walk → Walk
  unfolding place
  enter follow item s =
      let seen = see (key item.project) s in
      let already = contains installed.by_project (key item.project) in
      if contains s.seen (key item.project) || leb max_dependencies (length s.plan)
      then s
      else if already && not (is_empty item.required_by)
      then seen
      else place follow installed item already (fetch item) seen

  -- `visit` with so many levels left below it
  unfoldable pub visit : ℕ → Item → Walk → Walk
  unfolding enter
  visit zero = enter stop_visit
  visit (suc left) = enter (visit left)

  unfoldable pub visit_root : Text → Text → Walk
  unfolding visit
  visit_root project file = visit max_depth (root_item project file) start_walk

abbrev after_root : List PlanEntry → List PlanEntry
after_root [] = []
after_root (e ∷ es) = es

abbrev root_of : List PlanEntry → Option PlanEntry
root_of [] = none
root_of (e ∷ es) = some e

abbrev pub that : Bool → List PlanEntry → List PlanEntry
that present [] = []
that present (e ∷ es) =
    let rest = that present es in
    if (if present then e.already_installed else not e.already_installed) then e ∷ rest else rest

abbrev sizes : List PlanEntry → ℕ
sizes [] = 0
sizes (e ∷ es) = e.version.size + sizes es

abbrev pub install_plan : Walk → InstallPlan
install_plan s = record {
  root = root_of s.plan;
  dependencies = that false (after_root s.plan);
  already_satisfied = that true (after_root s.plan);
  warnings = s.warnings;
  total_downloads = length (that false s.plan);
  total_bytes = sizes (that false s.plan);
}
