-- ===== src/Examples/Plans.antt =====
-- Runs of the dependency walk (app/deps.py).
use bless_forge.Base.{
  ◌≤◌, ◌≡◌, refl, true, false, some, List, [], ◌∷◌, ◌++◌, map, arith, if◌then◌else◌, ◌==◌, nat_eq,
  string_eq, Text, text_eq, codes, length, all, ok,
}
use bless_forge.Base.Strings.{lower}
use bless_forge.Deps.Stems.{stem, without_any, before_version, only_plain}
use bless_forge.Deps.Model.{Dependency, named, Version, Catalog, Installed}
use bless_forge.Deps.Pick.{pick_file}
use bless_forge.Deps.Resolve.{
  max_dependencies, add_planned, unless_renderer, place, enter, visit, visit_root, root_item,
  start_walk,
}
use bless_forge.Deps.Grows.{is_sound, is_met}
use bless_forge.Deps.Sound.{visit_root-IsSound}
use bless_forge.Deps.Levels.{visit-enough}
use bless_forge.Deps.Best.{Picked, pick_file-Picked}

create-stem :
    stem (codes "createaddition-NeoForge-1.21.1-1.6.0.jar.disabled") ≡ codes "createaddition"
unfolding stem without_any before_version only_plain lower
create-stem = refl

abbrev release : Text → Text → List Dependency → Version
release id date needs = record {
  file_id = named id;
  mod_id = [];
  file_name = id ++ codes ".jar";
  version_number = [];
  size = 10;
  release_type = codes "release";
  date = date;
  game_versions = codes "1.21.1" ∷ [];
  loaders = codes "fabric" ∷ [];
  dependencies = needs;
}

abbrev old : Version
old = release (codes "old") (codes "2024-01-02") []

abbrev recent : Version
recent = release (codes "recent") (codes "2024-11-02") []

abbrev other_loader : Version
other_loader = record {
  file_id = named (codes "other");
  mod_id = [];
  file_name = codes "other.jar";
  version_number = [];
  size = 10;
  release_type = codes "release";
  date = codes "2025-01-01";
  game_versions = [];
  loaders = codes "Forge" ∷ [];
  dependencies = [];
}

pick_file-run :
    pick_file (old ∷ other_loader ∷ recent ∷ []) (codes "1.21.1") (codes "fabric") ≡ some recent
unfolding pick_file lower
pick_file-run = refl

pick_file-Picked_example :
    Picked false
      (old ∷ other_loader ∷ recent ∷ [])
      (codes "1.21.1")
      (codes "fabric")
      (pick_file (old ∷ other_loader ∷ recent ∷ []) (codes "1.21.1") (codes "fabric"))
pick_file-Picked_example =
    pick_file-Picked false (old ∷ other_loader ∷ recent ∷ []) (codes "1.21.1") (codes "fabric") refl

abbrev needs : Text → Dependency
needs project = record { kind = codes "required"; project_id = project; version_id = [] }

abbrev root : Version
root = release (codes "root") (codes "2024-01-01") (needs (codes "lib") ∷ needs (codes "base") ∷ [])

abbrev lib : Version
lib = release (codes "lib-1.0") (codes "2024-01-01") (needs (codes "base") ∷ [])

-- A catalogue in which the root needs lib and base, and lib needs base
abbrev catalog : Catalog
catalog = record {
  get_version = λ id. ok (some root);
  list_versions =
      λ project mc loader. ok (if project == codes "lib" then lib ∷ [] else recent ∷ old ∷ []);
  get_project =
      λ project. ok (some (record { slug = project; name = project; logo = []; server_side = [] }));
}

abbrev installed : Installed
installed = record { by_project = []; files = []; stems = [] }

visit_root-run :
    map
      (λ e. e.name)
      (visit_root catalog
        (codes "1.21.1")
        (codes "fabric")
        installed
        (codes "mod")
        (codes "v1")).plan
    ≡ (codes "mod" ∷ codes "lib" ∷ codes "base" ∷ [])
unfolding visit_root visit enter place unless_renderer add_planned pick_file lower stem without_any
    before_version only_plain
visit_root-run = refl

visit_root-IsSound_example :
    let s =
      visit_root catalog (codes "1.21.1") (codes "fabric") installed (codes "mod") (codes "v1") in
    (length s.plan ≤ max_dependencies)
    × (all (is_sound s) s.plan ≡ true)
    × (is_met s (codes "mod") ≡ true)
visit_root-IsSound_example =
    visit_root-IsSound catalog (codes "1.21.1") (codes "fabric") installed (codes "mod")
      (codes "v1")

visit-enough_example :
    visit catalog
      (codes "1.21.1")
      (codes "fabric")
      installed
      9
      (root_item (codes "mod") (codes "v1"))
      start_walk
    ≡ visit catalog
        (codes "1.21.1")
        (codes "fabric")
        installed
        4
        (root_item (codes "mod") (codes "v1"))
        start_walk
visit-enough_example =
    visit-enough catalog (codes "1.21.1") (codes "fabric") installed 9 4
      (root_item (codes "mod") (codes "v1")) start_walk (omega arith) (omega arith)
