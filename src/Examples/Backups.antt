-- ===== src/Examples/Backups.antt =====
-- Backups of a small folder: runs on concrete inputs.
use bless_forge.Base.{
  ◌≡◌, refl, sym, ap, true, false, none, some, List, [], ◌∷◌, if◌then◌else◌, ◌==◌, nat_eq,
  string_eq, Text, text_eq, codes, drop, All, get, ok, ◌>>=◌, raise,
}
use bless_forge.Base.Strings.{split_on, starts_with}
use bless_forge.Files.Paths.{slash}
use bless_forge.Files.Panel.{first_of}
use bless_forge.Snapshots.Model.{
  Codec, Stat, Entry, Manifest, Summary, Store, default_exclude, manifest, or_else, excluded,
  find_snapshot, find_object, object_path, has_object, read_object, add_excludes,
}
use bless_forge.Snapshots.Walk.{
  Listing, nothing, file, other, folder, walk, files_of, files_below, below,
}
use bless_forge.Snapshots.Take.{
  take_backup, take_files, find_previous, finish, start, previous_files, done_of,
}
use bless_forge.Snapshots.Remove.{
  delete, keep_only, remove_all, collect, wanted, keep_objects, without_all, surplus,
}
use bless_forge.Snapshots.Restore.{Folder, is_kept, restore, clear, write_all}
use bless_forge.Snapshots.Objects.{IsSound}
use bless_forge.Snapshots.Rows.{IsTrusted}
use bless_forge.Snapshots.Folders.{content_of}
use bless_forge.Snapshots.Collected.{listed}
use bless_forge.Snapshots.Views.{view, delete-view}
use bless_forge.Snapshots.Complete.{IsWhole, take_backup-IsWhole}
use bless_forge.Snapshots.Ready.{restore-IsWhole}
use bless_forge.Snapshots.RoundTrip.{restore-take_backup}
use bless_forge.Snapshots.Walks.{unexcluded, walk-unexcluded}

-- A hash that keeps its input, and a packing that puts a byte in front.
abbrev plain_codec : Codec
plain_codec = record { sha256 = λ b. b; zip = λ b. 1 ∷ b; unzip = drop 1 }

abbrev moment : Stat
moment = record { size = 3; mtime = 10; mode = 420 }

abbrev level : Text
level = codes "lvl"

abbrev server : Listing
server = file (codes "eula.txt") moment (ok (codes "yes")) (
    file (codes "locked") moment (raise "hard-linked" 403) (
      folder (codes "logs") (file (codes "latest.log") moment (ok (codes "log")) nothing) (
        folder (codes "world")
          (file (codes "level.dat") moment (ok level) (other (codes "link") nothing)) nothing)))

abbrev id₁ : Text
id₁ = codes "20260101-a"

abbrev id₂ : Text
id₂ = codes "20260102-b"

abbrev first_entry : Entry
first_entry = record { rel = codes "eula.txt"; sha = codes "yes"; st = moment }

abbrev summary_of : Text → Summary
summary_of snap_id = record {
  id = snap_id;
  created = 0;
  reason = [];
  files = 1;
  size = 3;
  new_bytes = 3;
  reused = 0;
  skipped = 0;
  status = "done";
}

abbrev manifest_of : Text → List Entry → Manifest
manifest_of snap_id files = record {
  id = snap_id;
  created = 0;
  reason = [];
  exclude = default_exclude;
  files = files;
  skipped = [];
}

-- Two backups that share an object; the newer one has another, packed.
abbrev kept_store : Store
kept_store = record {
  objects =
      record { sha = level; packed = true; bytes = 1 ∷ level }
      ∷ record { sha = codes "yes"; packed = false; bytes = codes "yes" }
      ∷ [];
  snapshots =
      manifest_of id₂
        (first_entry ∷ record { rel = codes "world/level.dat"; sha = level; st = moment } ∷ [])
      ∷ manifest_of id₁ (first_entry ∷ [])
      ∷ [];
  index = summary_of id₂ ∷ summary_of id₁ ∷ [];
}

abbrev id₃ : Text
id₃ = codes "20260103-c"

kept_store-IsWhole : IsWhole plain_codec kept_store
unfolding IsSound wanted manifest find_snapshot has_object object_path find_object
kept_store-IsWhole = record { sound = (refl, (refl, tt)); complete = refl }

abbrev thinned : Store
thinned = record {
  objects = record { sha = codes "yes"; packed = false; bytes = codes "yes" } ∷ [];
  snapshots = manifest_of id₁ (first_entry ∷ []) ∷ [];
  index = summary_of id₁ ∷ [];
}

delete-view_example :
    view plain_codec thinned id₁ ≡ (if id₁ == id₂ then none else view plain_codec kept_store id₁)
unfolding delete remove_all collect wanted keep_objects without_all manifest find_snapshot
delete-view_example = delete-view plain_codec id₂ kept_store thinned id₁ refl

view-thinned : view plain_codec thinned id₁ ≡ some ((codes "eula.txt", ok (codes "yes")) ∷ [])
unfolding view listed manifest find_snapshot read_object object_path find_object
view-thinned = refl

keep_only_newest : (keep_only 1 kept_store).0 ≡ id₁ ∷ []
unfolding keep_only surplus
keep_only_newest = refl

-- What a third backup leaves, with the world packed.
abbrev extended : Store
extended =
    finish id₃ 5 (codes "manual") default_exclude
      (take_files plain_codec true (previous_files (done_of kept_store.index) kept_store.snapshots)
        (walk default_exclude server) (start kept_store.objects))
      kept_store

take_backup-IsWhole_example : IsWhole plain_codec extended
unfolding take_backup add_excludes
take_backup-IsWhole_example =
    take_backup-IsWhole plain_codec (λ b. refl) id₃ 5 (codes "manual") [] true server kept_store
      extended kept_store-IsWhole refl

restore-IsWhole_example :
    (after : Folder) × (restore plain_codec id₁ kept_store ((codes "ops.json", codes "[]") ∷ [])
      ≡ ok after)
unfolding listed manifest find_snapshot
restore-IsWhole_example =
    restore-IsWhole plain_codec id₁ kept_store ((codes "ops.json", codes "[]") ∷ [])
      (manifest_of id₁ (first_entry ∷ [])) kept_store-IsWhole refl refl

-- The rows of the newer backup are still true of the folder.
server-IsTrusted :
    All
      (IsTrusted plain_codec (previous_files (done_of kept_store.index) kept_store.snapshots))
      (walk default_exclude server)
unfolding IsTrusted walk files_of files_below below excluded starts_with previous_files
    find_previous manifest find_snapshot
server-IsTrusted =
    let as_before : (rel sha : Text) (e : Entry)
        → some (record { rel = rel; sha = sha; st = moment }) ≡ some e
        → e.sha ≡ sha =
      λ rel sha e h.
        let same : record { rel = rel; sha = sha; st = moment } ≡ e = cc in
        sym (ap (λ x. x.sha) same) in
    (
      λ e h s t. (codes "yes", refl, as_before (codes "eula.txt") (codes "yes") e h),
      (
        λ e h s t. cc,
        (λ e h s t. (level, refl, as_before (codes "world/level.dat") level e h), tt),
      ),
    )

restore-take_backup_example :
    (after : Folder) × ((take_backup plain_codec id₃ 5 (codes "manual") [] true server kept_store
        >>= λ taken. restore plain_codec id₃ taken ((codes "logs/old.log", codes "o") ∷ []))
      ≡ ok after)
    × ((rel : Text)
        → get after rel
          ≡ or_else (content_of rel (walk default_exclude server)) (
              if is_kept default_exclude (first_of (split_on slash rel))
              then get ((codes "logs/old.log", codes "o") ∷ []) rel
              else none))
unfolding add_excludes IsSound
restore-take_backup_example =
    restore-take_backup plain_codec (λ b. refl) (λ a b h. h) id₃ 5 (codes "manual") []
      default_exclude true server kept_store ((codes "logs/old.log", codes "o") ∷ []) refl refl
      kept_store-IsWhole.sound server-IsTrusted

walk-unexcluded_example : walk default_exclude server ≡ unexcluded default_exclude (walk [] server)
unfolding add_excludes
walk-unexcluded_example = walk-unexcluded [] server refl

-- An excluded folder inside another is not in the backup, and the restore deletes it with the rest.
nested_lost :
    restore plain_codec id₁
      (record {
        objects = [];
        snapshots =
            record {
              id = id₁;
              created = 0;
              reason = [];
              exclude = codes "world/map" ∷ [];
              files = [];
              skipped = [];
            }
            ∷ [];
        index = summary_of id₁ ∷ [];
      })
      ((codes "world/map/tiles", codes "t") ∷ (codes "ops.json", codes "[]") ∷ [])
    ≡ ok []
unfolding restore manifest find_snapshot clear excluded starts_with split_on write_all
nested_lost = refl
