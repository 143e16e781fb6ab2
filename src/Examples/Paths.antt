-- ===== src/Examples/Paths.antt =====
-- Paths and archives: runs on concrete inputs.
use bless_forge.Base.{
  ℕ, ◌*◌, ◌≤◌, ◌≡◌, refl, ◌⊎◌, false, some, List, [], ◌∷◌, map, nat_eq, string_eq, Text, text_eq,
  codes, All, ok, raise,
}
use bless_forge.Base.Strings.{strip, split_on, join_with}
use bless_forge.Files.Paths.{parts_of, raw_path, collect_parts}
use bless_forge.Files.Panel.{
  guard_path, guard_name, top_segment, is_protected, rename_request, guard_all, any_protected,
  delete_request,
}
use bless_forge.Files.Archive.{Member, check_members, check_archive, total_size, max_extract_ratio}
use bless_forge.Files.Clean.{IsPart, parts_of-IsPart}
use bless_forge.Files.Unpack.{IsSafe, check_archive-IsSafe}
use bless_forge.Files.Worlds.{touches_world, delete_request-spares}

-- The spelling with a blank after the first folder passes the panel's test of world folders, and the
-- node then renames the folder of the world.
rename_blank : rename_request (codes "./ world") (codes "old") ≡ ok (codes " world", codes "old")
unfolding rename_request guard_path guard_name top_segment is_protected raw_path collect_parts strip
    split_on join_with
rename_blank = refl

renamed_blank : parts_of (some (codes " world")) ≡ ok (codes "world" ∷ [])
unfolding parts_of raw_path collect_parts strip split_on
renamed_blank = refl

delete_blank :
    delete_request (codes "./ world" ∷ []) false
    ≡ raise "these are world or runtime data and were not deleted" 400
unfolding delete_request any_protected guard_all guard_path top_segment is_protected raw_path
    collect_parts strip split_on join_with
delete_blank = refl

abbrev mod_path : Text
mod_path = codes "mods\\extra//./jei.jar"

parts_of-IsPart_example : All IsPart (codes "mods" ∷ codes "extra" ∷ codes "jei.jar" ∷ [])
unfolding parts_of raw_path collect_parts strip split_on
parts_of-IsPart_example = parts_of-IsPart (some mod_path) refl

abbrev chosen : List Text
chosen = mod_path ∷ codes "server.properties" ∷ []

abbrev passed_on : List Text
passed_on = codes "mods/extra/jei.jar" ∷ codes "server.properties" ∷ []

delete_request-spares_example : All (λ q. touches_world (parts_of (some q)) ≡ false) passed_on
unfolding delete_request any_protected guard_all guard_path top_segment is_protected raw_path
    collect_parts strip split_on join_with
delete_request-spares_example = delete_request-spares chosen passed_on refl

abbrev packed : List Member
packed =
    record { filename = codes "world/level.dat"; is_symlink = false; file_size = 300 }
    ∷ record { filename = codes "pack.mcmeta"; is_symlink = false; file_size = 50 }
    ∷ []

abbrev unpacked : List (Member × List Text)
unpacked =
    (
      record { filename = codes "world/level.dat"; is_symlink = false; file_size = 300 },
      codes "world" ∷ codes "level.dat" ∷ [],
    )
    ∷ (
      record { filename = codes "pack.mcmeta"; is_symlink = false; file_size = 50 },
      codes "pack.mcmeta" ∷ [],
    )
    ∷ []

check_archive-IsSafe_example :
    (map (λ m. m.0) unpacked ≡ packed)
    × All IsSafe unpacked
    × (total_size packed ≤ 1000)
    × ((◌≡◌ {A = ℕ} 100 0)
        ⊎ (total_size packed ≤ 64 * 1048576)
        ⊎ (total_size packed ≤ 100 * max_extract_ratio))
unfolding check_archive check_members parts_of raw_path collect_parts strip split_on total_size
check_archive-IsSafe_example = check_archive-IsSafe packed 100 1000 refl

parent_refused :
    parts_of (some (codes "mods/../..")) ≡ raise "that path points outside the server folder" 400
unfolding parts_of raw_path collect_parts strip split_on
parent_refused = refl
