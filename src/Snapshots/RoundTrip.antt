-- ===== src/Snapshots/RoundTrip.antt =====
-- A backup taken and given back (agent/worldbackup.py: `take`, then `restore`).
use bless_forge.Base.{
  ℕ, ◌≡◌, refl, ap, ◌∙◌, Bool, true, false, none, List, ◌∷◌, if◌then◌else◌, ◌==◌, nat_eq, string_eq,
  Text, text_eq, ==_refl, take, All, get, ok, ◌>>=◌,
}
use bless_forge.Base.Strings.{split_on}
use bless_forge.Files.Paths.{slash}
use bless_forge.Files.Panel.{first_of}
use bless_forge.Snapshots.Model.{
  Codec, Manifest, Store, find_snapshot, manifest, is_bad_id, clean_exclude, or_else,
}
use bless_forge.Snapshots.Walk.{Listing, walk}
use bless_forge.Snapshots.Take.{
  Progress, take_files, start, without_snapshot, finish, take_backup, previous_files, done_of,
}
use bless_forge.Snapshots.Restore.{
  Folder, or_default, is_kept, clear, write_all, holds_all, restore,
}
use bless_forge.Snapshots.Objects.{IsSound, Extends}
use bless_forge.Snapshots.Loop.{take_files-IsKept}
use bless_forge.Snapshots.Rows.{IsTrusted, expected, take_files-entries}
use bless_forge.Snapshots.Folders.{
  content_of, get-clear, write_founds, get-write_founds, write_all-expected,
  or_default-clean_exclude,
}

-- The manifest that was just put is read back.
manifest-put :
    (m : Manifest) (ms : List Manifest) → is_bad_id m.id ≡ false → manifest m.id (m ∷ ms) ≡ ok m
unfolding manifest find_snapshot
manifest-put m ms fine = let found : (m.id == m.id) ≡ true = ==_refl m.id in rw (fine, found) refl

restore-finish :
    (codec : Codec) (snap_id : Text) (started : ℕ) (reason : Text) (ex : List Text) (p : Progress)
    (s : Store) (before : Folder)
    → is_bad_id snap_id ≡ false
    → holds_all p.objects p.entries ≡ true
    → restore codec snap_id (finish snap_id started reason ex p s) before
      ≡ write_all codec p.objects p.entries (clear (or_default ex) before)
unfolding finish restore
restore-finish codec snap_id started reason ex p s before fine held =
    let made : Manifest = record {
      id = snap_id;
      created = started;
      reason = take 200 reason;
      exclude = ex;
      files = p.entries;
      skipped = take 200 p.skipped;
    } in
    rw (manifest-put made (without_snapshot snap_id s.snapshots) fine, held) refl

-- A backup that has just been taken is given back, into whatever the folder then holds: each path
-- that was backed up has the bytes that were read there, an excluded top-level entry is as it is in
-- the folder, and no other path is left. The backups' objects are sound, the id is a plain one, zlib
-- gives back what it packed, no two contents have one hash, and a file whose size and time are those
-- of the last backup's row still holds what it held then.
pub restore-take_backup :
    (codec : Codec)
    → ((b : Text) → codec.unzip (codec.zip b) ≡ b)
    → ((a b : Text) → codec.sha256 a ≡ codec.sha256 b → a ≡ b)
    → (snap_id : Text) (started : ℕ) (reason : Text) (exclude ex : List Text) (compress : Bool)
      (root : Listing) (s : Store) (before : Folder)
    → is_bad_id snap_id ≡ false
    → clean_exclude exclude ≡ ok ex
    → IsSound codec s.objects
    → All (IsTrusted codec (previous_files (done_of s.index) s.snapshots)) (walk ex root)
    → (after : Folder) × ((take_backup codec snap_id started reason exclude compress root s
          >>= λ taken. restore codec snap_id taken before)
        ≡ ok after)
      × ((rel : Text)
          → get after rel
            ≡ or_else
                (content_of rel (walk ex root))
                (if is_kept ex (first_of (split_on slash rel)) then get before rel else none))
unfolding take_backup Extends
restore-take_backup codec unzip-zip collision_free snap_id started reason exclude ex compress root s
      before fine e sound trusted =
    let previous = previous_files (done_of s.index) s.snapshots in
    let founds = walk ex root in
    let p = take_files codec compress previous founds (start s.objects) in
    let kept =
      take_files-IsKept codec unzip-zip s.objects compress previous founds (start s.objects)
        (record { grown = λ sha k. refl; sound = sound; held = refl }) in
    let rows : p.entries ≡ expected codec founds =
      take_files-entries codec compress previous founds (start s.objects) trusted in
    let held : holds_all p.objects (expected codec founds) ≡ true = rw rows at kept.held in
    let cleared = clear ex before in
    (
      write_founds founds cleared,
      rw e (
          restore-finish codec snap_id started reason ex p s before fine kept.held
          ∙ rw (rows, or_default-clean_exclude exclude e)
              (write_all-expected codec collision_free p.objects kept.sound founds cleared held)),
      λ rel.
          get-write_founds founds cleared rel
          ∙ ap (or_else (content_of rel founds)) (get-clear ex rel before),
    )
