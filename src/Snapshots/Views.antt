-- ===== src/Snapshots/Views.antt =====
-- The abstract view of a store of backups: for each id, the files that it holds.
use bless_forge.Base.{
  ℕ, ◌≡◌, refl, ap, ◌∙◌, inl, inr, true, false, Option, none, some, List, [], ◌∷◌, map, arith,
  if◌then◌else◌, Bool-cases, ◌==◌, nat_eq, string_eq, Text, text_eq, contains, is_empty, All,
  All-contains, Result, ok, err, >>=-eq-ok,
}
use bless_forge.Snapshots.Model.{
  Codec, Object, Entry, Manifest, Summary, Store, manifest, read_object,
}
use bless_forge.Snapshots.Remove.{
  shas_of, wanted, keep_objects, rows_without, without_all, collect, remove_all, delete, surplus,
  keep_only,
}
use bless_forge.Snapshots.Collected.{
  listed, listed-rows_without, manifest-without_all, contains-wanted, read_object-keep_objects,
}

-- The paths of a backup with what reading them back gives
abbrev pub contents : Codec → List Object → List Entry → List (Text × Result Text)
contents codec objects = map (λ e. (e.rel, read_object codec objects e.sha))

abbrev pub view_of : Codec → List Object → Result Manifest → Option (List (Text × Result Text))
view_of codec objects (ok m) = some (contents codec objects m.files)
view_of codec objects (err problem) = none

-- The backup of that id, if the index lists it
unfoldable pub view : Codec → Store → Text → Option (List (Text × Result Text))
view codec s snap_id =
    if listed snap_id s.index then view_of codec s.objects (manifest snap_id s.snapshots) else none

contents-keep_objects :
    (codec : Codec) (shas : List Text) (objects : List Object) (es : List Entry)
    → All (λ sha. contains shas sha ≡ true) (shas_of es)
    → contents codec (keep_objects shas objects) es ≡ contents codec objects es
contents-keep_objects codec shas objects [] h = refl
contents-keep_objects codec shas objects (e ∷ es) h =
    rw
      (
        read_object-keep_objects codec shas objects e.sha h.0,
        contents-keep_objects codec shas objects es h.1,
      )
      refl

view_of-collect :
    (codec : Codec) (objects : List Object) (ss : List Summary) (ms : List Manifest)
    (snap_id : Text) (r : Result Manifest)
    → listed snap_id ss ≡ true
    → manifest snap_id ms ≡ r
    → view_of codec (keep_objects (wanted ss ms) objects) r ≡ view_of codec objects r
view_of-collect codec objects ss ms snap_id (err problem) h k = refl
view_of-collect codec objects ss ms snap_id (ok m) h k = ap some (
    contents-keep_objects codec (wanted ss ms) objects m.files
      (All-contains _ (shas_of m.files) (λ sha l. contains-wanted ss ms snap_id sha h k l)))

pub view-remove_all :
    (codec : Codec) (gone : List Text) (s : Store) (snap_id : Text)
    → view codec (remove_all gone s) snap_id
      ≡ (if contains gone snap_id then none else view codec s snap_id)
unfolding view remove_all collect
view-remove_all codec gone s snap_id =
    let rows = rows_without gone s.index in
    let left = without_all gone s.snapshots in
    let lists = listed-rows_without gone snap_id s.index in
    elim (Bool-cases (contains gone snap_id)) [
      | inl goes ↦
          let unlisted : listed snap_id rows ≡ false = ground arith in rw (unlisted, goes) refl
      | inr stays ↦ elim (Bool-cases (listed snap_id s.index)) [
        | inr absent ↦
            let unlisted : listed snap_id rows ≡ false = ground arith in
            rw (unlisted, stays, absent) refl
        | inl present ↦
            let still : listed snap_id rows ≡ true = ground arith in
            let same = manifest-without_all gone snap_id s.snapshots stays in
            rw (still, stays, present)
              (view_of-collect codec s.objects rows left snap_id (manifest snap_id left) still refl
                ∙ ap (view_of codec s.objects) same)
      ]
    ]

-- Deleting a backup deletes that backup and no other: every other one that the index lists reads
-- back as it did, file by file, although the objects are shared and the unused ones are collected.
pub delete-view :
    (codec : Codec) (gone : Text) (s after : Store) (snap_id : Text)
    → delete gone s ≡ ok after
    → view codec after snap_id ≡ (if snap_id == gone then none else view codec s snap_id)
unfolding delete
delete-view codec gone s after snap_id h =
    let (m, e, k) = >>=-eq-ok (manifest gone s.snapshots) _ h in
    let same : remove_all (gone ∷ []) s ≡ after = cc in
    let found : contains (gone ∷ []) snap_id ≡ (snap_id == gone) = ground arith in
    rw (← same) (rw found at (view-remove_all codec (gone ∷ []) s snap_id))

-- Thinning the backups out removes those that it names, and every other one that the index lists
-- reads back as it did.
pub keep_only-view :
    (codec : Codec) (keep : ℕ) (s : Store) (snap_id : Text)
    → view codec (keep_only keep s).1 snap_id
      ≡ (if contains (keep_only keep s).0 snap_id then none else view codec s snap_id)
unfolding keep_only
keep_only-view codec keep s snap_id = go (surplus keep s.index)
  where
    go :
        (gone : List Text)
        → view codec (if is_empty gone then s else remove_all gone s) snap_id
          ≡ (if contains gone snap_id then none else view codec s snap_id)
    go [] = refl
    go (g ∷ gone) = view-remove_all codec (g ∷ gone) s snap_id
