-- ===== src/Snapshots/Ready.antt =====
-- Whether a listed backup can be given back (agent/worldbackup.py: `restore`).
use bless_forge.Base.{
  ◌≡◌, refl, inl, inr, true, false, List, [], ◌∷◌, arith, Option-cases, and-true_left,
  and-true_right, nat_eq, string_eq, Text, text_eq, ==_refl, contains, all, all-contains, ok,
}
use bless_forge.Snapshots.Model.{
  Codec, Object, Entry, Manifest, Store, manifest, has_object, object_path, read_object, content,
}
use bless_forge.Snapshots.Remove.{shas_of, wanted}
use bless_forge.Snapshots.Restore.{Folder, or_default, clear, write, write_all, holds_all, restore}
use bless_forge.Snapshots.Collected.{listed, contains-wanted}
use bless_forge.Snapshots.Complete.{IsWhole}

read_object-has_object :
    (codec : Codec) (objects : List Object) (sha : Text)
    → has_object objects sha ≡ true
    → (bytes : Text) × (read_object codec objects sha ≡ ok bytes)
unfolding has_object read_object
read_object-has_object codec objects sha h = elim (Option-cases (object_path sha objects)) [
  | inl e ↦ let k : false ≡ true = rw e at h in cc
  | inr (o, e) ↦ (content codec o, rw e refl)
]

write_all-holds_all :
    (codec : Codec) (objects : List Object) (es : List Entry) (root : Folder)
    → holds_all objects es ≡ true
    → (after : Folder) × (write_all codec objects es root ≡ ok after)
unfolding write_all
write_all-holds_all codec objects [] root h = (root, refl)
write_all-holds_all codec objects (e ∷ es) root h =
    let (bytes, r) = read_object-has_object codec objects e.sha (and-true_left _ _ h) in
    let others : holds_all objects es ≡ true = and-true_right (has_object objects e.sha) _ h in
    let (after, w) = write_all-holds_all codec objects es (write e.rel bytes root) others in
    (after, rw r w)

holds_all-wanted :
    (objects : List Object) (wants : List Text) (es : List Entry)
    → all (has_object objects) wants ≡ true
    → ((sha : Text) → contains (shas_of es) sha ≡ true → contains wants sha ≡ true)
    → holds_all objects es ≡ true
holds_all-wanted objects wants [] held within = refl
holds_all-wanted objects wants (e ∷ es) held within =
    let here : contains wants e.sha ≡ true = within e.sha (ground (arith, ==_refl e.sha)) in
    rw
      (
        all-contains (has_object objects) wants e.sha held here,
        holds_all-wanted objects wants es held (λ sha h. within sha (ground arith)),
      )
      refl

-- In a whole store every backup that the index lists, and whose manifest can be read, is restored:
-- the error of a missing object is never raised, neither before the folder is cleared nor after.
pub restore-IsWhole :
    (codec : Codec) (snap_id : Text) (s : Store) (before : Folder) (m : Manifest)
    → IsWhole codec s
    → listed snap_id s.index ≡ true
    → manifest snap_id s.snapshots ≡ ok m
    → (after : Folder) × (restore codec snap_id s before ≡ ok after)
unfolding restore
restore-IsWhole codec snap_id s before m whole h k =
    let wants = wanted s.index s.snapshots in
    let held : holds_all s.objects m.files ≡ true =
      holds_all-wanted s.objects wants m.files whole.complete
        (λ sha l. contains-wanted s.index s.snapshots snap_id sha h k l) in
    let (after, w) =
      write_all-holds_all codec s.objects m.files (clear (or_default m.exclude) before) held in
    (after, rw (k, held) w)
