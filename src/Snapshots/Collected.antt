-- ===== src/Snapshots/Collected.antt =====
-- What `collect` and the removal of backups leave in the store (agent/worldbackup.py).
use bless_forge.Base.{
  ◌≡◌, refl, ap, ◌∙◌, inl, inr, Bool, true, false, not, ◌&&◌, ◌||◌, List, [], ◌∷◌, arith,
  if◌then◌else◌, Bool-cases, and-true_left, ◌==◌, ==_iff, nat_eq, string_eq, Text, text_eq,
  contains, contains-append, ok,
}
use bless_forge.Snapshots.Model.{
  Codec, Object, Manifest, Summary, find_object, object_path, has_object, read_object,
  find_snapshot, manifest,
}
use bless_forge.Snapshots.Take.{without_snapshot}
use bless_forge.Snapshots.Remove.{
  shas_of, wanted_by, wanted, keep_objects, rows_without, without_all,
}

find_object-keep_objects :
    (shas : List Text) (sha : Text) (packed : Bool) (objects : List Object)
    → contains shas sha ≡ true
    → find_object sha packed (keep_objects shas objects) ≡ find_object sha packed objects
unfolding find_object keep_objects
find_object-keep_objects shas sha packed [] h = refl
find_object-keep_objects shas sha packed (o ∷ os) h =
    let ih = find_object-keep_objects shas sha packed os h in
    elim (Bool-cases (o.sha == sha && (if packed then o.packed else not o.packed))) [
      | inl hit ↦
          let named : o.sha ≡ sha = (==_iff o.sha sha).0 (and-true_left _ _ hit) in
          let stays : contains shas o.sha ≡ true = rw named h in rw (stays, hit) refl
      | inr miss ↦ elim (Bool-cases (contains shas o.sha)) [
        | inl stays ↦ rw (stays, miss) ih
        | inr goes ↦ rw (goes, miss) ih
      ]
    ]

pub object_path-keep_objects :
    (shas : List Text) (objects : List Object) (sha : Text)
    → contains shas sha ≡ true
    → object_path sha (keep_objects shas objects) ≡ object_path sha objects
unfolding object_path
object_path-keep_objects shas objects sha h =
    rw
      (
        find_object-keep_objects shas sha false objects h,
        find_object-keep_objects shas sha true objects h,
      )
      refl

pub has_object-keep_objects :
    (shas : List Text) (objects : List Object) (sha : Text)
    → contains shas sha ≡ true
    → has_object (keep_objects shas objects) sha ≡ has_object objects sha
unfolding has_object
has_object-keep_objects shas objects sha h = rw (object_path-keep_objects shas objects sha h) refl

pub read_object-keep_objects :
    (codec : Codec) (shas : List Text) (objects : List Object) (sha : Text)
    → contains shas sha ≡ true
    → read_object codec (keep_objects shas objects) sha ≡ read_object codec objects sha
unfolding read_object
read_object-keep_objects codec shas objects sha h =
    rw (object_path-keep_objects shas objects sha h) refl

pub find_snapshot-without_snapshot :
    (gone snap_id : Text) (ms : List Manifest)
    → (snap_id == gone) ≡ false
    → find_snapshot snap_id (without_snapshot gone ms) ≡ find_snapshot snap_id ms
unfolding find_snapshot
find_snapshot-without_snapshot gone snap_id [] h = refl
find_snapshot-without_snapshot gone snap_id (m ∷ ms) h =
    let ih = find_snapshot-without_snapshot gone snap_id ms h in
    elim (Bool-cases (m.id == gone)) [
      | inl goes ↦
          let same : m.id ≡ gone = (==_iff m.id gone).0 goes in
          let other : (m.id == snap_id) ≡ false =
            ground (arith, ==_iff m.id snap_id, ==_iff snap_id gone) in
          rw (goes, other) ih
      | inr stays ↦ rw (stays, ih) refl
    ]

find_snapshot-without_all :
    (gone : List Text) (snap_id : Text) (ms : List Manifest)
    → contains gone snap_id ≡ false
    → find_snapshot snap_id (without_all gone ms) ≡ find_snapshot snap_id ms
unfolding without_all
find_snapshot-without_all [] snap_id ms h = refl
find_snapshot-without_all (g ∷ gone) snap_id ms h =
    find_snapshot-without_all gone snap_id (without_snapshot g ms) (ground arith)
    ∙ find_snapshot-without_snapshot g snap_id ms (ground arith)

pub manifest-without_all :
    (gone : List Text) (snap_id : Text) (ms : List Manifest)
    → contains gone snap_id ≡ false
    → manifest snap_id (without_all gone ms) ≡ manifest snap_id ms
unfolding manifest
manifest-without_all gone snap_id ms h = rw (find_snapshot-without_all gone snap_id ms h) refl

-- `any(s["id"] == snap_id for s in index)`
unfoldable pub listed : Text → List Summary → Bool
listed snap_id [] = false
listed snap_id (s ∷ ss) = s.id == snap_id || listed snap_id ss

pub listed-rows_without :
    (gone : List Text) (snap_id : Text) (ss : List Summary)
    → listed snap_id (rows_without gone ss) ≡ (listed snap_id ss && not (contains gone snap_id))
unfolding listed
listed-rows_without gone snap_id [] = refl
listed-rows_without gone snap_id (s ∷ ss) =
    let ih = listed-rows_without gone snap_id ss in
    elim (Bool-cases (s.id == snap_id)) [
      | inl e ↦
          let same : s.id ≡ snap_id = (==_iff s.id snap_id).0 e in
          let alike : contains gone s.id ≡ contains gone snap_id = ap (contains gone) same in
          elim (Bool-cases (contains gone s.id)) [
            | inl goes ↦ rw (goes, ih) (ground arith)
            | inr stays ↦ rw (stays, e) (ground arith)
          ]
      | inr e ↦ elim (Bool-cases (contains gone s.id)) [
        | inl goes ↦ rw (goes, e) ih
        | inr stays ↦ rw (stays, e) ih
      ]
    ]

-- Every hash of a listed backup is wanted.
pub contains-wanted :
    (ss : List Summary) (ms : List Manifest) (snap_id sha : Text) {m : Manifest}
    → listed snap_id ss ≡ true
    → manifest snap_id ms ≡ ok m
    → contains (shas_of m.files) sha ≡ true
    → contains (wanted ss ms) sha ≡ true
unfolding listed wanted
contains-wanted [] ms snap_id sha h k l = cc
contains-wanted (s ∷ ss) ms snap_id sha {m} h k l =
    let both = contains-append (wanted_by (manifest s.id ms)) (wanted ss ms) sha in
    elim (Bool-cases (s.id == snap_id)) [
      | inl e ↦
          let same : s.id ≡ snap_id = (==_iff s.id snap_id).0 e in
          let mine : manifest s.id ms ≡ ok m = ap (λ i. manifest i ms) same ∙ k in
          let here : contains (wanted_by (manifest s.id ms)) sha ≡ true = rw mine l in ground arith
      | inr e ↦ let there = contains-wanted ss ms snap_id sha (rw e at h) k l in ground arith
    ]
