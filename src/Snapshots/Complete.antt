-- ===== src/Snapshots/Complete.antt =====
-- Whether a store can give back every backup that its index lists (agent/worldbackup.py).
use bless_forge.Base.{
  ℕ, ◌≡◌, refl, ◌∙◌, ◌⊎◌, inl, inr, Bool, true, false, List, [], ◌∷◌, arith, Bool-cases,
  and-true_left, and-true_right, ◌==◌, ==_iff, nat_eq, string_eq, Text, text_eq, ==_refl, take, all,
  all-append, ok, err, >>=-eq-ok,
}
use bless_forge.Snapshots.Model.{
  Codec, Object, Entry, Manifest, Summary, Store, find_snapshot, manifest, is_bad_id, has_object,
  clean_exclude, no_backup,
}
use bless_forge.Snapshots.Walk.{Listing, walk}
use bless_forge.Snapshots.Take.{
  take_files, start, without_snapshot, finish, take_backup, previous_files, done_of,
}
use bless_forge.Snapshots.Remove.{shas_of, wanted_by, wanted}
use bless_forge.Snapshots.Restore.{holds_all}
use bless_forge.Snapshots.Objects.{IsSound, Extends, has_object-Extends}
use bless_forge.Snapshots.Collected.{find_snapshot-without_snapshot}
use bless_forge.Snapshots.Loop.{take_files-IsKept}

-- Each object is what its name says, and each that a listed backup needs is in the store.
pub record IsWhole (codec : Codec) (s : Store) : Type 0 where
  pub sound : IsSound codec s.objects
  pub complete : all (has_object s.objects) (wanted s.index s.snapshots) ≡ true

all-shas_of :
    (objects : List Object) (es : List Entry)
    → all (has_object objects) (shas_of es) ≡ holds_all objects es
all-shas_of objects [] = refl
all-shas_of objects (e ∷ es) = rw (all-shas_of objects es) refl

all-Extends :
    (old new : List Object) (shas : List Text)
    → Extends old new
    → all (has_object old) shas ≡ true
    → all (has_object new) shas ≡ true
all-Extends old new [] grown h = refl
all-Extends old new (sha ∷ shas) grown h =
    let others : all (has_object old) shas ≡ true = and-true_right (has_object old sha) _ h in
    let here = has_object-Extends old new sha grown (and-true_left _ _ h) in
    rw (here, all-Extends old new shas grown others) refl

pub manifest-put_self :
    (m : Manifest) (ms : List Manifest)
    → (manifest m.id (m ∷ ms) ≡ err no_backup) ⊎ (manifest m.id (m ∷ ms) ≡ ok m)
unfolding manifest find_snapshot
manifest-put_self m ms =
    let found : (m.id == m.id) ≡ true = ==_refl m.id in
    elim (Bool-cases (is_bad_id m.id)) [
      | inl bad ↦ inl (rw bad refl)
      | inr fine ↦ inr (rw (fine, found) refl)
    ]

pub manifest-put_other :
    (m : Manifest) (snap_id : Text) (ms : List Manifest)
    → (snap_id == m.id) ≡ false
    → manifest snap_id (m ∷ without_snapshot m.id ms) ≡ manifest snap_id ms
unfolding manifest find_snapshot
manifest-put_other m snap_id ms h =
    let other : (m.id == snap_id) ≡ false =
      ground (arith, ==_iff m.id snap_id, ==_iff snap_id m.id) in
    rw (other, find_snapshot-without_snapshot m.id snap_id ms h) refl

wanted_by-put_self :
    (objects : List Object) (m : Manifest) (ms : List Manifest)
    → holds_all objects m.files ≡ true
    → all (has_object objects) (wanted_by (manifest m.id (m ∷ ms))) ≡ true
wanted_by-put_self objects m ms h = elim (manifest-put_self m ms) [
  | inl e ↦ rw e refl
  | inr e ↦ rw e (all-shas_of objects m.files ∙ h)
]

wanted-put :
    (old new : List Object) (m : Manifest) (ss : List Summary) (ms : List Manifest)
    → Extends old new
    → holds_all new m.files ≡ true
    → all (has_object old) (wanted ss ms) ≡ true
    → all (has_object new) (wanted ss (m ∷ without_snapshot m.id ms)) ≡ true
unfolding wanted
wanted-put old new m [] ms grown held h = refl
wanted-put old new m (s ∷ ss) ms grown held h =
    let before = wanted_by (manifest s.id ms) in
    let now = wanted_by (manifest s.id (m ∷ without_snapshot m.id ms)) in
    let parts = all-append (has_object old) before (wanted ss ms) in
    let first : all (has_object old) before ≡ true = ground arith in
    let others : all (has_object old) (wanted ss ms) ≡ true = ground arith in
    let ih = wanted-put old new m ss ms grown held others in
    let mine : all (has_object new) now ≡ true = elim (Bool-cases (s.id == m.id)) [
      | inl e ↦
          let same : s.id ≡ m.id = (==_iff s.id m.id).0 e in
          rw same (wanted_by-put_self new m (without_snapshot m.id ms) held)
      | inr e ↦ rw (manifest-put_other m s.id ms e) (all-Extends old new before grown first)
    ] in
    let joined = all-append (has_object new) now (wanted ss (m ∷ without_snapshot m.id ms)) in
    ground arith

-- A backup leaves every object named by the hash of what it holds, and every object that a listed
-- backup needs in the store, whatever the folder holds and whichever files could not be read.
pub take_backup-IsWhole :
    (codec : Codec) (unzip-zip : (b : Text) → codec.unzip (codec.zip b) ≡ b) (snap_id : Text)
    (started : ℕ) (reason : Text) (exclude : List Text) (compress : Bool) (root : Listing)
    (s after : Store)
    → IsWhole codec s
    → take_backup codec snap_id started reason exclude compress root s ≡ ok after
    → IsWhole codec after
unfolding take_backup finish wanted Extends
take_backup-IsWhole codec unzip-zip snap_id started reason exclude compress root s after whole h =
    let (ex, e, h1) = >>=-eq-ok (clean_exclude exclude) _ h in
    let previous = previous_files (done_of s.index) s.snapshots in
    let p = take_files codec compress previous (walk ex root) (start s.objects) in
    let kept =
      take_files-IsKept codec unzip-zip s.objects compress previous (walk ex root) (start s.objects)
        (record { grown = λ sha k. refl; sound = whole.sound; held = refl }) in
    let same : finish snap_id started reason ex p s ≡ after = cc in
    rw (← same) (record {
      sound = kept.sound;
      complete =
          let made : Manifest = record {
            id = snap_id;
            created = started;
            reason = take 200 reason;
            exclude = ex;
            files = p.entries;
            skipped = take 200 p.skipped;
          } in
          all-append (has_object p.objects)
            (wanted_by (manifest snap_id (made ∷ without_snapshot snap_id s.snapshots)))
            (wanted s.index (made ∷ without_snapshot snap_id s.snapshots))
          ∙ (ground (
            arith,
            wanted_by-put_self p.objects made (without_snapshot snap_id s.snapshots) kept.held,
            wanted-put s.objects p.objects made s.index s.snapshots kept.grown kept.held
                whole.complete,
          ));
    })
