-- ===== src/Snapshots/Thinned.antt =====
-- What removing backups leaves of a whole store (agent/worldbackup.py).
use bless_forge.Base.{
  ℕ, ◌≡◌, refl, ◌∙◌, inl, inr, true, List, [], ◌∷◌, arith, if◌then◌else◌, Bool-cases, and-true_left,
  and-true_right, nat_eq, string_eq, Text, text_eq, contains, is_empty, all, all-append, All,
  All-contains, ok, >>=-eq-ok,
}
use bless_forge.Snapshots.Model.{Codec, Object, Manifest, Summary, Store, manifest, has_object}
use bless_forge.Snapshots.Remove.{
  wanted_by, wanted, keep_objects, rows_without, without_all, collect, remove_all, delete, surplus,
  keep_only,
}
use bless_forge.Snapshots.Objects.{IsSound}
use bless_forge.Snapshots.Collected.{has_object-keep_objects, manifest-without_all}
use bless_forge.Snapshots.Complete.{IsWhole}

keep_objects-IsSound :
    (codec : Codec) (shas : List Text) (objects : List Object)
    → IsSound codec objects
    → IsSound codec (keep_objects shas objects)
unfolding IsSound keep_objects
keep_objects-IsSound codec shas [] h = tt
keep_objects-IsSound codec shas (o ∷ os) h =
    let rest = keep_objects-IsSound codec shas os h.1 in
    elim (Bool-cases (contains shas o.sha)) [
      | inl stays ↦ rw stays (h.0, rest)
      | inr goes ↦ rw goes rest
    ]

all-keep_objects :
    (shas wants : List Text) (objects : List Object)
    → All (λ sha. contains shas sha ≡ true) wants
    → all (has_object objects) wants ≡ true
    → all (has_object (keep_objects shas objects)) wants ≡ true
all-keep_objects shas [] objects within h = refl
all-keep_objects shas (w ∷ wants) objects within h =
    let others : all (has_object objects) wants ≡ true =
      and-true_right (has_object objects w) _ h in
    let here : has_object (keep_objects shas objects) w ≡ true =
      has_object-keep_objects shas objects w within.0 ∙ and-true_left _ _ h in
    rw (here, all-keep_objects shas wants objects within.1 others) refl

wanted-rows_without :
    (objects : List Object) (gone : List Text) (ss : List Summary) (ms : List Manifest)
    → all (has_object objects) (wanted ss ms) ≡ true
    → all (has_object objects) (wanted (rows_without gone ss) (without_all gone ms)) ≡ true
unfolding wanted
wanted-rows_without objects gone [] ms h = refl
wanted-rows_without objects gone (s ∷ ss) ms h =
    let mine = wanted_by (manifest s.id ms) in
    let parts = all-append (has_object objects) mine (wanted ss ms) in
    let first : all (has_object objects) mine ≡ true = ground arith in
    let ih = wanted-rows_without objects gone ss ms (ground arith) in
    elim (Bool-cases (contains gone s.id)) [
      | inl goes ↦ rw goes ih
      | inr stays ↦
          rw
            (
              stays,
              manifest-without_all gone s.id ms stays,
              all-append (has_object objects) mine
                  (wanted (rows_without gone ss) (without_all gone ms)),
              first,
              ih,
            )
            refl
    ]

remove_all-IsWhole :
    (codec : Codec) (gone : List Text) (s : Store)
    → IsWhole codec s
    → IsWhole codec (remove_all gone s)
unfolding remove_all collect
remove_all-IsWhole codec gone s whole =
    let wants = wanted (rows_without gone s.index) (without_all gone s.snapshots) in
    record {
      sound = keep_objects-IsSound codec wants s.objects whole.sound;
      complete =
          all-keep_objects wants wants s.objects (All-contains _ wants (λ sha l. l))
            (wanted-rows_without s.objects gone s.index s.snapshots whole.complete);
    }

-- Deleting a backup leaves every other listed one whole: no object that one of them needs is
-- collected.
pub delete-IsWhole :
    (codec : Codec) (gone : Text) (s after : Store)
    → IsWhole codec s
    → delete gone s ≡ ok after
    → IsWhole codec after
unfolding delete
delete-IsWhole codec gone s after whole h =
    let (m, e, k) = >>=-eq-ok (manifest gone s.snapshots) _ h in
    let same : remove_all (gone ∷ []) s ≡ after = cc in
    rw (← same) (remove_all-IsWhole codec (gone ∷ []) s whole)

pub keep_only-IsWhole :
    (codec : Codec) (keep : ℕ) (s : Store) → IsWhole codec s → IsWhole codec (keep_only keep s).1
unfolding keep_only
keep_only-IsWhole codec keep s whole = go (surplus keep s.index)
  where
    go : (gone : List Text) → IsWhole codec (if is_empty gone then s else remove_all gone s)
    go [] = whole
    go (g ∷ gone) = remove_all-IsWhole codec (g ∷ gone) s whole
