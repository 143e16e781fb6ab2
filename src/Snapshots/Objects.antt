-- ===== src/Snapshots/Objects.antt =====
-- The lookup of objects in a store that grows (agent/worldbackup.py: `object_path`, `_store_file`).
use bless_forge.Base.{
  ◌≡◌, refl, ap, ◌∙◌, inl, inr, Bool, true, false, not, ◌&&◌, some, List, [], ◌∷◌, arith,
  if◌then◌else◌, Bool-cases, Option-cases, and-true_left, ◌==◌, ==_iff, nat_eq, string_eq, Text,
  text_eq, ==_refl, All, ok,
}
use bless_forge.Snapshots.Model.{
  Codec, Object, content, find_object, object_path, has_object, read_object,
}
use bless_forge.Snapshots.Take.{store_file}

-- Each object is named by the hash of what it holds.
unfoldable pub IsSound : Codec → List Object → Type 0
IsSound codec objects = All (λ o. codec.sha256 (content codec o) ≡ o.sha) objects

-- Nothing that was there is lost or replaced.
unfoldable pub Extends : List Object → List Object → Type 0
Extends old new =
    (sha : Text) → has_object old sha ≡ true → object_path sha new ≡ object_path sha old

pub has_object-Extends :
    (old new : List Object) (sha : Text)
    → Extends old new
    → has_object old sha ≡ true
    → has_object new sha ≡ true
unfolding Extends has_object
has_object-Extends old new sha grown h = rw (grown sha h) h

pub Extends-trans : (a b c : List Object) → Extends a b → Extends b c → Extends a c
unfolding Extends
Extends-trans a b c f g sha h = g sha (has_object-Extends a b sha f h) ∙ f sha h

find_object-IsSound :
    (codec : Codec) (sha : Text) (packed : Bool) (objects : List Object)
    → IsSound codec objects
    → {o : Object} → find_object sha packed objects ≡ some o
    → codec.sha256 (content codec o) ≡ sha
unfolding IsSound find_object
find_object-IsSound codec sha packed [] sound h = cc
find_object-IsSound codec sha packed (x ∷ xs) sound {o} h =
    elim (Bool-cases (x.sha == sha && (if packed then x.packed else not x.packed))) [
      | inl hit ↦
          let same : x ≡ o = cc in
          let named : x.sha ≡ sha = (==_iff x.sha sha).0 (and-true_left _ _ hit) in
          rw (← same) (sound.0 ∙ named)
      | inr miss ↦ find_object-IsSound codec sha packed xs sound.1 (rw miss at h)
    ]

pub object_path-IsSound :
    (codec : Codec) (sha : Text) (objects : List Object)
    → IsSound codec objects
    → {o : Object} → object_path sha objects ≡ some o
    → codec.sha256 (content codec o) ≡ sha
unfolding object_path
object_path-IsSound codec sha objects sound {o} h =
    elim (Option-cases (find_object sha false objects)) [
      | inl e ↦ find_object-IsSound codec sha true objects sound (rw e at h)
      | inr (x, e) ↦ find_object-IsSound codec sha false objects sound (e ∙ rw e at h)
    ]

-- An object of another hash changes no lookup.
find_object-skip :
    (o : Object) (sha : Text) (packed : Bool) (objects : List Object)
    → (o.sha == sha) ≡ false
    → find_object sha packed (o ∷ objects) ≡ find_object sha packed objects
unfolding find_object
find_object-skip o sha packed objects h = rw h refl

object_path-skip :
    (o : Object) (sha : Text) (objects : List Object)
    → (o.sha == sha) ≡ false
    → object_path sha (o ∷ objects) ≡ object_path sha objects
unfolding object_path
object_path-skip o sha objects h =
    rw (find_object-skip o sha false objects h, find_object-skip o sha true objects h) refl

pub store_file-Extends :
    (codec : Codec) (compress : Bool) (bytes : Text) (objects : List Object)
    → Extends objects (store_file codec compress bytes objects).0
unfolding Extends store_file has_object
store_file-Extends codec compress bytes objects sha h =
    elim (Bool-cases (has_object objects (codec.sha256 bytes))) [
      | inl there ↦ rw there refl
      | inr fresh ↦ elim (Bool-cases (codec.sha256 bytes == sha)) [
        | inl same ↦
            let k : codec.sha256 bytes ≡ sha = (==_iff _ sha).0 same in
            let there : has_object objects (codec.sha256 bytes) ≡ true = rw k h in cc
        | inr differ ↦ rw fresh (object_path-skip _ sha objects differ)
      ]
    ]

pub store_file-sha :
    (codec : Codec) (compress : Bool) (bytes : Text) (objects : List Object)
    → (store_file codec compress bytes objects).1 ≡ codec.sha256 bytes
unfolding store_file
store_file-sha codec compress bytes objects =
    elim (Bool-cases (has_object objects (codec.sha256 bytes))) [
      | inl there ↦ rw there refl
      | inr fresh ↦ rw fresh refl
    ]

find_object-hit :
    (o : Object) (packed : Bool) (objects : List Object)
    → (if packed then o.packed else not o.packed) ≡ true
    → find_object o.sha packed (o ∷ objects) ≡ some o
unfolding find_object
find_object-hit o packed objects h =
    let e : (o.sha == o.sha) ≡ true = ==_refl o.sha in rw (e, h) refl

-- The object that was just put is found, as the raw one or as the packed one.
has_object-put : (o : Object) (objects : List Object) → has_object (o ∷ objects) o.sha ≡ true
unfolding has_object object_path
has_object-put o objects = elim (Bool-cases o.packed) [
  | inr raw ↦ rw (find_object-hit o false objects (ground arith)) refl
  | inl packed ↦ elim (Option-cases (find_object o.sha false (o ∷ objects))) [
    | inl none_raw ↦ rw (none_raw, find_object-hit o true objects packed) refl
    | inr (x, e) ↦ rw e refl
  ]
]

pub store_file-has_object :
    (codec : Codec) (compress : Bool) (bytes : Text) (objects : List Object)
    → has_object (store_file codec compress bytes objects).0 (codec.sha256 bytes) ≡ true
unfolding store_file
store_file-has_object codec compress bytes objects =
    elim (Bool-cases (has_object objects (codec.sha256 bytes))) [
      | inl there ↦ rw there there
      | inr fresh ↦ rw fresh (has_object-put _ objects)
    ]

module _ (codec : Codec) (unzip-zip : (b : Text) → codec.unzip (codec.zip b) ≡ b) where
  content-put :
      (compress : Bool) (bytes sha : Text)
      → content codec (record {
        sha = sha;
        packed = compress;
        bytes = if compress then codec.zip bytes else bytes;
      })
        ≡ bytes
  content-put true bytes sha = unzip-zip bytes
  content-put false bytes sha = refl

  pub store_file-IsSound :
      (compress : Bool) (bytes : Text) (objects : List Object)
      → IsSound codec objects
      → IsSound codec (store_file codec compress bytes objects).0
  unfolding IsSound store_file
  store_file-IsSound compress bytes objects sound =
      elim (Bool-cases (has_object objects (codec.sha256 bytes))) [
        | inl there ↦ rw there sound
        | inr fresh ↦
            rw fresh (ap codec.sha256 (content-put compress bytes (codec.sha256 bytes)), sound)
      ]

-- Where no two contents have the same hash, what is stored under a content's hash is that content.
pub read_object-IsSound :
    (codec : Codec)
    → ((a b : Text) → codec.sha256 a ≡ codec.sha256 b → a ≡ b)
    → (objects : List Object) (bytes : Text) → IsSound codec objects
    → has_object objects (codec.sha256 bytes) ≡ true
    → read_object codec objects (codec.sha256 bytes) ≡ ok bytes
unfolding read_object has_object
read_object-IsSound codec collision_free objects bytes sound h =
    elim (Option-cases (object_path (codec.sha256 bytes) objects)) [
      | inl none_there ↦ let k : false ≡ true = rw none_there at h in cc
      | inr (o, e) ↦ rw e (ap ok (collision_free _ _ (object_path-IsSound codec _ objects sound e)))
    ]
