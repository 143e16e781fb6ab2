-- ===== src/Snapshots/Folders.antt =====
-- The folder that `restore` leaves (agent/worldbackup.py), looked up path by path.
use bless_forge.Base.{
  ◌≡◌, refl, ap, ◌∙◌, inl, inr, true, false, Option, none, some, List, [], ◌∷◌, ◌++◌, arith,
  if◌then◌else◌, Bool-cases, and-true_left, and-true_right, ◌==◌, ==_iff, nat_eq, string_eq, Text,
  text_eq, contains, add_once, is_empty, get, Result, ok, err, >>=-eq-ok,
}
use bless_forge.Base.Strings.{split_on, join_with}
use bless_forge.Files.Paths.{slash, parts_of}
use bless_forge.Files.Panel.{first_of}
use bless_forge.Snapshots.Model.{
  Codec, Object, Entry, has_object, clean_exclude, add_excludes, default_exclude, or_else,
}
use bless_forge.Snapshots.Walk.{Found}
use bless_forge.Snapshots.Restore.{Folder, or_default, is_kept, clear, write, write_all, holds_all}
use bless_forge.Snapshots.Objects.{IsSound, read_object-IsSound}
use bless_forge.Snapshots.Rows.{rows_of, expected}

abbrev readable : Result Text → Option Text
readable (ok bytes) = some bytes
readable (err problem) = none

-- What the walk read at a path: the last of that name that could be read
unfoldable pub content_of : Text → List Found → Option Text
content_of rel [] = none
content_of rel (found ∷ rest) =
    or_else (content_of rel rest) (if rel == found.rel then readable found.read else none)

or_else_assoc : (a b c : Option Text) → or_else a (or_else b c) ≡ or_else (or_else a b) c
or_else_assoc none b c = refl
or_else_assoc (some x) b c = refl

get-write :
    (rel bytes k : Text) (root : Folder)
    → get (write rel bytes root) k ≡ (if k == rel then some bytes else get root k)
unfolding write
get-write rel bytes k [] = refl
get-write rel bytes k ((old, before) ∷ root) =
    let ih = get-write rel bytes k root in
    elim (Bool-cases (rel == old)) [
      | inl e ↦
          let same : rel ≡ old = (==_iff rel old).0 e in
          elim (Bool-cases (k == old)) [
            | inl f ↦ let g : (k == rel) ≡ true = rw same f in rw (e, f, g) refl
            | inr f ↦ let g : (k == rel) ≡ false = rw same f in rw (e, f, g) refl
          ]
      | inr e ↦ elim (Bool-cases (k == old)) [
        | inl f ↦
            let g : (k == rel) ≡ false =
              ground (arith, ==_iff k old, ==_iff k rel, ==_iff rel old) in
            rw (e, f, g) refl
        | inr f ↦ rw (e, f) ih
      ]
    ]

pub get-clear :
    (exclude : List Text) (k : Text) (root : Folder)
    → get (clear exclude root) k
      ≡ (if is_kept exclude (first_of (split_on slash k)) then get root k else none)
unfolding clear
get-clear exclude k [] = elim (Bool-cases (is_kept exclude (first_of (split_on slash k)))) [
  | inl e ↦ rw e refl
  | inr e ↦ rw e refl
]
get-clear exclude k ((rel, bytes) ∷ root) =
    let ih = get-clear exclude k root in
    elim (Bool-cases (k == rel)) [
      | inl e ↦
          let same : k ≡ rel = (==_iff k rel).0 e in
          let alike : is_kept exclude (first_of (split_on slash k))
              ≡ is_kept exclude (first_of (split_on slash rel)) =
            ap (λ r. is_kept exclude (first_of (split_on slash r))) same in
          elim (Bool-cases (is_kept exclude (first_of (split_on slash rel)))) [
            | inl f ↦ rw (alike, f, e) refl
            | inr f ↦ rw (f) (ih ∙ rw (alike, f) refl)
          ]
      | inr e ↦ elim (Bool-cases (is_kept exclude (first_of (split_on slash rel)))) [
        | inl f ↦ rw (f, e) ih
        | inr f ↦ rw (f, e) ih
      ]
    ]

abbrev pub write_row : Text → Result Text → Folder → Folder
write_row rel (ok bytes) root = write rel bytes root
write_row rel (err problem) root = root

abbrev pub write_founds : List Found → Folder → Folder
write_founds [] root = root
write_founds (found ∷ rest) root = write_founds rest (write_row found.rel found.read root)

get-write_row :
    (rel k : Text) (read : Result Text) (root : Folder)
    → get (write_row rel read root) k
      ≡ or_else (if k == rel then readable read else none) (get root k)
get-write_row rel k (ok bytes) root =
    get-write rel bytes k root
    ∙ elim (Bool-cases (k == rel)) [ inl e ↦ rw e refl | inr e ↦ rw e refl ]
get-write_row rel k (err problem) root = elim (Bool-cases (k == rel)) [
  | inl e ↦ rw e refl
  | inr e ↦ rw e refl
]

pub get-write_founds :
    (founds : List Found) (root : Folder) (k : Text)
    → get (write_founds founds root) k ≡ or_else (content_of k founds) (get root k)
unfolding content_of
get-write_founds [] root k = refl
get-write_founds (found ∷ rest) root k =
    get-write_founds rest (write_row found.rel found.read root) k
    ∙ ap (or_else (content_of k rest)) (get-write_row found.rel k found.read root)
    ∙ or_else_assoc (content_of k rest) _ _

module _ (codec : Codec) (collision_free : (a b : Text) → codec.sha256 a ≡ codec.sha256 b → a ≡ b)
    (objects : List Object) (sound : IsSound codec objects) where
  write_all-rows_of :
      (found : Found) (read : Result Text) (es : List Entry) (root : Folder) {out : Folder → Folder}
      → ((r : Folder) → holds_all objects es ≡ true → write_all codec objects es r ≡ ok (out r))
      → holds_all objects (rows_of codec found read ++ es) ≡ true
      → write_all codec objects (rows_of codec found read ++ es) root
        ≡ ok (out (write_row found.rel read root))
  unfolding write_all
  write_all-rows_of found (err problem) es root others held = others root held
  write_all-rows_of found (ok bytes) es root others held =
      let here =
        read_object-IsSound codec collision_free objects bytes sound (and-true_left _ _ held) in
      let rest : holds_all objects es ≡ true =
        and-true_right (has_object objects (codec.sha256 bytes)) _ held in
      rw here (others (write found.rel bytes root) rest)

  pub write_all-expected :
      (founds : List Found) (root : Folder)
      → holds_all objects (expected codec founds) ≡ true
      → write_all codec objects (expected codec founds) root ≡ ok (write_founds founds root)
  unfolding write_all
  write_all-expected [] root held = refl
  write_all-expected (found ∷ rest) root held =
      write_all-rows_of found found.read (expected codec rest) root
        (λ r h. write_all-expected rest r h) held

add_once-is_empty :
    (out : List Text) (rel : Text)
    → is_empty out ≡ false
    → is_empty (if is_empty rel then out else add_once out rel) ≡ false
add_once-is_empty [] rel h = cc
add_once-is_empty (x ∷ out) rel h = elim (Bool-cases (is_empty rel)) [
  | inl e ↦ rw e refl
  | inr e ↦ elim (Bool-cases (contains (x ∷ out) rel)) [
    | inl f ↦ rw (e, f) refl
    | inr f ↦ rw (e, f) refl
  ]
]

add_excludes-is_empty :
    (items out : List Text) {ex : List Text}
    → is_empty out ≡ false
    → add_excludes out items ≡ ok ex
    → is_empty ex ≡ false
unfolding add_excludes
add_excludes-is_empty [] out {ex} h k = let e : out ≡ ex = cc in rw (← e) h
add_excludes-is_empty (item ∷ items) out {ex} h k =
    let (parts, e, k1) = >>=-eq-ok (parts_of (some item)) _ k in
    add_excludes-is_empty items _ (add_once-is_empty out (join_with slash parts) h) k1

pub or_default-clean_exclude :
    (extra : List Text) {ex : List Text} → clean_exclude extra ≡ ok ex → or_default ex ≡ ex
or_default-clean_exclude extra {ex} h = rw (add_excludes-is_empty extra default_exclude refl h) refl
