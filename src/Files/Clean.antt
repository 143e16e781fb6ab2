-- ===== src/Files/Clean.antt =====
-- About the parts that `parts_of` returns (agent/files.py).
use bless_forge.Base.{
  ◌≡◌, refl, ◌≢◌, inl, inr, true, false, not, ◌||◌, Option, none, some, List, [], ◌∷◌, arith,
  Bool-cases, ◌==◌, nat_eq, string_eq, Text, text_eq, ==_distinct, contains, is_empty, All, Refusal,
  ok, err, check, check-ok, >>=-eq-ok,
}
use bless_forge.Base.Strings.{split_on}
use bless_forge.Files.Paths.{
  slash, forward_slashes, single_dot, double_dot, raw_path, collect_parts, parts_of, outside_folder,
  is_absolute, second_is_colon,
}
use bless_forge.Files.Texts.{Without, strip-without, split_on-Without, split_on-Without_self}

-- The name of an entry of one folder: it goes neither up nor down.
pub record IsPart (p : Text) : Type 0 where
  pub named : is_empty p ≡ false
  pub here : p ≢ single_dot
  pub up : p ≢ double_dot
  pub flat : contains p slash ≡ false
  pub dos_flat : contains p b'\\' ≡ false
  pub no_null : contains p 0 ≡ false

forward_slashes-without : (s : Text) → contains (forward_slashes s) b'\\' ≡ false
forward_slashes-without [] = refl
forward_slashes-without (c ∷ s) = let ih = forward_slashes-without s in ground arith

raw_path-without : (path : Option Text) → contains (raw_path path) b'\\' ≡ false
unfolding raw_path
raw_path-without none = refl
raw_path-without (some path) = elim (Bool-cases (is_empty path)) [
  | inl e ↦ rw e refl
  | inr e ↦ rw e (strip-without b'\\' (forward_slashes path) (forward_slashes-without path))
]

module _ (outside : Refusal) where
  collect_parts-All :
      (ws : List Text)
      → Without slash ws
      → Without b'\\' ws
      → Without 0 ws
      → {ps : List Text} → collect_parts outside ws ≡ ok ps
      → All IsPart ps
  unfolding collect_parts
  collect_parts-All [] s b n {ps} h = let e : ps ≡ [] = cc in rw e tt
  collect_parts-All (w ∷ ws) s b n {ps} h = elim (Bool-cases (is_empty w || w == single_dot)) [
    | inl skip ↦ collect_parts-All ws s.1 b.1 n.1 (rw skip at h)
    | inr here ↦ elim (Bool-cases (w == double_dot)) [
      | inl up ↦ let k : err outside ≡ ok ps = rw (here, up) at h in cc
      | inr up ↦
          let (qs, e, h1) = >>=-eq-ok (collect_parts outside ws) _ (rw (here, up) at h) in
          let last : ps ≡ w ∷ qs = cc in
          rw last (
            record {
              named = ground arith;
              here = ==_distinct w single_dot (ground arith);
              up = ==_distinct w double_dot up;
              flat = s.0;
              dos_flat = b.0;
              no_null = n.0;
            },
            collect_parts-All ws s.1 b.1 n.1 e,
          )
    ]
  ]

pub collect_parts-same :
    (a b : Refusal) (ws : List Text) {ps qs : List Text}
    → collect_parts a ws ≡ ok ps
    → collect_parts b ws ≡ ok qs
    → ps ≡ qs
unfolding collect_parts
collect_parts-same a b [] h k = cc
collect_parts-same a b (w ∷ ws) {ps} {qs} h k = elim (Bool-cases (is_empty w || w == single_dot)) [
  | inl skip ↦ collect_parts-same a b ws (rw skip at h) (rw skip at k)
  | inr here ↦ elim (Bool-cases (w == double_dot)) [
    | inl up ↦ let l : err a ≡ ok ps = rw (here, up) at h in cc
    | inr up ↦
        let (xs, e, h1) = >>=-eq-ok (collect_parts a ws) _ (rw (here, up) at h) in
        let (ys, f, k1) = >>=-eq-ok (collect_parts b ws) _ (rw (here, up) at k) in
        let same : xs ≡ ys = collect_parts-same a b ws e f in cc
  ]
]

pub parts_of-ok :
    (rel : Option Text) {parts : List Text}
    → parts_of rel ≡ ok parts
    → (contains (raw_path rel) 0 ≡ false)
      × (is_absolute (raw_path rel) || second_is_colon (raw_path rel) ≡ false)
      × (collect_parts outside_folder (split_on slash (raw_path rel)) ≡ ok parts)
unfolding parts_of
parts_of-ok rel h =
    let raw = raw_path rel in
    let (_, e, h1) = >>=-eq-ok (check (not (contains raw 0)) _ _) _ h in
    let (_, f, h2) = >>=-eq-ok (check (not (is_absolute raw || second_is_colon raw)) _ _) _ h1 in
    let null : not (contains raw 0) ≡ true = check-ok (not (contains raw 0)) _ _ e in
    let inside : not (is_absolute raw || second_is_colon raw) ≡ true = check-ok _ _ _ f in
    (ground arith, ground arith, h2)

-- Every part of a path that the node accepts names an entry of a folder: it is not empty, `.` or
-- `..`, and has no slash, backslash or null byte. So a walk along the parts cannot leave the folder.
pub parts_of-IsPart :
    (rel : Option Text) {parts : List Text} → parts_of rel ≡ ok parts → All IsPart parts
parts_of-IsPart rel {parts} h =
    let raw = raw_path rel in
    let dos = raw_path-without rel in
    let (null, _, split) = parts_of-ok rel h in
    collect_parts-All outside_folder (split_on slash raw) (split_on-Without_self slash raw)
      (split_on-Without slash b'\\' raw dos) (split_on-Without slash 0 raw null) split
