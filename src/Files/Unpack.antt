-- ===== src/Files/Unpack.antt =====
-- What `check_archive` (agent/files.py) has checked of a zip.
use bless_forge.Base.{
  ℕ, ◌*◌, ◌≤◌, ◌≡◌, refl, ap, ◌⊎◌, inl, inr, true, false, not, some, List, [], ◌∷◌, map, arith, ltb,
  leb, leb→le, Bool-cases, nat_eq, string_eq, Text, text_eq, All, Result, ok, err, check, check-ok,
  >>=-eq-ok,
}
use bless_forge.Files.Paths.{parts_of}
use bless_forge.Files.Clean.{IsPart, parts_of-IsPart}
use bless_forge.Files.Archive.{
  Member, member_parts, check_members, total_size, check_archive, too_dense, max_extract_ratio,
}

-- A member that unpacks to a plain file inside the folder.
pub record IsSafe (entry : Member × List Text) : Type 0 where
  pub read : parts_of (some (entry.0.filename)) ≡ ok (entry.1)
  pub inside : All IsPart (entry.1)
  pub plain : entry.0.is_symlink ≡ false

member_parts-ok :
    (r : Result (List Text)) {parts : List Text} → member_parts r ≡ ok parts → r ≡ ok parts
member_parts-ok (ok found) h = h
member_parts-ok (err problem) h = cc

check_members-IsSafe :
    (infos : List Member) {members : List (Member × List Text)}
    → check_members infos ≡ ok members
    → (map (λ m. m.0) members ≡ infos) × All IsSafe members
unfolding check_members
check_members-IsSafe [] {members} h = let e : members ≡ [] = cc in rw e (refl, tt)
check_members-IsSafe (info ∷ infos) {members} h =
    let (parts, e, h1) = >>=-eq-ok (member_parts (parts_of (some info.filename))) _ h in
    let (_, f, h2) = >>=-eq-ok (check (not info.is_symlink) _ _) _ h1 in
    let (rest, g, h3) = >>=-eq-ok (check_members infos) _ h2 in
    let plain : not info.is_symlink ≡ true = check-ok _ _ _ f in
    let read = member_parts-ok (parts_of (some info.filename)) e in
    let same : members ≡ (info, parts) ∷ rest = cc in
    let ih = check_members-IsSafe infos g in
    rw same (
      ap (λ is. info ∷ is) ih.0,
      (
        record {
          read = read;
          inside = parts_of-IsPart (some info.filename) read;
          plain = ground arith;
        },
        ih.1,
      ),
    )

too_dense-false :
    (archive_size total : ℕ)
    → not (too_dense archive_size total) ≡ true
    → (archive_size ≡ 0) ⊎ (total ≤ 64 * 1048576) ⊎ (total ≤ archive_size * max_extract_ratio)
too_dense-false archive_size total h = elim (Bool-cases (ltb 0 archive_size)) [
  | inr e ↦ inl (ground arith)
  | inl e ↦ elim (Bool-cases (ltb (64 * 1048576) total)) [
    | inr f ↦ inr (inl (ground arith))
    | inl f ↦ inr (inr (ground arith))
  ]
]

-- An accepted archive is unpacked member by member, each to a plain name inside the folder and none
-- as a link. It claims at most `limit` bytes in all, and if it is not empty and claims more than
-- 64 MB, at most 200 times its own size.
pub check_archive-IsSafe :
    (infos : List Member) (archive_size limit : ℕ) {members : List (Member × List Text)}
    → check_archive infos archive_size limit ≡ ok members
    → (map (λ m. m.0) members ≡ infos)
      × All IsSafe members
      × (total_size infos ≤ limit)
      × ((archive_size ≡ 0)
          ⊎ (total_size infos ≤ 64 * 1048576)
          ⊎ (total_size infos ≤ archive_size * max_extract_ratio))
unfolding check_archive
check_archive-IsSafe infos archive_size limit {members} h =
    let total = total_size infos in
    let (found, e, h1) = >>=-eq-ok (check_members infos) _ h in
    let (_, f, h2) = >>=-eq-ok (check (leb total limit) _ _) _ h1 in
    let (_, g, h3) = >>=-eq-ok (check (not (too_dense archive_size total)) _ _) _ h2 in
    let same : found ≡ members = cc in
    let safe = check_members-IsSafe infos e in
    rw (← same) (
      safe.0,
      safe.1,
      leb→le _ _ (check-ok _ _ _ f),
      too_dense-false archive_size total (check-ok _ _ _ g),
    )
