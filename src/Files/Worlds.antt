-- ===== src/Files/Worlds.antt =====
-- What the panel's `delete` lets through, and what the node makes of it.
use bless_forge.Base.{
  ◌≡◌, refl, sym, ap, ◌∙◌, inl, inr, Bool, true, false, not, ◌&&◌, ◌||◌, some, List, [], ◌∷◌, arith,
  if◌then◌else◌, Bool-cases, or-true_cases, ◌==◌, ==_iff, nat_eq, string_eq, Text, text_eq,
  contains, is_empty, All, All-map, Result, ok, err, check, check-ok, >>=-eq-ok,
}
use bless_forge.Base.Strings.{split_on, join_with}
use bless_forge.Files.Paths.{
  slash, single_dot, raw_path, is_absolute, collect_parts, parts_of, outside_folder,
}
use bless_forge.Files.Texts.{split_on-last, split_on-append}
use bless_forge.Files.Clean.{collect_parts-same, parts_of-ok, parts_of-IsPart, IsPart}
use bless_forge.Files.Panel.{
  protected_roots, outside_directory, or_root, has_drive, guard_path, first_of, top_segment,
  is_protected, any_protected, guard_all, delete_request,
}

first_of-join :
    (p : Text) (ps : List Text)
    → contains p slash ≡ false
    → first_of (split_on slash (join_with slash (p ∷ ps))) ≡ p
unfolding join_with
first_of-join p [] h = rw (split_on-last slash p h) refl
first_of-join p (q ∷ ps) h = rw (split_on-append slash p (join_with slash (q ∷ ps)) h) refl

-- The entry of the server's folder that a path is or lies in; the folder itself is `.`.
abbrev pub top_of : List Text → Text
top_of [] = single_dot
top_of (p ∷ ps) = p

-- Whether what the node deletes is, or lies in, a world or runtime folder.
abbrev pub touches_world : Result (List Text) → Bool
touches_world (ok parts) = contains protected_roots (top_of parts)
touches_world (err problem) = false

top_segment-or_root :
    (ps : List Text)
    → All IsPart ps
    → {q : Text} → or_root true ps ≡ ok q
    → (if q == single_dot then ok single_dot else ok (first_of (split_on slash q))) ≡ ok (top_of ps)
unfolding split_on
top_segment-or_root [] clean {q} h = let e : q ≡ single_dot = cc in rw e refl
top_segment-or_root (p ∷ ps) clean {q} h =
    let e : join_with slash (p ∷ ps) ≡ q = cc in
    let first : first_of (split_on slash q) ≡ p =
      rw (← e) (first_of-join p ps (IsPart.flat clean.0)) in
    elim (Bool-cases (q == single_dot)) [
      | inl root ↦
          let same : q ≡ single_dot = (==_iff q single_dot).0 root in
          let dot : p ≡ single_dot = sym (rw same at first) in rw (root, dot) refl
      | inr deep ↦ rw (deep, first) refl
    ]

-- A path that the panel reads as the folder itself has no parts.
root-parts_of :
    (raw : Text) {parts : List Text}
    → is_empty raw || raw == single_dot || raw == (b'.' ∷ slash ∷ []) ≡ true
    → collect_parts outside_folder (split_on slash raw) ≡ ok parts
    → parts ≡ []
unfolding collect_parts split_on
root-parts_of [] root h = cc
root-parts_of (c ∷ s) {parts} root h =
    let found : Text → Result (List Text) =
      λ raw. collect_parts outside_folder (split_on slash raw) in
    elim (or-true_cases ((c ∷ s) == single_dot) _ root) [
      | inl dot ↦
          let same : c ∷ s ≡ single_dot = (==_iff (c ∷ s) single_dot).0 dot in
          let k : ok [] ≡ ok parts = ap found (sym same) ∙ h in cc
      | inr dot ↦
          let same : c ∷ s ≡ b'.' ∷ slash ∷ [] = (==_iff (c ∷ s) (b'.' ∷ slash ∷ [])).0 dot in
          let k : ok [] ≡ ok parts = ap found (sym same) ∙ h in cc
    ]

-- Where the panel and the node accept a path, they find the same parts.
guard_path-parts_of :
    (q : Text) {parts : List Text}
    → parts_of (some q) ≡ ok parts
    → {g : Text} → guard_path q true ≡ ok g
    → or_root true parts ≡ ok g
unfolding guard_path
guard_path-parts_of q {parts} h {g} k =
    let raw = raw_path (some q) in
    let (_, _, split) = parts_of-ok (some q) h in
    elim (Bool-cases (is_empty raw || raw == single_dot || raw == (b'.' ∷ slash ∷ []))) [
      | inl root ↦ rw (root-parts_of raw root split) (rw root at k)
      | inr deep ↦
          let (_, _, k1) = >>=-eq-ok (check (not (contains raw 0)) _ _) _ (rw deep at k) in
          let (_, _, k2) = >>=-eq-ok (check (not (is_absolute raw || has_drive raw)) _ _) _ k1 in
          let (found, e, k3) =
            >>=-eq-ok (collect_parts outside_directory (split_on slash raw)) _ k2 in
          rw (collect_parts-same outside_folder outside_directory (split_on slash raw) split e) k3
    ]

-- On a path that the node reads as `parts`, the panel looks at the first of them.
is_protected-parts_of :
    (q : Text) {parts : List Text}
    → parts_of (some q) ≡ ok parts
    → {b : Bool} → is_protected q ≡ ok b
    → b ≡ contains protected_roots (top_of parts)
unfolding is_protected top_segment
is_protected-parts_of q {parts} h {b} k =
    let (top, e, k1) = >>=-eq-ok (top_segment q) _ k in
    let (g, f, e1) = >>=-eq-ok (guard_path q true) _ e in
    let clean = parts_of-IsPart (some q) h in
    let first = top_segment-or_root parts clean (guard_path-parts_of q h f) in
    let same : top ≡ top_of parts = cc in
    let tested : b ≡ contains protected_roots top = cc in rw (← same) tested

any_protected-All :
    (qs : List Text) → any_protected qs ≡ ok false → All (λ q. is_protected q ≡ ok false) qs
unfolding any_protected
any_protected-All [] h = tt
any_protected-All (q ∷ qs) h =
    let (b, e, h1) = >>=-eq-ok (is_protected q) _ h in
    let (rest, f, h2) = >>=-eq-ok (any_protected qs) _ h1 in
    let both : b || rest ≡ false = cc in
    let mine : b ≡ false = ground arith in
    let others : rest ≡ false = ground arith in
    (rw (← mine) e, any_protected-All qs (rw (← others) f))

touches_world-false :
    (q : Text) → is_protected q ≡ ok false → touches_world (parts_of (some q)) ≡ false
touches_world-false q h = go (parts_of (some q)) refl
  where
    go : (read : Result (List Text)) → parts_of (some q) ≡ read → touches_world read ≡ false
    go (ok parts) e = sym (is_protected-parts_of q e h)
    go (err problem) e = refl

-- Unless the user has allowed it, no path that the panel passes on for deletion is read by the node
-- as a path of, or inside, one of the protected folders (the worlds, `backups`, `libraries` and so
-- on), whatever spelling the user chose.
pub delete_request-spares :
    (paths cleaned : List Text)
    → delete_request paths false ≡ ok cleaned
    → All (λ q. touches_world (parts_of (some q)) ≡ false) cleaned
unfolding delete_request
delete_request-spares paths cleaned h =
    let (_, _, h1) = >>=-eq-ok (check (not (is_empty paths)) _ _) _ h in
    let (found, e, h2) = >>=-eq-ok (guard_all paths) _ h1 in
    let (blocked, f, h3) = >>=-eq-ok (any_protected found) _ h2 in
    let (_, g, h4) = >>=-eq-ok (check (not (blocked && true)) _ _) _ h3 in
    let passed : not (blocked && true) ≡ true = check-ok _ _ _ g in
    let free : blocked ≡ false = ground arith in
    let same : found ≡ cleaned = cc in
    let unprotected = any_protected-All found (rw (← free) f) in
    rw (← same) (All-map _ _ found touches_world-false unprotected)
