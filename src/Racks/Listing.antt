-- ===== src/Racks/Listing.antt =====
-- Which servers the answer of `document` shows on which rack (app/fleetgroups.py).
use bless_forge.Base.{
  ◌≡◌, refl, sym, ap, ◌∙◌, inl, inr, Bool, false, ◌&&◌, ◌||◌, Option, List, [], ◌∷◌, map, arith,
  Bool-cases, ◌==◌, ==_iff, nat_eq, string_eq, Text, text_eq, contains, All,
}
use bless_forge.Racks.Model.{Group, State}
use bless_forge.Racks.Document.{
  RackView, text_leb, insert_sorted, sorted, is_known, known_only, members_of, views, document,
}

-- Whether the assignment puts the server on the rack.
abbrev pub hangs : Text → Text → List (Text × Text) → Bool
hangs sid gid [] = false
hangs sid gid ((s, g) ∷ rest) = (sid == s && g == gid) || hangs sid gid rest

contains-insert_sorted :
    (x a : Text) (ys : List Text) → contains (insert_sorted x ys) a ≡ (a == x || contains ys a)
unfolding insert_sorted
contains-insert_sorted x a [] = refl
contains-insert_sorted x a (y ∷ ys) =
    let ih = contains-insert_sorted x a ys in
    elim (Bool-cases (text_leb x y)) [ inl e ↦ rw e refl | inr e ↦ rw (e, ih) (ground arith) ]

contains-sorted : (xs : List Text) (a : Text) → contains (sorted xs) a ≡ contains xs a
unfolding sorted
contains-sorted [] a = refl
contains-sorted (x ∷ xs) a = contains-insert_sorted x a (sorted xs) ∙ rw (contains-sorted xs a) refl

contains-members_of :
    (gid sid : Text) (pairs : List (Text × Text))
    → contains (members_of gid pairs) sid ≡ hangs sid gid pairs
contains-members_of gid sid [] = refl
contains-members_of gid sid ((s, g) ∷ rest) =
    let ih = contains-members_of gid sid rest in
    elim (Bool-cases (g == gid)) [
      | inl e ↦ rw (e, ih) (ground arith)
      | inr e ↦ rw (e, ih) (ground arith)
    ]

hangs-known_only :
    (known : Option (List Text)) (sid gid : Text) (pairs : List (Text × Text))
    → hangs sid gid (known_only known pairs) ≡ (hangs sid gid pairs && is_known known sid)
hangs-known_only known sid gid [] = refl
hangs-known_only known sid gid ((s, g) ∷ rest) =
    let ih = hangs-known_only known sid gid rest in
    elim (Bool-cases (sid == s)) [
      | inl e ↦
          let same : sid ≡ s = (==_iff sid s).0 e in
          let alike : is_known known s ≡ is_known known sid = ap (is_known known) (sym same) in
          elim (Bool-cases (is_known known sid)) [
            | inl k ↦ rw (alike, k, e, ih) (rw k (ground arith))
            | inr k ↦ rw (alike, k, e, ih) (rw k (ground arith))
          ]
      | inr e ↦ elim (Bool-cases (is_known known s)) [ inl k ↦ rw (k, e) ih | inr k ↦ rw (k, e) ih ]
    ]

-- A rack of the answer shows the servers that hang on it and are known.
pub record Shows (known : Option (List Text)) (s : State) (v : RackView) : Type 0 where
  pub shown :
      (sid : Text)
      → contains v.server_ids sid ≡ (hangs sid (v.group.id) s.assign && is_known known sid)

views-Shows :
    (known : Option (List Text)) (s : State) (gs : List Group)
    → (map (λ v. v.group) (views (known_only known s.assign) gs) ≡ gs)
      × All (Shows known s) (views (known_only known s.assign) gs)
views-Shows known s [] = (refl, tt)
views-Shows known s (g ∷ gs) =
    let ih = views-Shows known s gs in
    (
      ap (λ rest. g ∷ rest) ih.0,
      (
        record {
          shown = λ sid.
              contains-sorted (members_of g.id (known_only known s.assign)) sid
              ∙ contains-members_of g.id sid (known_only known s.assign)
              ∙ hangs-known_only known sid g.id s.assign;
        },
        ih.1,
      ),
    )

-- The answer has the racks in their order, and on each exactly the servers that hang on it and are
-- known: a server that a silent node does not report is left out of the answer.
pub document-Shows :
    (known : Option (List Text)) (s : State)
    → (map (λ v. v.group) (document known s).groups ≡ s.groups)
      × All (Shows known s) (document known s).groups
unfolding document
document-Shows known s = views-Shows known s s.groups
