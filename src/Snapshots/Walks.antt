-- ===== src/Snapshots/Walks.antt =====
-- The pruned walk of `take` against a walk of the whole folder (agent/worldbackup.py).
use bless_forge.Base.{
  ◌≡◌, refl, ap, ◌∙◌, inl, inr, true, false, some, List, [], ◌∷◌, ◌++◌, arith, eqb, if◌then◌else◌,
  Bool-cases, and-true_left, and-true_right, ◌==◌, ==_iff, nat_eq, string_eq, Text, text_eq,
  ==_refl, contains, add_once, contains-append, is_empty, ok, >>=-eq-ok,
}
use bless_forge.Base.Strings.{starts_with, join_with}
use bless_forge.Files.Paths.{slash, parts_of}
use bless_forge.Snapshots.Model.{excluded, clean_exclude, add_excludes, default_exclude}
use bless_forge.Snapshots.Walk.{
  Listing, nothing, file, other, folder, Found, below, files_of, files_below, walk,
}

-- The files that are not excluded
unfoldable pub unexcluded : List Text → List Found → List Found
unexcluded exclude [] = []
unexcluded exclude (found ∷ rest) =
    let others = unexcluded exclude rest in
    if excluded found.rel exclude then others else found ∷ others

unexcluded-append :
    (exclude : List Text) (front back : List Found)
    → unexcluded exclude (front ++ back) ≡ unexcluded exclude front ++ unexcluded exclude back
unfolding unexcluded
unexcluded-append exclude [] back = refl
unexcluded-append exclude (found ∷ front) back =
    let ih = unexcluded-append exclude front back in
    elim (Bool-cases (excluded found.rel exclude)) [
      | inl e ↦ rw e ih
      | inr e ↦ rw e (ap (λ fs. found ∷ fs) ih)
    ]

starts_with_self : (x rest : Text) → starts_with (x ++ (slash ∷ rest)) (x ++ (slash ∷ [])) ≡ true
unfolding starts_with
starts_with_self [] rest = refl
starts_with_self (c ∷ x) rest =
    let e : eqb c c ≡ true = ==_refl c in rw (e, starts_with_self x rest) refl

starts_with-append :
    (s rest prefix : Text) → starts_with s prefix ≡ true → starts_with (s ++ rest) prefix ≡ true
unfolding starts_with
starts_with-append s rest [] h = refl
starts_with-append [] rest (p ∷ prefix) h = cc
starts_with-append (c ∷ s) rest (p ∷ prefix) h =
    let tail : starts_with s prefix ≡ true = and-true_right (eqb c p) _ h in
    rw (and-true_left (eqb c p) _ h, starts_with-append s rest prefix tail) refl

excluded-append :
    (dir name : Text) (exclude : List Text)
    → excluded dir exclude ≡ true
    → excluded (dir ++ (slash ∷ name)) exclude ≡ true
unfolding excluded
excluded-append dir name [] h = cc
excluded-append dir name (ex ∷ exclude) h = elim (Bool-cases (dir == ex)) [
  | inl e ↦
      let same : dir ≡ ex = (==_iff dir ex).0 e in
      let there : starts_with (dir ++ (slash ∷ name)) (ex ++ (slash ∷ [])) ≡ true =
        rw same (starts_with_self ex name) in
      ground arith
  | inr e ↦ elim (Bool-cases (starts_with dir (ex ++ (slash ∷ [])))) [
    | inl f ↦
        let there = starts_with-append dir (slash ∷ name) (ex ++ (slash ∷ [])) f in ground arith
    | inr f ↦ let ih = excluded-append dir name exclude (ground arith) in ground arith
  ]
]

excluded-empty : (exclude : List Text) → contains exclude [] ≡ false → excluded [] exclude ≡ false
unfolding excluded starts_with
excluded-empty [] h = refl
excluded-empty ([] ∷ exclude) h = cc
excluded-empty ((c ∷ ex) ∷ exclude) h = excluded-empty exclude h

-- What lies in an excluded folder is excluded.
excluded-below :
    (exclude : List Text) (dir name : Text)
    → contains exclude [] ≡ false
    → excluded dir exclude ≡ true
    → excluded (below dir name) exclude ≡ true
unfolding below
excluded-below exclude [] name clean h = let k = excluded-empty exclude clean in cc
excluded-below exclude (c ∷ dir) name clean h = excluded-append (c ∷ dir) name exclude h

module _ (exclude : List Text) (clean : contains exclude [] ≡ false) where
  files_of-excluded :
      (dir : Text) (l : Listing)
      → excluded dir exclude ≡ true
      → unexcluded exclude (files_of [] dir l) ≡ []
  unfolding files_of unexcluded excluded
  files_of-excluded dir nothing h = refl
  files_of-excluded dir (file name st read rest) h =
      rw (excluded-below exclude dir name clean h) (files_of-excluded dir rest h)
  files_of-excluded dir (other name rest) h = files_of-excluded dir rest h
  files_of-excluded dir (folder name inner rest) h = files_of-excluded dir rest h

  files_below-excluded :
      (dir : Text) (l : Listing)
      → excluded dir exclude ≡ true
      → unexcluded exclude (files_below [] dir l) ≡ []
  unfolding files_below unexcluded excluded
  files_below-excluded dir nothing h = refl
  files_below-excluded dir (file name st read rest) h = files_below-excluded dir rest h
  files_below-excluded dir (other name rest) h = files_below-excluded dir rest h
  files_below-excluded dir (folder name inner rest) h =
      let deeper = excluded-below exclude dir name clean h in
      let d = below dir name in
      rw
        (
          unexcluded-append exclude (files_of [] d inner ++ files_below [] d inner)
              (files_below [] dir rest),
          unexcluded-append exclude (files_of [] d inner) (files_below [] d inner),
          files_of-excluded d inner deeper,
          files_below-excluded d inner deeper,
        )
        (files_below-excluded dir rest h)

  files_of-unexcluded :
      (dir : Text) (l : Listing) → files_of exclude dir l ≡ unexcluded exclude (files_of [] dir l)
  unfolding files_of unexcluded excluded
  files_of-unexcluded dir nothing = refl
  files_of-unexcluded dir (file name st read rest) =
      elim (Bool-cases (excluded (below dir name) exclude)) [
        | inl e ↦ rw e (files_of-unexcluded dir rest)
        | inr e ↦ rw e (
            ap (λ fs. record { rel = below dir name; st = st; read = read } ∷ fs)
              (files_of-unexcluded dir rest))
      ]
  files_of-unexcluded dir (other name rest) = files_of-unexcluded dir rest
  files_of-unexcluded dir (folder name inner rest) = files_of-unexcluded dir rest

  files_below-unexcluded :
      (dir : Text) (l : Listing)
      → files_below exclude dir l ≡ unexcluded exclude (files_below [] dir l)
  unfolding files_below unexcluded excluded
  files_below-unexcluded dir nothing = refl
  files_below-unexcluded dir (file name st read rest) = files_below-unexcluded dir rest
  files_below-unexcluded dir (other name rest) = files_below-unexcluded dir rest
  files_below-unexcluded dir (folder name inner rest) =
      let d = below dir name in
      let whole =
        unexcluded-append exclude (files_of [] d inner ++ files_below [] d inner)
          (files_below [] dir rest)
        ∙ ap (λ fs. fs ++ unexcluded exclude (files_below [] dir rest))
            (unexcluded-append exclude (files_of [] d inner) (files_below [] d inner)) in
      elim (Bool-cases (excluded d exclude)) [
        | inl e ↦
            rw (e, whole, files_of-excluded d inner e, files_below-excluded d inner e)
              (files_below-unexcluded dir rest)
        | inr e ↦
            rw
              (
                e,
                whole,
                ← files_of-unexcluded d inner,
                ← files_below-unexcluded d inner,
                ← files_below-unexcluded dir rest,
              )
              refl
      ]

add_once-clean :
    (out : List Text) (rel : Text)
    → contains out [] ≡ false
    → contains (if is_empty rel then out else add_once out rel) [] ≡ false
add_once-clean out [] h = h
add_once-clean out (c ∷ rel) h = elim (Bool-cases (contains out (c ∷ rel))) [
  | inl old ↦ rw old h
  | inr new ↦ rw (new, contains-append out ((c ∷ rel) ∷ []) []) (ground (arith, h))
]

add_excludes-clean :
    (items out : List Text) {ex : List Text}
    → contains out [] ≡ false
    → add_excludes out items ≡ ok ex
    → contains ex [] ≡ false
unfolding add_excludes
add_excludes-clean [] out {ex} h k = let e : out ≡ ex = cc in rw (← e) h
add_excludes-clean (item ∷ items) out {ex} h k =
    let (parts, e, k1) = >>=-eq-ok (parts_of (some item)) _ k in
    add_excludes-clean items _ (add_once-clean out (join_with slash parts) h) k1

-- The walk of a backup, which does not enter an excluded folder, finds the files that a walk of the
-- whole folder finds, in that order, less those that are excluded or lie in an excluded folder.
pub walk-unexcluded :
    (extra : List Text) (root : Listing) {exclude : List Text}
    → clean_exclude extra ≡ ok exclude
    → walk exclude root ≡ unexcluded exclude (walk [] root)
unfolding walk
walk-unexcluded extra root {exclude} h =
    let clean = add_excludes-clean extra default_exclude refl h in
    rw
      (
        unexcluded-append exclude (files_of [] [] root) (files_below [] [] root),
        ← files_of-unexcluded exclude clean [] root,
        ← files_below-unexcluded exclude clean [] root,
      )
      refl
