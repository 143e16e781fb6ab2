-- ===== src/Racks/Sound.antt =====
-- What every change of the racks keeps (app/fleetgroups.py).
use bless_forge.Base.{
  suc, ◌≤◌, ◌≡◌, refl, ap, inl, inr, Bool, true, false, not, ◌&&◌, List, [], ◌∷◌, ◌++◌, arith, leb,
  Bool-cases, ◌==◌, ==_iff, nat_eq, string_eq, Text, text_eq, contains, contains-append, length,
  is_empty, all,
}
use bless_forge.Racks.Model.{Group, State, motifs, max_groups, max_name}
use bless_forge.Racks.Change.{ids_of, hang, take_down, hang_all, take_down_all, groups_but}

-- No id twice
abbrev pub distinct : List Text → Bool
distinct [] = true
distinct (x ∷ xs) = not (contains xs x) && distinct xs

-- A name of one to 48 characters, and a mark of the list
abbrev pub is_clean : Group → Bool
is_clean g = contains motifs g.motif && not (is_empty g.name) && leb (length g.name) max_name

abbrev pub is_hung : List Text → Text × Text → Bool
is_hung ids pair = contains ids (pair.1)

pub record IsSound (s : State) : Type 0 where
  pub different : distinct (ids_of s.groups) ≡ true
  pub few : length s.groups ≤ max_groups
  pub clean : all is_clean s.groups ≡ true
  pub hung : all (is_hung (ids_of s.groups)) s.assign ≡ true

pub ids_of-append : (gs hs : List Group) → ids_of (gs ++ hs) ≡ ids_of gs ++ ids_of hs
ids_of-append [] hs = refl
ids_of-append (g ∷ gs) hs = ap (λ ids. g.id ∷ ids) (ids_of-append gs hs)

pub length-ids_of : (gs : List Group) → length (ids_of gs) ≡ length gs
length-ids_of [] = refl
length-ids_of (g ∷ gs) = ap suc (length-ids_of gs)

pub distinct-append :
    (xs : List Text) (x : Text)
    → distinct xs ≡ true
    → contains xs x ≡ false
    → distinct (xs ++ (x ∷ [])) ≡ true
distinct-append [] x d n = refl
distinct-append (y ∷ xs) x d n =
    let ih = distinct-append xs x (ground arith) (ground arith) in
    ground (arith, ih, contains-append xs (x ∷ []) y, ==_iff x y, ==_iff y x)

pub all-hung-more :
    (ids more : List Text) (pairs : List (Text × Text))
    → all (is_hung ids) pairs ≡ true
    → all (is_hung (ids ++ more)) pairs ≡ true
all-hung-more ids more [] h = refl
all-hung-more ids more (p ∷ pairs) h =
    let ih = all-hung-more ids more pairs (ground arith) in
    ground (arith, contains-append ids more (p.1), ih)

pub hang-hung :
    (ids : List Text) (sid gid : Text) (pairs : List (Text × Text))
    → contains ids gid ≡ true
    → all (is_hung ids) pairs ≡ true
    → all (is_hung ids) (hang sid gid pairs) ≡ true
unfolding hang
hang-hung ids sid gid [] there h = ground arith
hang-hung ids sid gid ((s, g) ∷ rest) there h =
    let ih = hang-hung ids sid gid rest there (ground arith) in
    elim (Bool-cases (sid == s)) [ inl e ↦ rw e (ground arith) | inr e ↦ rw e (ground arith) ]

pub hang_all-hung :
    (ids : List Text) (sids : List Text) (gid : Text) (pairs : List (Text × Text))
    → contains ids gid ≡ true
    → all (is_hung ids) pairs ≡ true
    → all (is_hung ids) (hang_all sids gid pairs) ≡ true
unfolding hang_all
hang_all-hung ids [] gid pairs there h = h
hang_all-hung ids (sid ∷ sids) gid pairs there h =
    hang_all-hung ids sids gid (hang sid gid pairs) there (hang-hung ids sid gid pairs there h)

pub take_down-hung :
    (ids : List Text) (sid : Text) (pairs : List (Text × Text))
    → all (is_hung ids) pairs ≡ true
    → all (is_hung ids) (take_down sid pairs) ≡ true
unfolding take_down
take_down-hung ids sid [] h = refl
take_down-hung ids sid ((s, g) ∷ rest) h =
    let ih = take_down-hung ids sid rest (ground arith) in
    elim (Bool-cases (sid == s)) [ inl e ↦ rw e ih | inr e ↦ rw e (ground arith) ]

pub take_down_all-hung :
    (ids : List Text) (sids : List Text) (pairs : List (Text × Text))
    → all (is_hung ids) pairs ≡ true
    → all (is_hung ids) (take_down_all sids pairs) ≡ true
unfolding take_down_all
take_down_all-hung ids [] pairs h = h
take_down_all-hung ids (sid ∷ sids) pairs h =
    take_down_all-hung ids sids (take_down sid pairs) (take_down-hung ids sid pairs h)

pub contains-groups_but :
    (gid a : Text) (gs : List Group)
    → contains (ids_of (groups_but gid gs)) a ≡ (contains (ids_of gs) a && not (a == gid))
contains-groups_but gid a [] = refl
contains-groups_but gid a (g ∷ gs) =
    let ih = contains-groups_but gid a gs in
    elim (Bool-cases (g.id == gid)) [
      | inl e ↦ let same : g.id ≡ gid = (==_iff g.id gid).0 e in rw (e, ih, same) (ground arith)
      | inr e ↦ rw (e, ih) (ground (arith, ==_iff a g.id, ==_iff a gid, ==_iff g.id gid))
    ]
