-- ===== src/Deps/Best.antt =====
-- The file that `_pick_file` picks (app/deps.py).
use mathlib.Core.Path.{subst}
use bless_forge.Base.{
  ◌≡◌, refl, sym, ap, ◌∙◌, inl, Bool, true, false, not, ◌&&◌, ◌||◌, Option, none, some, List, [],
  ◌∷◌, arith, ltb, eqb, if◌then◌else◌, eqb_iff, and-true_left, nat_eq, string_eq, Text, text_eq,
  all,
}
use bless_forge.Deps.Model.{Version}
use bless_forge.Deps.Pick.{
  text_ltb, compatible, rank, is_number, number_or_zero, sorts_first, older, newer, sort_by, only,
  first, newest, best, pick_file,
}
use bless_forge.Deps.Sorts.{
  Among, Among-all, Among-only, all-only, all-sort_by, Among-sort_by, sort_by-some, sort_by-least,
  sorts_first-IsOrder, older-IsOrder, newer-IsOrder,
}

-- Whether a file is to be taken before another: it is of a better rank, or of the same with the
-- greater file number or, without numbers, the later date
abbrev pub better : Bool → Version → Version → Bool
better numbered g f =
    ltb (rank g) (rank f)
    || (eqb (rank g) (rank f)
        && (if numbered
            then ltb (number_or_zero f.file_id) (number_or_zero g.file_id)
            else text_ltb f.date g.date))

-- The file ids are all numbers, or none is
abbrev pub is_uniform : Bool → List Version → Bool
is_uniform numbered fs =
    all (λ f. if numbered then is_number f.file_id else not (is_number f.file_id)) fs

-- What is picked from a list: a file of it that no other is to be taken before
abbrev Best : Bool → List Version → Option Version → Type 0
Best numbered pool none = pool ≡ []
Best numbered pool (some f) = Among f pool × (all (λ g. not (better numbered g f)) pool ≡ true)

sort_by-nil : (less : Version → Version → Bool) (fs : List Version) → sort_by less fs ≡ [] → fs ≡ []
sort_by-nil less [] e = refl
sort_by-nil less (f ∷ fs) e =
    let (h, t, k) = sort_by-some less f fs in
    let q : Path (List Version) (h ∷ t) [] = sym k ∙ e in cc

all-both :
    (p q r : Version → Bool) (fs : List Version)
    → ((g : Version) → p g ≡ true → q g ≡ true → r g ≡ true)
    → all p fs ≡ true
    → all q fs ≡ true
    → all r fs ≡ true
all-both p q r [] step h k = refl
all-both p q r (f ∷ fs) step h k =
    let ih = all-both p q r fs step in let here = step f in ground arith

all-always :
    (p : Version → Bool) (fs : List Version) → ((g : Version) → p g ≡ true) → all p fs ≡ true
all-always p [] step = refl
all-always p (f ∷ fs) step = rw (step f, all-always p fs step) refl

later-better :
    (f g h : Version)
    → rank h ≡ rank f
    → not (older g f) ≡ true
    → (not (eqb (rank g) (rank f)) || not (newer g h)) ≡ true
    → not (better false g h) ≡ true
later-better f g h same a b = ground arith

-- The newest of the best rank, when the first of the list is of the best
newest-Best :
    (f : Version) (fs : List Version)
    → all (λ g. not (older g f)) (f ∷ fs) ≡ true
    → (h : Version) × (newest (f ∷ fs) ≡ some h) × Best false (f ∷ fs) (some h)
newest-Best f fs least =
    let same : Version → Bool = λ g. eqb (rank g) (rank f) in
    let kept : only same (f ∷ fs) ≡ f ∷ only same fs =
      let self : same f ≡ true = ground arith in rw self refl in
    let (h, t, e) = sort_by-some newer f (only same fs) in
    let whole : sort_by newer (only same (f ∷ fs)) ≡ h ∷ t = ap (sort_by newer) kept ∙ e in
    let there =
      Among-sort_by newer (only same (f ∷ fs)) h (subst (Among h) (sym whole) (inl refl)) in
    let rank_h : rank h ≡ rank f = (eqb_iff (rank h) (rank f)).0 (
      Among-all same (only same (f ∷ fs)) h there (
        all-only same same (f ∷ fs)
        ∙ all-always (λ g. not (same g) || same g) (f ∷ fs) (λ g. ground arith))) in
    let newest_h =
      sym (all-only same (λ g. not (newer g h)) (f ∷ fs))
      ∙ sort_by-least newer newer-IsOrder (only same (f ∷ fs)) whole in
    (
      h,
      ap first whole,
      (
        Among-only same (f ∷ fs) h there,
        all-both (λ g. not (older g f)) (λ g. not (same g) || not (newer g h))
            (λ g. not (better false g h)) (f ∷ fs) (λ g a b. later-better f g h rank_h a b) least
            newest_h,
      ),
    )

numbered-Best :
    (pool : List Version) (f : Version) (fs : List Version)
    → sort_by sorts_first pool ≡ f ∷ fs
    → is_number f.file_id ≡ true
    → Best true pool (best (f ∷ fs))
numbered-Best pool f fs e number =
    let least = sort_by-least sorts_first sorts_first-IsOrder pool e in
    rw number (
      Among-sort_by sorts_first pool f (subst (Among f) (sym e) (inl refl)),
      all-both (λ g. not (sorts_first g f)) (λ g. not (sorts_first g f))
          (λ g. not (better true g f)) pool (λ g a b. ground (arith, a)) least least,
    )

named-Best :
    (pool : List Version) (f : Version) (fs : List Version)
    → sort_by sorts_first pool ≡ f ∷ fs
    → is_number f.file_id ≡ false
    → Best false pool (best (f ∷ fs))
named-Best pool f fs e named =
    let (g, gs, again) = sort_by-some older f fs in
    let front = sort_by-least older older-IsOrder (f ∷ fs) again in
    let least : all (λ x. not (older x g)) (g ∷ gs) ≡ true =
      ap (all (λ x. not (older x g))) (sym again)
      ∙ all-sort_by older (λ x. not (older x g)) (f ∷ fs)
      ∙ front in
    let (h, picked, (there, top)) = newest-Best g gs least in
    let q = λ (x : Version). not (better false x h) in
    let inside = Among-sort_by older (f ∷ fs) h (subst (Among h) (sym again) there) in
    let over : all q pool ≡ true =
      sym (all-sort_by sorts_first q pool)
      ∙ ap (all q) e
      ∙ sym (all-sort_by older q (f ∷ fs))
      ∙ ap (all q) again
      ∙ top in
    rw (named, again, picked)
      (Among-sort_by sorts_first pool h (subst (Among h) (sym e) inside), over)

best-Best :
    (numbered : Bool) (pool : List Version) (f : Version) (fs : List Version)
    → sort_by sorts_first pool ≡ f ∷ fs
    → is_uniform numbered (f ∷ fs) ≡ true
    → Best numbered pool (best (f ∷ fs))
best-Best true pool f fs e ids =
    numbered-Best pool f fs e (and-true_left (is_number f.file_id) _ ids)
best-Best false pool f fs e ids = named-Best pool f fs e (ground arith)

pool-Best :
    (numbered : Bool) (pool : List Version)
    → is_uniform numbered pool ≡ true
    → Best numbered pool (best (sort_by sorts_first pool))
pool-Best numbered [] uniform = refl
pool-Best numbered (k ∷ ks) uniform =
    let (f, fs, e) = sort_by-some sorts_first k ks in
    let ids : is_uniform numbered (f ∷ fs) ≡ true =
      ap (is_uniform numbered) (sym e)
      ∙ all-sort_by sorts_first
          (λ f. if numbered then is_number f.file_id else not (is_number f.file_id)) (k ∷ ks)
      ∙ uniform in
    subst (λ l. Best numbered (k ∷ ks) (best l)) (sym e) (best-Best numbered (k ∷ ks) f fs e ids)

-- What `_pick_file` answers: none when no candidate is compatible, else a compatible candidate
abbrev pub Picked : Bool → List Version → Text → Text → Option Version → Type 0
Picked numbered candidates mc_version loader none =
    all (λ g. not (compatible mc_version loader g)) candidates ≡ true
Picked numbered candidates mc_version loader (some f) =
    Among f candidates
    × (compatible mc_version loader f ≡ true)
    × (all (λ g. not (compatible mc_version loader g) || not (better numbered g f)) candidates
        ≡ true)

Best-Picked :
    (numbered : Bool) (candidates : List Version) (mc_version loader : Text) (o : Option Version)
    → Best numbered (only (compatible mc_version loader) candidates) o
    → Picked numbered candidates mc_version loader o
Best-Picked numbered candidates mc_version loader none e =
    let fits = compatible mc_version loader in
    all-both (λ g. not (fits g) || false) (λ g. not (fits g) || false) (λ g. not (fits g))
      candidates (λ g a b. ground (arith, a))
      (sym (all-only fits (λ g. false) candidates) ∙ ap (all (λ g. false)) e)
      (sym (all-only fits (λ g. false) candidates) ∙ ap (all (λ g. false)) e)
Best-Picked numbered candidates mc_version loader (some f) (there, top) =
    let fits = compatible mc_version loader in
    (
      Among-only fits candidates f there,
      Among-all fits (only fits candidates) f there (
          all-only fits fits candidates
          ∙ all-always (λ g. not (fits g) || fits g) candidates (λ g. ground arith)),
      sym (all-only fits (λ g. not (better numbered g f)) candidates) ∙ top,
    )

all-also :
    (p q : Version → Bool) (fs : List Version)
    → all q fs ≡ true
    → all (λ g. not (p g) || q g) fs ≡ true
all-also p q fs h = all-both q q (λ g. not (p g) || q g) fs (λ g a b. ground (arith, a)) h h

-- `_pick_file` on files that all have numbers for ids, or all texts: it picks a compatible
-- candidate such that no compatible one is of a better rank, or of the same rank with the greater
-- number or, without numbers, the later date; it picks none only when no candidate is compatible.
pub pick_file-Picked :
    (numbered : Bool) (candidates : List Version) (mc_version loader : Text)
    → is_uniform numbered candidates ≡ true
    → Picked numbered candidates mc_version loader (pick_file candidates mc_version loader)
unfolding pick_file
pick_file-Picked numbered candidates mc_version loader uniform =
    let pool = only (compatible mc_version loader) candidates in
    let ids : Version → Bool =
      λ f. if numbered then is_number f.file_id else not (is_number f.file_id) in
    Best-Picked numbered candidates mc_version loader _ (
      pool-Best numbered pool (
        all-only (compatible mc_version loader) ids candidates
        ∙ all-also (compatible mc_version loader) ids candidates uniform))
