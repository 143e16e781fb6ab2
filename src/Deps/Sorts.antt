-- ===== src/Deps/Sorts.antt =====
-- The sorts of `_pick_file` (app/deps.py) and the orders that they sort by.
use mathlib.Core.Path.{subst}
use bless_forge.Base.{
  ◌≡◌, refl, sym, ap, ◌∙◌, ◌⊎◌, inl, inr, Bool, true, false, not, ◌&&◌, ◌||◌, List, [], ◌∷◌, arith,
  Bool-cases, and-true_left, and-true_right, nat_eq, string_eq, Text, text_eq, all,
}
use bless_forge.Deps.Model.{Version}
use bless_forge.Deps.Pick.{text_ltb, sorts_first, older, newer, insert, sort_by, only}

abbrev pub Among : Version → List Version → Type 0
Among a [] = ⊥
Among a (x ∷ xs) = (a ≡ x) ⊎ Among a xs

pub Among-all :
    (p : Version → Bool) (xs : List Version) (a : Version)
    → Among a xs
    → all p xs ≡ true
    → p a ≡ true
Among-all p [] a m h = absurd m
Among-all p (x ∷ xs) a (inl same) h = ap p same ∙ and-true_left (p x) _ h
Among-all p (x ∷ xs) a (inr there) h = Among-all p xs a there (and-true_right (p x) _ h)

pub Among-only :
    (p : Version → Bool) (xs : List Version) (f : Version) → Among f (only p xs) → Among f xs
Among-only p [] f m = m
Among-only p (x ∷ xs) f m = elim (Bool-cases (p x)) [
  | inl e ↦ elim (rw e at m) as (λ _. Among f (x ∷ xs)) [
    | inl same ↦ inl same
    | inr there ↦ inr (Among-only p xs f there)
  ]
  | inr e ↦ inr (Among-only p xs f (rw e at m))
]

pub all-only :
    (p q : Version → Bool) (xs : List Version) → all q (only p xs) ≡ all (λ x. not (p x) || q x) xs
all-only p q [] = refl
all-only p q (x ∷ xs) =
    let ih = all-only p q xs in
    elim (Bool-cases (p x)) [ inl e ↦ rw (e, ih) refl | inr e ↦ rw (e, ih) refl ]

module _ (less : Version → Version → Bool) where
  Among-insert :
      (f : Version) (gs : List Version) (x : Version)
      → Among x (insert less f gs)
      → (x ≡ f) ⊎ Among x gs
  Among-insert f [] x m = m
  Among-insert f (g ∷ gs) x m = elim (Bool-cases (less g f)) [
    | inr e ↦ rw e at m
    | inl e ↦ elim (rw e at m) as (λ _. (x ≡ f) ⊎ Among x (g ∷ gs)) [
      | inl same ↦ inr (inl same)
      | inr there ↦ elim (Among-insert f gs x there) [
        | inl same ↦ inl same
        | inr deeper ↦ inr (inr deeper)
      ]
    ]
  ]

  pub Among-sort_by : (xs : List Version) (x : Version) → Among x (sort_by less xs) → Among x xs
  Among-sort_by [] x m = m
  Among-sort_by (f ∷ fs) x m = elim (Among-insert f (sort_by less fs) x m) [
    | inl same ↦ inl same
    | inr there ↦ inr (Among-sort_by fs x there)
  ]

  insert-some :
      (f : Version) (gs : List Version)
      → (h : Version) × (t : List Version) × (insert less f gs ≡ h ∷ t)
  insert-some f [] = (f, [], refl)
  insert-some f (g ∷ gs) = elim (Bool-cases (less g f)) [
    | inl e ↦ (g, insert less f gs, rw e refl)
    | inr e ↦ (f, g ∷ gs, rw e refl)
  ]

  pub sort_by-some :
      (f : Version) (fs : List Version)
      → (h : Version) × (t : List Version) × (sort_by less (f ∷ fs) ≡ h ∷ t)
  sort_by-some f fs = insert-some f (sort_by less fs)

  all-insert :
      (p : Version → Bool) (f : Version) (gs : List Version)
      → all p (insert less f gs) ≡ (p f && all p gs)
  all-insert p f [] = refl
  all-insert p f (g ∷ gs) =
      let ih = all-insert p f gs in
      elim (Bool-cases (less g f)) [ inl e ↦ rw (e, ih) (ground arith) | inr e ↦ rw e refl ]

  pub all-sort_by : (p : Version → Bool) (xs : List Version) → all p (sort_by less xs) ≡ all p xs
  all-sort_by p [] = refl
  all-sort_by p (f ∷ fs) = all-insert p f (sort_by less fs) ∙ rw (all-sort_by p fs) refl

-- What a sort needs of its order
pub record IsOrder (less : Version → Version → Bool) : Type 0 where
  pub irreflexive : (f : Version) → less f f ≡ false
  pub asymmetric : (f g : Version) → less f g ≡ true → less g f ≡ false
  pub transitive : (f g h : Version) → less g f ≡ false → less h g ≡ false → less h f ≡ false

module _ (less : Version → Version → Bool) (order : IsOrder less) where
  head-least :
      (f g : Version) (fs : List Version)
      → less g f ≡ false
      → all (λ x. not (less x g)) fs ≡ true
      → all (λ x. not (less x f)) fs ≡ true
  head-least f g [] e h = refl
  head-least f g (x ∷ fs) e h =
      let ih = head-least f g fs e (ground (arith, h)) in
      let here = order.transitive f g x e (ground (arith, h)) in rw (here, ih) refl

  -- The first of a sorted list: nothing is before it
  pub sort_by-least :
      (fs : List Version) {h : Version} {t : List Version}
      → sort_by less fs ≡ h ∷ t
      → all (λ g. not (less g h)) fs ≡ true
  sort_by-least [] e = refl
  sort_by-least (f ∷ []) {h} e =
      let same : f ≡ h = cc in
      subst (λ v. all (λ x. not (less x v)) (f ∷ []) ≡ true) same (rw (order.irreflexive f) refl)
  sort_by-least (f ∷ k ∷ fs) {h} {t} e =
      let (g, gs, tail) = sort_by-some less k fs in
      let ih = sort_by-least (k ∷ fs) tail in
      let whole : insert less f (g ∷ gs) ≡ h ∷ t = ap (insert less f) (sym tail) ∙ e in
      elim (Bool-cases (less g f)) [
        | inl later ↦
            let same : g ≡ h = let q : g ∷ insert less f gs ≡ h ∷ t = rw later at whole in cc in
            subst (λ v. all (λ x. not (less x v)) (f ∷ k ∷ fs) ≡ true) same
              (rw (order.asymmetric g f later) ih)
        | inr now ↦
            let same : f ≡ h = let q : f ∷ g ∷ gs ≡ h ∷ t = rw now at whole in cc in
            subst (λ v. all (λ x. not (less x v)) (f ∷ k ∷ fs) ≡ true) same
              (rw (order.irreflexive f) (head-least f g (k ∷ fs) now ih))
      ]

text_ltb_self : (s : Text) → text_ltb s s ≡ false
text_ltb_self [] = refl
text_ltb_self (c ∷ s) = let ih = text_ltb_self s in ground arith

text_ltb_flip : (s t : Text) → text_ltb s t ≡ true → text_ltb t s ≡ false
text_ltb_flip [] [] h = refl
text_ltb_flip [] (d ∷ t) h = refl
text_ltb_flip (c ∷ s) [] h = cc
text_ltb_flip (c ∷ s) (d ∷ t) h = let ih = text_ltb_flip s t in ground arith

text_ltb_trans : (s t u : Text) → text_ltb t s ≡ false → text_ltb u t ≡ false → text_ltb u s ≡ false
text_ltb_trans [] t u h k = refl
text_ltb_trans (c ∷ s) [] u h k = cc
text_ltb_trans (c ∷ s) (d ∷ t) [] h k = cc
text_ltb_trans (c ∷ s) (d ∷ t) (e ∷ u) h k = let ih = text_ltb_trans s t u in ground arith

pub sorts_first-IsOrder : IsOrder sorts_first
sorts_first-IsOrder = record {
  irreflexive = λ f. let s = text_ltb_self f.date in ground arith;
  asymmetric = λ f g h. let s = text_ltb_flip f.date g.date in ground arith;
  transitive = λ f g h a b. let s = text_ltb_trans f.date g.date h.date in ground arith;
}

pub older-IsOrder : IsOrder older
older-IsOrder = record {
  irreflexive = λ f. let s = text_ltb_self f.date in ground arith;
  asymmetric = λ f g h. let s = text_ltb_flip f.date g.date in ground arith;
  transitive = λ f g h a b. let s = text_ltb_trans f.date g.date h.date in ground arith;
}

pub newer-IsOrder : IsOrder newer
newer-IsOrder = record {
  irreflexive = λ f. text_ltb_self f.date;
  asymmetric = λ f g h. text_ltb_flip g.date f.date h;
  transitive = λ f g h a b. text_ltb_trans h.date g.date f.date b a;
}
