-- ===== src/Files/Texts.antt =====
-- Which characters survive the stripping and splitting of a path.
use bless_forge.Base.{
  ℕ, ◌≡◌, refl, inl, inr, true, false, ◌&&◌, List, [], ◌∷◌, ◌++◌, arith, eqb, Bool-cases, nat_eq,
  string_eq, Text, text_eq, ==_refl, contains, is_empty, All,
}
use bless_forge.Base.Strings.{is_space, lstrip, rstrip_space, strip, split_on, onto_first}

lstrip-without : (c : ℕ) (s : Text) → contains s c ≡ false → contains (lstrip s) c ≡ false
unfolding lstrip
lstrip-without c [] h = refl
lstrip-without c (d ∷ s) h = elim (Bool-cases (is_space d)) [
  | inl e ↦ rw e (lstrip-without c s (ground arith))
  | inr e ↦ rw e h
]

rstrip_space-without :
    (c : ℕ) (s : Text) → contains s c ≡ false → contains (rstrip_space s) c ≡ false
unfolding rstrip_space
rstrip_space-without c [] h = refl
rstrip_space-without c (d ∷ s) h =
    let ih = rstrip_space-without c s (ground arith) in
    elim (Bool-cases (is_space d && is_empty (rstrip_space s))) [
      | inl e ↦ rw e refl
      | inr e ↦ rw e (ground arith)
    ]

pub strip-without : (c : ℕ) (s : Text) → contains s c ≡ false → contains (strip s) c ≡ false
unfolding strip
strip-without c s h = rstrip_space-without c (lstrip s) (lstrip-without c s h)

-- A test of characters, lifted to lists of parts.
abbrev pub Without : ℕ → List Text → Type 0
Without c = All (λ p. contains p c ≡ false)

onto_first-Without :
    (c d : ℕ) (ws : List Text) → eqb c d ≡ false → Without c ws → Without c (onto_first d ws)
onto_first-Without c d [] e h = (ground arith, tt)
onto_first-Without c d (w ∷ ws) e h = (ground arith, h.1)

pub split_on-Without : (sep c : ℕ) (s : Text) → contains s c ≡ false → Without c (split_on sep s)
unfolding split_on
split_on-Without sep c [] h = (refl, tt)
split_on-Without sep c (d ∷ s) h =
    let ih = split_on-Without sep c s (ground arith) in
    elim (Bool-cases (eqb d sep)) [
      | inl e ↦ rw e (refl, ih)
      | inr e ↦ rw e (onto_first-Without c d (split_on sep s) (ground arith) ih)
    ]

pub split_on-Without_self : (sep : ℕ) (s : Text) → Without sep (split_on sep s)
unfolding split_on
split_on-Without_self sep [] = (refl, tt)
split_on-Without_self sep (d ∷ s) = elim (Bool-cases (eqb d sep)) [
  | inl e ↦ rw e (refl, split_on-Without_self sep s)
  | inr e ↦
      rw e (onto_first-Without sep d (split_on sep s) (ground arith) (split_on-Without_self sep s))
]

-- The first part of a joined list is its first element.
pub split_on-last : (sep : ℕ) (p : Text) → contains p sep ≡ false → split_on sep p ≡ p ∷ []
unfolding split_on
split_on-last sep [] h = refl
split_on-last sep (d ∷ p) h =
    let e : eqb d sep ≡ false = ground arith in rw (e, split_on-last sep p (ground arith)) refl

pub split_on-append :
    (sep : ℕ) (p rest : Text)
    → contains p sep ≡ false
    → split_on sep (p ++ (sep ∷ rest)) ≡ p ∷ split_on sep rest
unfolding split_on
split_on-append sep [] rest h = let e : eqb sep sep ≡ true = ==_refl sep in rw e refl
split_on-append sep (d ∷ p) rest h =
    let e : eqb d sep ≡ false = ground arith in
    rw (e, split_on-append sep p rest (ground arith)) refl
