-- ===== src/Base/Equality.antt =====
-- Python's `==` and `in`, for numbers, constant texts and lists.
use Prim.Native.Nat.{ℕ}
use Prim.Native.String.{String}
use mathlib.Core.Logic.{◌≢◌}
use mathlib.Core.Path.{◌≡◌, refl}
use mathlib.Core.Logic.{◌↔◌, ◌⊎◌, inl, inr}
use mathlib.Core.Bool.{Bool, true, false, not, ◌&&◌, ◌||◌}
use mathlib.Core.List.{List, [], ◌∷◌, ◌++◌}
use native.Mathlib.Omega.{arith}
use text.Mathlib.Text.{◌==◌ as str_eq}
use text.Mathlib.TextEquality.{eq_iff}
use bless_forge.Base.Tests.{eqb, eqb_iff, Bool-cases, if◌then◌else◌}

pub record Eq {ℓ} (A : Type ℓ) : Type ℓ where
  pub test : A → A → Bool
  pub tells : (x y : A) → (test x y ≡ true) ↔ (x ≡ y)

-- `a == b`
infix 50 ◌==◌
abbrev pub ◌==◌ {ℓ} : {A : Type ℓ} ⦃e : Eq A⦄ → A → A → Bool
◌==◌ ⦃e⦄ = e.test

pub ==_iff {ℓ} : {A : Type ℓ} ⦃e : Eq A⦄ (a b : A) → ((a == b) ≡ true) ↔ (a ≡ b)
==_iff ⦃e⦄ a b = e.tells a b

instance abbrev pub nat_eq : Eq ℕ
nat_eq = record { test = eqb; tells = eqb_iff }

instance abbrev pub string_eq : Eq String
string_eq = record { test = str_eq; tells = eq_iff }

-- Texts that the program walks are lists of code points.
abbrev pub Text : Type 0
Text = List ℕ

abbrev pub text_beq : Text → Text → Bool
text_beq [] [] = true
text_beq [] (y ∷ ys) = false
text_beq (x ∷ xs) [] = false
text_beq (x ∷ xs) (y ∷ ys) = eqb x y && text_beq xs ys

pub text_beq_iff : (s t : Text) → (text_beq s t ≡ true) ↔ (s ≡ t)
text_beq_iff [] [] = (λ _. refl, λ _. refl)
text_beq_iff [] (y ∷ ys) = (λ h. cc, λ h. cc)
text_beq_iff (x ∷ xs) [] = (λ h. cc, λ h. cc)
text_beq_iff (x ∷ xs) (y ∷ ys) =
    let ih = text_beq_iff xs ys in (λ h. ground arith, λ h. ground arith)

instance abbrev pub text_eq : Eq Text
text_eq = record { test = text_beq; tells = text_beq_iff }

module _ {ℓ} {A : Type ℓ} ⦃e : Eq A⦄ where
  pub ==_refl : (a : A) → (a == a) ≡ true
  ==_refl a = (e.tells a a).1 refl

  pub ==_distinct : (a b : A) → (a == b) ≡ false → a ≢ b
  ==_distinct a b h same = let k : (a == b) ≡ true = (e.tells a b).1 same in cc

  -- `a in xs`
  abbrev pub contains : List A → A → Bool
  contains [] a = false
  contains (x ∷ xs) a = a == x || contains xs a

  -- `[x for x in xs if x in ys]`
  abbrev pub keep_in : List A → List A → List A
  keep_in ys [] = []
  keep_in ys (x ∷ xs) = let rest = keep_in ys xs in if contains ys x then x ∷ rest else rest

  -- `[x for x in xs if x not in ys]`
  abbrev pub keep_out : List A → List A → List A
  keep_out ys [] = []
  keep_out ys (x ∷ xs) = let rest = keep_out ys xs in if contains ys x then rest else x ∷ rest

  pub contains-append :
      (xs ys : List A) (a : A) → contains (xs ++ ys) a ≡ (contains xs a || contains ys a)
  contains-append [] ys a = refl
  contains-append (x ∷ xs) ys a = ground (arith, contains-append xs ys a)

  pub contains-keep_in :
      (ys xs : List A) (a : A) → contains (keep_in ys xs) a ≡ (contains xs a && contains ys a)
  contains-keep_in ys [] a = refl
  contains-keep_in ys (x ∷ xs) a = ground (arith, contains-keep_in ys xs a, e.tells a x)

  pub contains-keep_out :
      (ys xs : List A) (a : A)
      → contains (keep_out ys xs) a ≡ (contains xs a && not (contains ys a))
  contains-keep_out ys [] a = refl
  contains-keep_out ys (x ∷ xs) a = ground (arith, contains-keep_out ys xs a, e.tells a x)

  -- `if x not in xs: xs.append(x)`
  abbrev pub add_once : List A → A → List A
  add_once xs x = if contains xs x then xs else xs ++ (x ∷ [])

  pub contains-add_once :
      (xs : List A) (x a : A) → contains (add_once xs x) a ≡ true → (contains xs a ≡ true) ⊎ (a ≡ x)
  contains-add_once xs x a h = elim (Bool-cases (contains xs x)) [
    | inl old ↦ inl (rw old at h)
    | inr new ↦ ground (arith, contains-append xs (x ∷ []) a, e.tells a x)
  ]
