-- ===== src/Schedules/OnTime.antt =====
-- The warnings that `preset` makes of those asked for (app/schedules.py).
use bless_forge.Base.{
  ℕ, ◌≤◌, ◌≡◌, refl, inl, inr, Bool, true, ◌&&◌, ◌||◌, List, [], ◌∷◌, arith, ltb, leb, eqb, eqb_iff,
  leb→le, Bool-cases, and-true_left, and-true_right, nat_eq, string_eq, text_eq, contains, all,
}
use bless_forge.Schedules.Presets.{insert_down, warnings_of, lead_of}

-- Every number is greater than those after it, and none is above a bound
abbrev pub descends : ℕ → List ℕ → Bool
descends bound [] = true
descends bound (w ∷ ws) = leb w bound && all (λ v. ltb v w) ws && descends bound ws

all-insert_down :
    (p : ℕ → Bool) (n : ℕ) (ms : List ℕ)
    → p n ≡ true
    → all p ms ≡ true
    → all p (insert_down n ms) ≡ true
all-insert_down p n [] h k = rw h refl
all-insert_down p n (m ∷ ms) h k =
    let ih = all-insert_down p n ms h (and-true_right (p m) _ k) in
    let here = and-true_left (p m) _ k in
    elim (Bool-cases (eqb n m)) [
      | inl e ↦ rw e k
      | inr e ↦ elim (Bool-cases (ltb m n)) [ inl f ↦ rw (e, f, h) k | inr f ↦ rw (e, f, here) ih ]
    ]

below-all :
    (m n : ℕ) (ms : List ℕ) → m ≤ n → all (λ v. ltb v m) ms ≡ true → all (λ v. ltb v n) ms ≡ true
below-all m n [] le h = refl
below-all m n (k ∷ ms) le h = let ih = below-all m n ms le in ground arith

descends-insert_down :
    (bound n : ℕ) (ms : List ℕ)
    → n ≤ bound
    → descends bound ms ≡ true
    → descends bound (insert_down n ms) ≡ true
descends-insert_down bound n [] le h = ground arith
descends-insert_down bound n (m ∷ ms) le h =
    let ih = descends-insert_down bound n ms le in
    elim (Bool-cases (eqb n m)) [
      | inl e ↦ rw e h
      | inr e ↦ elim (Bool-cases (ltb m n)) [
        | inl f ↦ let rest = below-all m n ms in rw (e, f) (ground (arith, le, h, rest, f))
        | inr f ↦
            let under = all-insert_down (λ v. ltb v m) n ms (ground (arith, e, f)) in
            rw (e, f) (ground (arith, h, ih, under))
      ]
    ]

pub warnings_of-descends : (ws : List ℕ) → descends 120 (warnings_of ws) ≡ true
warnings_of-descends [] = refl
warnings_of-descends (w ∷ ws) =
    let ih = warnings_of-descends ws in
    elim (Bool-cases (ltb 0 w && leb w 120)) [
      | inl e ↦ rw e (descends-insert_down 120 w (warnings_of ws) (ground (arith, e)) ih)
      | inr e ↦ rw e ih
    ]

pub descends-lower :
    (bound w : ℕ) (ws : List ℕ)
    → all (λ v. ltb v w) ws ≡ true
    → descends bound ws ≡ true
    → descends w ws ≡ true
descends-lower bound w [] h k = refl
descends-lower bound w (v ∷ ws) h k = let ih = descends-lower bound w ws in ground (arith, h, k, ih)

pub lead-descends : (ws : List ℕ) → descends 120 ws ≡ true → descends (lead_of ws) ws ≡ true
lead-descends [] h = refl
lead-descends (w ∷ ws) h = let lower = descends-lower 120 w ws in ground (arith, h, lower)

pub lead_of-le : (ws : List ℕ) → descends 120 ws ≡ true → lead_of ws ≤ 120
lead_of-le [] h = omega arith
lead_of-le (w ∷ ws) h = leb→le w 120 (ground (arith, h))

contains-insert_down :
    (n : ℕ) (ms : List ℕ) (a : ℕ) → contains (insert_down n ms) a ≡ (eqb a n || contains ms a)
contains-insert_down n [] a = refl
contains-insert_down n (m ∷ ms) a =
    let ih = contains-insert_down n ms a in
    elim (Bool-cases (eqb n m)) [
      | inl e ↦ let same : n ≡ m = (eqb_iff n m).0 e in rw e (rw same (ground arith))
      | inr e ↦ elim (Bool-cases (ltb m n)) [
        | inl f ↦ rw (e, f) refl
        | inr f ↦ rw (e, f, ih) (ground arith)
      ]
    ]

-- The warnings are those asked for that are between one minute and two hours
pub contains-warnings_of :
    (ws : List ℕ) (a : ℕ) → contains (warnings_of ws) a ≡ (contains ws a && (ltb 0 a && leb a 120))
contains-warnings_of [] a = refl
contains-warnings_of (w ∷ ws) a =
    let ih = contains-warnings_of ws a in
    let kept = contains-insert_down w (warnings_of ws) a in
    elim (Bool-cases (eqb a w)) [
      | inl same ↦
          let e = (eqb_iff a w).0 same in
          elim (Bool-cases (ltb 0 a && leb a 120)) [
            | inl fits ↦ rw (← e, fits) (ground (arith, kept, ih, same, fits, e))
            | inr off ↦ rw (← e, off) (ground (arith, ih, same, off))
          ]
      | inr other ↦ elim (Bool-cases (ltb 0 w && leb w 120)) [
        | inl fits ↦ rw (fits, kept, other) ih
        | inr off ↦ rw (off, other) ih
      ]
    ]
