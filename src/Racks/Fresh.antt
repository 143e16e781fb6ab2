-- ===== src/Racks/Fresh.antt =====
-- The ids that `_unique_id` finds (app/fleetgroups.py).
use bless_forge.Base.{
  ℕ, zero, suc, ◌≤◌, ◌<◌, ◌≡◌, refl, ap, ◌∙◌, inl, inr, true, false, List, [], ◌∷◌, arith,
  Bool-cases, ◌==◌, ==_iff, nat_eq, string_eq, Text, text_eq, contains, keep_out, contains-keep_out,
  length, drop,
}
use mathlib.Core.List.{append_cancel_left}
use bless_forge.Racks.Model.{Printing, dash, numbered, next_free, unique_id}

length-keep_out : (c : Text) (xs : List Text) → length (keep_out (c ∷ []) xs) ≤ length xs
length-keep_out c [] = omega arith
length-keep_out c (x ∷ xs) =
    let ih = length-keep_out c xs in
    elim (Bool-cases (contains (c ∷ []) x)) [
      | inl e ↦ rw e (omega (arith, ih))
      | inr e ↦ rw e (omega (arith, ih))
    ]

length-keep_out_lt :
    (c : Text) (xs : List Text) → contains xs c ≡ true → length (keep_out (c ∷ []) xs) < length xs
length-keep_out_lt c [] h = cc
length-keep_out_lt c (x ∷ xs) h =
    let le = length-keep_out c xs in
    elim (Bool-cases (contains (c ∷ []) x)) [
      | inl e ↦ rw e (omega (arith, le))
      | inr e ↦
          let there : contains xs c ≡ true = ground (arith, ==_iff c x, ==_iff x c) in
          rw e (omega (arith, length-keep_out_lt c xs there))
    ]

module _ (printing : Printing) (injective : (a b : ℕ) → printing.show a ≡ printing.show b → a ≡ b)
    (want : Text) where
  numbered-injective : (a b : ℕ) → numbered printing want a ≡ numbered printing want b → a ≡ b
  numbered-injective a b h =
      let k : dash ∷ printing.show a ≡ dash ∷ printing.show b = append_cancel_left want _ _ h in
      injective a b (ap (drop 1) k)

  -- The candidates are all different, so one more of them than there are ids taken is enough.
  next_free-fresh :
      (stamp : ℕ) (taken pool : List Text) (count n : ℕ)
      → ((m : ℕ)
          → n ≤ m
          → contains taken (numbered printing want m) ≡ true
          → contains pool (numbered printing want m) ≡ true)
      → length pool < count
      → contains taken (next_free printing want taken stamp count n) ≡ false
  unfolding next_free
  next_free-fresh stamp taken pool zero n within h = ground (arith, h)
  next_free-fresh stamp taken pool (suc count) n within h =
      let c = numbered printing want n in
      elim (Bool-cases (contains taken c)) [
        | inr free ↦ rw free free
        | inl used ↦
            let there : contains pool c ≡ true = within n (omega arith) used in
            let less = length-keep_out_lt c pool there in
            rw used (
              next_free-fresh stamp taken (keep_out (c ∷ []) pool) count (suc n)
                (λ m le m_used.
                  let other = numbered printing want m in
                  let inside : contains pool other ≡ true = within m (omega (arith, le)) m_used in
                  let differ : (other == c) ≡ false = elim (Bool-cases (other == c)) [
                    | inl e ↦
                        let same : m ≡ n = numbered-injective m n ((==_iff other c).0 e) in
                        ground (arith, same, le)
                    | inr e ↦ e
                  ] in
                  contains-keep_out (c ∷ []) pool other ∙ rw (inside, differ) refl)
                (omega (arith, less, h)))
      ]

  -- With fewer than 198 ids taken, the id is none of them: the last resort, the time of day, is not
  -- needed.
  pub unique_id-fresh :
      (stamp : ℕ) (taken : List Text)
      → length taken < 198
      → contains taken (unique_id printing stamp want taken) ≡ false
  unfolding unique_id
  unique_id-fresh stamp taken h = elim (Bool-cases (contains taken want)) [
    | inr free ↦ rw free free
    | inl used ↦ rw used (next_free-fresh stamp taken taken 198 2 (λ m le k. k) h)
  ]
