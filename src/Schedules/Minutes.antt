-- ===== src/Schedules/Minutes.antt =====
-- The first time of a day that the fields name (app/schedules.py: `next_after`).
use bless_forge.Base.{
  ℕ, ◌+◌, ◌*◌, ◌/◌, ◌%◌, ◌≤◌, ◌<◌, ◌≡◌, refl, sym, ◌∙◌, inl, inr, Bool, true, ◌&&◌, ◌||◌, none,
  some, List, [], ◌∷◌, arith, ltb, leb, ltb→lt, leb→le, Bool-cases, Option-cases, and-true_left,
  and-true_right, or-true_cases, ◌==◌, ==_iff, nat_eq, string_eq, text_eq, ==_refl, ==_distinct,
  contains, all, all-contains,
}
use bless_forge.Schedules.Calendar.{insert_number, sorted_numbers, first_minute, first_time}

abbrev pub ascending : List ℕ → Bool
ascending [] = true
ascending (n ∷ ns) = all (leb n) ns && ascending ns

contains-insert_number :
    (n a : ℕ) (ms : List ℕ) → contains (insert_number n ms) a ≡ (a == n || contains ms a)
contains-insert_number n a [] = refl
contains-insert_number n a (m ∷ ms) =
    let ih = contains-insert_number n a ms in
    elim (Bool-cases (leb n m)) [ inl e ↦ rw e refl | inr e ↦ rw (e, ih) (ground arith) ]

pub contains-sorted_numbers : (ns : List ℕ) (a : ℕ) → contains (sorted_numbers ns) a ≡ contains ns a
contains-sorted_numbers [] a = refl
contains-sorted_numbers (n ∷ ns) a =
    contains-insert_number n a (sorted_numbers ns) ∙ rw (contains-sorted_numbers ns a) refl

pub all-insert_number :
    (p : ℕ → Bool) (n : ℕ) (ms : List ℕ) → all p (insert_number n ms) ≡ (p n && all p ms)
all-insert_number p n [] = refl
all-insert_number p n (m ∷ ms) =
    let ih = all-insert_number p n ms in
    elim (Bool-cases (leb n m)) [ inl e ↦ rw e refl | inr e ↦ rw (e, ih) (ground arith) ]

pub all-sorted_numbers : (p : ℕ → Bool) (ns : List ℕ) → all p (sorted_numbers ns) ≡ all p ns
all-sorted_numbers p [] = refl
all-sorted_numbers p (n ∷ ns) =
    all-insert_number p n (sorted_numbers ns) ∙ rw (all-sorted_numbers p ns) refl

all-leb_trans : (n m : ℕ) (ms : List ℕ) → n ≤ m → all (leb m) ms ≡ true → all (leb n) ms ≡ true
all-leb_trans n m [] le h = refl
all-leb_trans n m (k ∷ ms) le h = let ih = all-leb_trans n m ms le (ground arith) in ground arith

ascending-insert_number :
    (n : ℕ) (ms : List ℕ) → ascending ms ≡ true → ascending (insert_number n ms) ≡ true
ascending-insert_number n [] h = refl
ascending-insert_number n (m ∷ ms) h = elim (Bool-cases (leb n m)) [
  | inl e ↦ let beyond = all-leb_trans n m ms (leb→le n m e) (ground arith) in rw e (ground arith)
  | inr e ↦
      let ih = ascending-insert_number n ms (ground arith) in
      let whole = all-insert_number (leb m) n ms in rw e (ground arith)
]

pub ascending-sorted_numbers : (ns : List ℕ) → ascending (sorted_numbers ns) ≡ true
ascending-sorted_numbers [] = refl
ascending-sorted_numbers (n ∷ ns) =
    ascending-insert_number n (sorted_numbers ns) (ascending-sorted_numbers ns)

-- The hour and the minute of a time are of the lists.
abbrev pub in_times : List ℕ → List ℕ → ℕ → Bool
in_times hours minutes t = contains hours (t / 60) && contains minutes (t % 60)

first_minute-some :
    (from h : ℕ) (ms : List ℕ) {t : ℕ}
    → first_minute from h ms ≡ some t
    → (m : ℕ) × (contains ms m ≡ true) × (t ≡ h * 60 + m) × (from ≤ t)
unfolding first_minute
first_minute-some from h [] e = cc
first_minute-some from h (m ∷ ms) {t} e = elim (Bool-cases (leb from (h * 60 + m))) [
  | inl now ↦
      let k : some (h * 60 + m) ≡ some t = rw now at e in
      let same : h * 60 + m ≡ t = cc in
      let le = leb→le _ _ now in (m, ground (arith, ==_refl m), sym same, omega (arith, same, le))
  | inr later ↦
      let (n, c, eq, le) = first_minute-some from h ms (rw later at e) in (n, ground arith, eq, le)
]

first_minute-least :
    (from h : ℕ) (ms : List ℕ) (m : ℕ) {t : ℕ}
    → ascending ms ≡ true
    → first_minute from h ms ≡ some t
    → contains ms m ≡ true
    → from ≤ h * 60 + m
    → t ≤ h * 60 + m
unfolding first_minute
first_minute-least from h [] m asc e c le = cc
first_minute-least from h (k ∷ ms) m {t} asc e c le = elim (Bool-cases (leb from (h * 60 + k))) [
  | inl now ↦
      let same : h * 60 + k ≡ t = let q : some (h * 60 + k) ≡ some t = rw now at e in cc in
      elim (or-true_cases (m == k) _ c) [
        | inl first ↦ let q = (==_iff m k).0 first in omega (arith, same, q)
        | inr rest ↦
            let beyond =
              leb→le k m (all-contains (leb k) ms m (and-true_left (all (leb k) ms) _ asc) rest) in
            omega (arith, same, beyond)
      ]
  | inr later ↦ elim (or-true_cases (m == k) _ c) [
    | inl first ↦ let q = (==_iff m k).0 first in ground arith
    | inr rest ↦
        first_minute-least from h ms m (and-true_right (all (leb k) ms) _ asc) (rw later at e) rest
          le
  ]
]

first_minute-none :
    (from h : ℕ) (ms : List ℕ) (m : ℕ)
    → first_minute from h ms ≡ none
    → contains ms m ≡ true
    → h * 60 + m < from
unfolding first_minute
first_minute-none from h [] m e c = cc
first_minute-none from h (k ∷ ms) m e c = elim (Bool-cases (leb from (h * 60 + k))) [
  | inl now ↦ let q : some (h * 60 + k) ≡ none = rw now at e in cc
  | inr later ↦ elim (or-true_cases (m == k) _ c) [
    | inl first ↦ let q = (==_iff m k).0 first in ground arith
    | inr rest ↦ first_minute-none from h ms m (rw later at e) rest
  ]
]

-- What `first_time` finds: the least time of the lists that is not before `from`.
pub record IsLeast (hours minutes : List ℕ) (from t : ℕ) : Type 0 where
  pub within : in_times hours minutes t ≡ true
  pub reached : from ≤ t

module _ (ms : List ℕ) (small : all (λ m. ltb m 60) ms ≡ true) (asc : ascending ms ≡ true) where
  pub first_time-some :
      (from : ℕ) (hs : List ℕ) {t : ℕ}
      → first_time from hs ms ≡ some t
      → (in_times hs ms t ≡ true) × (from ≤ t)
  unfolding first_time
  first_time-some from [] e = cc
  first_time-some from (h ∷ hs) {t} e = elim (Option-cases (first_minute from h ms)) [
    | inr (s, now) ↦
        let same : s ≡ t = let q : some s ≡ some t = rw now at e in cc in
        let (m, c, eq, le) = first_minute-some from h ms now in
        let lt = ltb→lt m 60 (all-contains (λ k. ltb k 60) ms m small c) in
        let hour : t / 60 ≡ h = omega (arith, same, eq, lt) in
        let minute : t % 60 ≡ m = omega (arith, same, eq, lt) in
        (rw (hour, minute, c) (ground (arith, ==_refl h)), omega (arith, same, le))
    | inl later ↦ let (c, le) = first_time-some from hs (rw later at e) in (ground arith, le)
  ]

  pub first_time-least :
      (from : ℕ) (hs : List ℕ) (u : ℕ) {t : ℕ}
      → ascending hs ≡ true
      → first_time from hs ms ≡ some t
      → in_times hs ms u ≡ true
      → from ≤ u
      → t ≤ u
  unfolding first_time
  first_time-least from [] u sorted e c le = cc
  first_time-least from (h ∷ hs) u {t} sorted e c le =
      let minute : contains ms (u % 60) ≡ true = and-true_right (contains (h ∷ hs) (u / 60)) _ c in
      let hour : contains (h ∷ hs) (u / 60) ≡ true =
        and-true_left (contains (h ∷ hs) (u / 60)) _ c in
      elim (Option-cases (first_minute from h ms)) [
        | inr (s, now) ↦
            let same : s ≡ t = let q : some s ≡ some t = rw now at e in cc in
            let (m, inside, eq, _) = first_minute-some from h ms now in
            let lt = ltb→lt m 60 (all-contains (λ k. ltb k 60) ms m small inside) in
            elim (or-true_cases ((u / 60) == h) _ hour) [
              | inl first ↦
                  let q = (==_iff (u / 60) h).0 first in
                  let k =
                    first_minute-least from h ms (u % 60) asc now minute (omega (arith, le, q)) in
                  omega (arith, k, q, same)
              | inr rest ↦
                  let q = leb→le h (u / 60) (
                    all-contains (leb h) hs (u / 60) (and-true_left (all (leb h) hs) _ sorted)
                      rest) in
                  elim (Bool-cases ((u / 60) == h)) [
                    | inl first ↦
                        let r = (==_iff (u / 60) h).0 first in
                        let k =
                          first_minute-least from h ms (u % 60) asc now minute
                            (omega (arith, le, r)) in
                        omega (arith, k, r, same)
                    | inr differ ↦
                        let r = ==_distinct (u / 60) h differ in omega (arith, q, r, same, eq, lt)
                  ]
            ]
        | inl later ↦ elim (or-true_cases ((u / 60) == h) _ hour) [
          | inl first ↦
              let q = (==_iff (u / 60) h).0 first in
              let k = first_minute-none from h ms (u % 60) later minute in
              absurd (omega (arith, k, q, le))
          | inr rest ↦
              first_time-least from hs u (and-true_right (all (leb h) hs) _ sorted) (rw later at e)
                (rw (rest, minute) refl) le
        ]
      ]

  pub first_time-none :
      (from : ℕ) (hs : List ℕ) (u : ℕ)
      → first_time from hs ms ≡ none
      → in_times hs ms u ≡ true
      → u < from
  unfolding first_time
  first_time-none from [] u e c = cc
  first_time-none from (h ∷ hs) u e c =
      let minute : contains ms (u % 60) ≡ true = and-true_right (contains (h ∷ hs) (u / 60)) _ c in
      let hour : contains (h ∷ hs) (u / 60) ≡ true =
        and-true_left (contains (h ∷ hs) (u / 60)) _ c in
      elim (Option-cases (first_minute from h ms)) [
        | inr (s, now) ↦ let q : some s ≡ none = rw now at e in cc
        | inl later ↦ elim (or-true_cases ((u / 60) == h) _ hour) [
          | inl first ↦
              let q = (==_iff (u / 60) h).0 first in
              let k = first_minute-none from h ms (u % 60) later minute in omega (arith, k, q)
          | inr rest ↦ first_time-none from hs u (rw later at e) (rw (rest, minute) refl)
        ]
      ]
