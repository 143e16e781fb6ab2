-- ===== src/Racks/Seen.antt =====
-- What the activity says of one server (app/fleetgroups.py: `observe`).
use bless_forge.Base.{
  ℕ, ◌≡◌, refl, sym, ap, ◌∙◌, inl, inr, Bool, false, not, ◌&&◌, ◌||◌, Option, none, some, List, [],
  ◌∷◌, ◌++◌, arith, if◌then◌else◌, Bool-cases, ◌==◌, ==_iff, nat_eq, string_eq, Text, text_eq,
  ==_distinct, contains, is_empty, get,
}
use bless_forge.Base.Strings.{strip}
use bless_forge.Racks.Model.{Activity}
use bless_forge.Racks.Observe.{
  Poll, Watch, polled_again, put_record, watch_poll, watch_all, only_seen, Look,
}

-- What the calls say of one server: that it was polled, with its name and whether it runs, or that
-- a full sweep did not see it
pub data Sighting : Type 0 where
  polled : ℕ → Text → Bool → Sighting
  gone : Sighting

abbrev pub poll_events : Text → ℕ → List (Option Poll) → List Sighting
poll_events sid now [] = []
poll_events sid now (none ∷ raws) = poll_events sid now raws
poll_events sid now (some raw ∷ raws) =
    let rest = poll_events sid now raws in
    if not (is_empty sid) && (sid == strip raw.server_id)
    then polled now raw.name raw.running ∷ rest
    else rest

abbrev pub sees : Option Poll → Bool
sees none = false
sees (some raw) = not (is_empty (strip raw.server_id))

abbrev pub some_seen : List (Option Poll) → Bool
some_seen [] = false
some_seen (raw ∷ raws) = sees raw || some_seen raws

-- The events of one call
abbrev pub look_events : Text → Look → List Sighting
look_events sid look =
    let polls = poll_events sid look.now look.items in
    if look.full && (some_seen look.items && is_empty polls) then gone ∷ [] else polls

abbrev pub history : Text → List Look → List Sighting
history sid [] = []
history sid (look ∷ looks) = look_events sid look ++ history sid looks

-- The server's record after its events
abbrev pub follow_event : Sighting → Option Activity → Option Activity
follow_event (polled now name running) before = some (polled_again now name running before)
follow_event gone before = none

abbrev pub follow : List Sighting → Option Activity → Option Activity
follow [] rec = rec
follow (e ∷ es) rec = follow es (follow_event e rec)

==_flip : (a b : Text) → (a == b) ≡ false → (b == a) ≡ false
==_flip a b e = elim (Bool-cases (b == a)) [
  | inr differ ↦ differ
  | inl same ↦ absurd (==_distinct a b e (sym ((==_iff b a).0 same)))
]

get-put_record :
    (sid other : Text) (rec : Activity) (activity : List (Text × Activity))
    → get (put_record sid rec activity) other
      ≡ (if other == sid then some rec else get activity other)
unfolding put_record
get-put_record sid other rec [] = refl
get-put_record sid other rec ((s, r) ∷ rest) =
    let ih = get-put_record sid other rec rest in
    elim (Bool-cases (sid == s)) [
      | inl e ↦
          let same : (other == sid) ≡ (other == s) = ap (◌==◌ other) ((==_iff sid s).0 e) in
          elim (Bool-cases (other == s)) [
            | inl at ↦ rw (e, same, at) refl
            | inr off ↦ rw (e, same, off) refl
          ]
      | inr e ↦ elim (Bool-cases (other == s)) [
        | inl at ↦
            let apart : (other == sid) ≡ false =
              ap (λ o. o == sid) ((==_iff other s).0 at) ∙ ==_flip sid s e in
            rw (e, apart, at) refl
        | inr off ↦ rw (e, off) ih
      ]
    ]

pub get-only_seen :
    (seen : List Text) (sid : Text) (activity : List (Text × Activity))
    → get (only_seen seen activity) sid ≡ (if contains seen sid then get activity sid else none)
unfolding only_seen
get-only_seen seen sid [] = elim (Bool-cases (contains seen sid)) [
  | inl e ↦ rw e refl
  | inr e ↦ rw e refl
]
get-only_seen seen sid ((s, r) ∷ rest) =
    let ih = get-only_seen seen sid rest in
    elim (Bool-cases (sid == s)) [
      | inl e ↦
          let same : contains seen sid ≡ contains seen s =
            ap (contains seen) ((==_iff sid s).0 e) in
          elim (Bool-cases (contains seen s)) [
            | inl kept ↦ rw (same, kept, e) refl
            | inr off ↦ rw (same, off) (ih ∙ rw (same, off) refl)
          ]
      | inr e ↦ elim (Bool-cases (contains seen s)) [
        | inl kept ↦ rw (kept, e) ih
        | inr off ↦ rw (off, e) ih
      ]
    ]

-- Whether a poll is about the server, from either name
is_about :
    (sid named : Text)
    → (not (is_empty sid) && (sid == named)) ≡ (not (is_empty named) && (sid == named))
is_about sid named = elim (Bool-cases (sid == named)) [
  | inl e ↦ rw (ap is_empty ((==_iff sid named).0 e)) refl
  | inr e ↦ rw e (ground arith)
]

-- The loop over the items: the server's record follows its polls, and it is seen if it has one
poll-follow :
    (sid : Text) (now : ℕ) (raw : Option Poll) (w : Watch)
    → get (watch_poll now raw w).activity sid
      ≡ follow (poll_events sid now (raw ∷ [])) (get w.activity sid)
unfolding watch_poll
poll-follow sid now none w = refl
poll-follow sid now (some raw) w =
    let named = strip raw.server_id in
    let before = get w.activity named in
    elim (Bool-cases (is_empty named)) [
      | inl blank ↦ rw (is_about sid named, blank) refl
      | inr full ↦ elim (Bool-cases (sid == named)) [
        | inl same ↦
            let at : get w.activity sid ≡ before =
              ap (get w.activity) ((==_iff sid named).0 same) in
            let put =
              get-put_record named sid (polled_again now raw.name raw.running before) w.activity in
            rw (is_about sid named, full, same, at) (put ∙ rw same refl)
        | inr other ↦
            let put =
              get-put_record named sid (polled_again now raw.name raw.running before) w.activity in
            rw (is_about sid named, full, other) (put ∙ rw other refl)
      ]
    ]

poll-seen :
    (sid : Text) (now : ℕ) (raw : Option Poll) (w : Watch)
    → contains (watch_poll now raw w).seen sid
      ≡ (contains w.seen sid || not (is_empty (poll_events sid now (raw ∷ []))))
unfolding watch_poll
poll-seen sid now none w = ground arith
poll-seen sid now (some raw) w =
    let named = strip raw.server_id in
    elim (Bool-cases (is_empty named)) [
      | inl blank ↦ rw (is_about sid named, blank) (ground arith)
      | inr full ↦ elim (Bool-cases (sid == named)) [
        | inl same ↦ rw (is_about sid named, full, same) (ground arith)
        | inr other ↦ rw (is_about sid named, full, other) (ground arith)
      ]
    ]

poll-sees :
    (now : ℕ) (raw : Option Poll) (w : Watch)
    → not (is_empty (watch_poll now raw w).seen) ≡ (not (is_empty w.seen) || sees raw)
unfolding watch_poll
poll-sees now none w = ground arith
poll-sees now (some raw) w = elim (Bool-cases (is_empty (strip raw.server_id))) [
  | inl blank ↦ rw blank (ground arith)
  | inr full ↦ rw full (ground arith)
]

poll_events-cons :
    (sid : Text) (now : ℕ) (raw : Option Poll) (raws : List (Option Poll))
    → poll_events sid now (raw ∷ raws) ≡ poll_events sid now (raw ∷ []) ++ poll_events sid now raws
poll_events-cons sid now none raws = refl
poll_events-cons sid now (some raw) raws =
    elim (Bool-cases (not (is_empty sid) && (sid == strip raw.server_id))) [
      | inl e ↦ rw e refl
      | inr e ↦ rw e refl
    ]

pub follow-append :
    (front back : List Sighting) (rec : Option Activity)
    → follow (front ++ back) rec ≡ follow back (follow front rec)
follow-append [] back rec = refl
follow-append (e ∷ front) back rec = follow-append front back (follow_event e rec)

pub polls-follow :
    (sid : Text) (now : ℕ) (raws : List (Option Poll)) (w : Watch)
    → get (watch_all now raws w).activity sid
      ≡ follow (poll_events sid now raws) (get w.activity sid)
unfolding watch_all
polls-follow sid now [] w = refl
polls-follow sid now (raw ∷ raws) w =
    polls-follow sid now raws (watch_poll now raw w)
    ∙ ap (follow (poll_events sid now raws)) (poll-follow sid now raw w)
    ∙ sym (
        follow-append (poll_events sid now (raw ∷ [])) (poll_events sid now raws)
          (get w.activity sid))
    ∙ ap (λ es. follow es (get w.activity sid)) (sym (poll_events-cons sid now raw raws))

is_empty-append {ℓ} :
    {A : Type ℓ} (xs ys : List A) → is_empty (xs ++ ys) ≡ (is_empty xs && is_empty ys)
is_empty-append [] ys = refl
is_empty-append (x ∷ xs) ys = refl

pub polls-seen :
    (sid : Text) (now : ℕ) (raws : List (Option Poll)) (w : Watch)
    → contains (watch_all now raws w).seen sid
      ≡ (contains w.seen sid || not (is_empty (poll_events sid now raws)))
unfolding watch_all
polls-seen sid now [] w = ground arith
polls-seen sid now (raw ∷ raws) w =
    let ih = polls-seen sid now raws (watch_poll now raw w) in
    let here = poll-seen sid now raw w in
    let apart =
      ap is_empty (poll_events-cons sid now raw raws)
      ∙ is_empty-append (poll_events sid now (raw ∷ [])) (poll_events sid now raws) in
    rw (ih, here, apart) (ground arith)

pub polls-see :
    (now : ℕ) (raws : List (Option Poll)) (w : Watch)
    → not (is_empty (watch_all now raws w).seen) ≡ (not (is_empty w.seen) || some_seen raws)
unfolding watch_all
polls-see now [] w = ground arith
polls-see now (raw ∷ raws) w =
    let ih = polls-see now raws (watch_poll now raw w) in
    let here = poll-sees now raw w in rw (ih, here) (ground arith)
