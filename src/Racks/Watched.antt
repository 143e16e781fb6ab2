-- ===== src/Racks/Watched.antt =====
-- The activity over the calls of `observe` (app/fleetgroups.py).
use bless_forge.Base.{
  ℕ, ◌≡◌, refl, sym, ap, ◌∙◌, inl, inr, true, false, not, ◌&&◌, none, some, List, [], ◌∷◌, arith,
  Bool-cases, nat_eq, string_eq, Text, text_eq, contains, is_empty, get,
}
use bless_forge.Racks.Model.{Activity}
use bless_forge.Racks.Observe.{Watch, Look, watch_all, sweeps, observe, observe_all}
use bless_forge.Racks.Seen.{
  poll_events, some_seen, look_events, history, follow, get-only_seen, follow-append, polls-follow,
  polls-seen, polls-see,
}
use bless_forge.Racks.Started.{StartedAt, follow-Known}

look-follow :
    (sid : Text) (look : Look) (activity : List (Text × Activity)) (last : ℕ)
    → get (observe look activity last).activity sid
      ≡ follow (look_events sid look) (get activity sid)
unfolding observe
look-follow sid look activity last =
    let start : Watch = record {
      activity = activity;
      seen = [];
      notable = false;
      ticked = false;
    } in
    let w = watch_all look.now look.items start in
    let polls = poll_events sid look.now look.items in
    let follows = polls-follow sid look.now look.items start in
    let sees : not (is_empty w.seen) ≡ some_seen look.items = polls-see look.now look.items start in
    let seen : contains w.seen sid ≡ not (is_empty polls) =
      polls-seen sid look.now look.items start in
    elim (Bool-cases (look.full && some_seen look.items)) [
      | inr part ↦
          let no_sweep : sweeps look w ≡ false = ground (arith, sees, part) in
          let no_gone : (look.full && (some_seen look.items && is_empty polls)) ≡ false =
            ground (arith, part) in
          rw (no_sweep, no_gone) follows
      | inl whole ↦
          let sweep : sweeps look w ≡ true = ground (arith, sees, whole) in
          elim (Bool-cases (is_empty polls)) [
            | inl none_of ↦
                let is_gone : (look.full && (some_seen look.items && is_empty polls)) ≡ true =
                  ground (arith, whole, none_of) in
                let unseen : contains w.seen sid ≡ false = seen ∙ ap not none_of in
                rw (sweep, is_gone) (get-only_seen w.seen sid w.activity ∙ rw unseen refl)
            | inr some_of ↦
                let no_gone : (look.full && (some_seen look.items && is_empty polls)) ≡ false =
                  ground (arith, some_of) in
                let present : contains w.seen sid ≡ true = seen ∙ ap not some_of in
                rw (sweep, no_gone) (get-only_seen w.seen sid w.activity ∙ rw present follows)
          ]
    ]

-- After any calls, the record of a server is what its own events alone make of the record that it
-- had: the polls of other servers do not change it, and a full sweep that did not see it drops it.
pub observe_all-follow :
    (sid : Text) (looks : List Look) (activity : List (Text × Activity)) (last : ℕ)
    → get (observe_all looks activity last).activity sid
      ≡ follow (history sid looks) (get activity sid)
unfolding observe_all
observe_all-follow sid [] activity last = refl
observe_all-follow sid (look ∷ looks) activity last =
    let here = observe look activity last in
    observe_all-follow sid looks here.activity here.last_tick_save
    ∙ ap (follow (history sid looks)) (look-follow sid look activity last)
    ∙ sym (follow-append (look_events sid look) (history sid looks) (get activity sid))

-- A start that the activity calls observed was one, at the moment that it gives: from no activity
-- on, the events of the server have a poll that saw it down and, directly after it, one at that
-- moment that saw it up, and no start of the server after that.
pub observe_all-observed :
    (sid : Text) (looks : List Look) (last : ℕ) {rec : Activity}
    → get (observe_all looks [] last).activity sid ≡ some rec
    → rec.observed ≡ true
    → (at : ℕ) × (rec.last_started ≡ some at) × StartedAt at (history sid looks)
observe_all-observed sid looks last {rec} found observed =
    let followed = sym (observe_all-follow sid looks [] last) ∙ found in
    elim (follow-Known (history sid looks) none followed observed) [
      | inl (_, e, _, _, _) ↦ absurd (cc)
      | inr (at, is, inl (_, e, _, _, _, _, _)) ↦ absurd (cc)
      | inr (at, is, inr found_at) ↦ (at, is, found_at)
    ]
