-- ===== src/Examples/Polls.antt =====
-- Polls of the fleet (app/fleetgroups.py: `observe`).
use bless_forge.Base.{
  ℕ, ◌≡◌, refl, Bool, true, false, Option, none, some, List, [], ◌∷◌, nat_eq, string_eq, Text,
  text_eq, codes, get,
}
use bless_forge.Base.Strings.{lstrip, rstrip_space, strip, is_space}
use bless_forge.Racks.Model.{Activity}
use bless_forge.Racks.Observe.{
  Poll, put_record, watch_poll, watch_all, only_seen, Look, observe, observe_all,
}
use bless_forge.Racks.Seen.{history, follow}
use bless_forge.Racks.Started.{StartedAt}
use bless_forge.Racks.Watched.{observe_all-follow, observe_all-observed}

abbrev poll : Text → Bool → Option Poll
poll sid running = some (record { server_id = sid; name = []; running = running })

-- smp is seen down, then up; lobby is up from the first look, and a full sweep misses it
abbrev looks : List Look
looks =
    record {
      now = 10;
      items = poll (codes " smp ") false ∷ poll (codes "lobby") true ∷ [];
      full = false;
    }
    ∷ record { now = 20; items = none ∷ poll (codes "smp") true ∷ []; full = true }
    ∷ []

abbrev smp : Activity
smp = record {
  first_seen = 10;
  name = none;
  running = true;
  last_started = some 20;
  observed = true;
  last_running_at = some 20;
}

observe_all-run : (observe_all looks [] 0).activity ≡ ((codes "smp", smp) ∷ [])
unfolding observe_all observe watch_all watch_poll put_record only_seen strip lstrip rstrip_space
    is_space
observe_all-run = refl

observe_all-follow_example :
    get (observe_all looks [] 0).activity (codes "lobby")
    ≡ follow (history (codes "lobby") looks) none
observe_all-follow_example = observe_all-follow (codes "lobby") looks [] 0

smp-found : get (observe_all looks [] 0).activity (codes "smp") ≡ some smp
unfolding observe_all observe watch_all watch_poll put_record only_seen strip lstrip rstrip_space
    is_space
smp-found = refl

observe_all-observed_example :
    (at : ℕ) × (smp.last_started ≡ some at) × StartedAt at (history (codes "smp") looks)
observe_all-observed_example = observe_all-observed (codes "smp") looks 0 smp-found refl
