-- ===== src/Racks/Observe.antt =====
-- app/fleetgroups.py: `observe`, the activity of the servers. Each record has the keys that `observe`
-- gives it.
use bless_forge.Base.{
  ℕ, ◌-◌, Bool, false, not, ◌&&◌, ◌||◌, Option, none, some, List, [], ◌∷◌, ltb, if◌then◌else◌,
  is_some, ◌==◌, nat_eq, string_eq, Text, text_eq, contains, length, take, is_empty, get,
}
use bless_forge.Base.Strings.{strip}
use bless_forge.Racks.Model.{Activity}

-- An item of the fleet's poll
pub record Poll : Type 0 where
  pub server_id : Text
  pub name : Text
  pub running : Bool

-- What the loop over the items keeps
pub record Watch : Type 0 where
  pub activity : List (Text × Activity)
  pub seen : List Text
  pub notable : Bool
  pub ticked : Bool

abbrev pub unseen_yet : ℕ → Activity
unseen_yet now = record {
  first_seen = now;
  name = none;
  running = false;
  last_started = none;
  observed = false;
  last_running_at = none;
}

abbrev or_unseen : ℕ → Option Activity → Activity
or_unseen now none = unseen_yet now
or_unseen now (some rec) = rec

abbrev starts : Option Activity → Bool → Bool
starts none running = running
starts (some rec) running = running && not rec.running

-- The record after a poll: an uptime is observed when the server was seen down before
abbrev pub polled_again : ℕ → Text → Bool → Option Activity → Activity
polled_again now name running before =
    let rec = or_unseen now before in
    record {
      first_seen = rec.first_seen;
      name = if is_empty name then rec.name else some (take 120 name);
      running = running;
      last_started = if starts before running then some now else rec.last_started;
      observed = if starts before running then is_some before else rec.observed;
      last_running_at = if running then some now else rec.last_running_at;
    }

-- `activity[sid] = rec`
unfoldable pub put_record : Text → Activity → List (Text × Activity) → List (Text × Activity)
put_record sid rec [] = (sid, rec) ∷ []
put_record sid rec ((s, r) ∷ rest) =
    let others = put_record sid rec rest in if sid == s then (s, rec) ∷ rest else (s, r) ∷ others

unfoldable pub watch_poll : ℕ → Option Poll → Watch → Watch
unfolding put_record strip
watch_poll now none w = w
watch_poll now (some raw) w =
    let sid = strip raw.server_id in
    let before = get w.activity sid in
    if is_empty sid then w else record {
      activity = put_record sid (polled_again now raw.name raw.running before) w.activity;
      seen = sid ∷ w.seen;
      notable = w.notable || (not (is_some before) || starts before raw.running);
      ticked = w.ticked || raw.running;
    }

unfoldable pub watch_all : ℕ → List (Option Poll) → Watch → Watch
watch_all now [] w = w
watch_all now (raw ∷ raws) w = watch_all now raws (watch_poll now raw w)

-- `activity` without what a full sweep did not see
unfoldable pub only_seen : List Text → List (Text × Activity) → List (Text × Activity)
only_seen seen [] = []
only_seen seen ((s, r) ∷ rest) =
    let others = only_seen seen rest in if contains seen s then (s, r) ∷ others else others

-- One call: its time, its items, and whether they are all servers
pub record Look : Type 0 where
  pub now : ℕ
  pub items : List (Option Poll)
  pub full : Bool

abbrev pub watch_look : Look → List (Text × Activity) → Watch
unfolding watch_all
watch_look look activity =
    watch_all look.now look.items
      (record { activity = activity; seen = []; notable = false; ticked = false })

abbrev pub sweeps : Look → Watch → Bool
sweeps look w = look.full && not (is_empty w.seen)

-- What `observe` leaves: the activity, when the ticking clock was last saved, and whether it saved
pub record Observed : Type 0 where
  pub activity : List (Text × Activity)
  pub last_tick_save : ℕ
  pub saved : Bool

unfoldable pub observe : Look → List (Text × Activity) → ℕ → Observed
unfolding watch_all only_seen
observe look activity last_tick_save =
    let w = watch_look look activity in
    let left = only_seen w.seen w.activity in
    let gone = sweeps look w && ltb (length left) (length w.activity) in
    let saved = w.notable || gone || (w.ticked && ltb 60 (look.now - last_tick_save)) in
    record {
      activity = if sweeps look w then left else w.activity;
      last_tick_save = if saved && w.ticked then look.now else last_tick_save;
      saved = saved;
    }

-- The calls one after the other
unfoldable pub observe_all : List Look → List (Text × Activity) → ℕ → Observed
unfolding observe
observe_all [] activity last = record { activity = activity; last_tick_save = last; saved = false }
observe_all (look ∷ looks) activity last =
    let here = observe look activity last in observe_all looks here.activity here.last_tick_save
