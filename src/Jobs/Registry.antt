-- ===== src/Jobs/Registry.antt =====
-- app/jobs.py: what Redis keeps of a job, and the registry of one process. Times are milliseconds.
use bless_forge.Base.{
  ℕ, ◌+◌, ◌-◌, ◌*◌, Bool, true, false, not, ◌&&◌, ◌||◌, Option, none, some, List, [], ◌∷◌, ◌++◌,
  ltb, if◌then◌else◌, nat_eq, string_eq, Text, text_eq, codes, is_empty,
}
use bless_forge.Jobs.Job.{
  Status, pending, running, done, error, cancelled, is_terminal, end, Frame, Job,
}

abbrev pub finished_ttl : ℕ
finished_ttl = 24 * 3600

abbrev pub running_ttl : ℕ
running_ttl = 7 * 24 * 3600

abbrev pub keep_finished_millis : ℕ
keep_finished_millis = 60 * 60 * 1000

abbrev pub interrupted : Text
interrupted =
    codes
      "interrupted: the process running this job stopped (restarted or crashed) before it finished"

-- A job's record in Redis; `last_event_id` is the id of the last frame that it reflects.
pub record Snapshot : Type 0 where
  pub status : Status
  pub owner : Option Text
  pub updated : ℕ
  pub finished : Option ℕ
  pub problem : Option Text  -- `error`
  pub step : Text
  pub percent : ℕ
  pub last_event_id : ℕ

-- A job's event stream: the frames with their ids, which `xadd` gives in order.
pub record EventStream : Type 0 where
  pub events : List (ℕ × Frame (Unit {0}))
  pub next : ℕ

-- `r.xadd`, with the id that it gave
unfoldable pub xadd : Frame (Unit {0}) → EventStream → ℕ × EventStream
xadd frame s = (s.next, record { events = s.events ++ ((s.next, frame) ∷ []); next = s.next + 1 })

-- What a process sees of one job in Redis.
pub record Stored : Type 0 where
  pub snapshot : Snapshot
  pub frames : EventStream
  pub ttl : ℕ

-- A status that `_reconcile` leaves alone: a job in the queue waits by design.
abbrev pub settled : Status → Bool
settled pending = true
settled running = false
settled done = true
settled error = true
settled cancelled = true

-- `HEARTBEAT_TTL` in seconds is a setting; `alive` says whether the owner's key is there.
module _ (heartbeat_ttl : ℕ) (alive : Text → Bool) where
  abbrev pub is_lost : ℕ → Option Text → ℕ → Bool
  is_lost now none updated = false
  is_lost now (some owner) updated =
      not (is_empty owner) && ltb (heartbeat_ttl * 1000) (now - updated) && not (alive owner)

  -- `_reconcile`: a running job whose owner has stopped is not running.
  unfoldable pub reconcile : ℕ → Stored → Stored
  reconcile now s =
      if settled s.snapshot.status || not (is_lost now s.snapshot.owner s.snapshot.updated)
      then s
      else (let frame : Frame (Unit {0}) = record {
        event = end;
        status = error;
        step = s.snapshot.step;
        percent = s.snapshot.percent;
        message = interrupted;
        attached = some (none, some interrupted);
      } in
          let (id, frames) = xadd frame s.frames in
          record {
            snapshot = record s.snapshot {
              status = error;
              finished = some now;
              problem = some interrupted;
              last_event_id = id;
            };
            frames = frames;
            ttl = finished_ttl;
          })

-- `_prune`: jobs that finished more than an hour ago are forgotten.
abbrev pub is_old : ℕ → Option ℕ → Bool
is_old now none = false
is_old now (some finished) = ltb (finished + keep_finished_millis) now

module _ {R : Type 0} where
  unfoldable pub prune : ℕ → List (Text × Job R) → List (Text × Job R)
  prune now [] = []
  prune now ((id, job) ∷ jobs) =
      let rest = prune now jobs in if is_old now job.finished then rest else (id, job) ∷ rest

-- The time that a job's record is kept, `ttl` in `write_snapshot`.
unfoldable pub ttl_of : Status → ℕ
ttl_of status = if is_terminal status then finished_ttl else running_ttl

-- `JobRegistry.cancel` for a job of another process: the flag is set for a job that is not over.
unfoldable pub may_cancel : Option Snapshot → Bool
may_cancel none = false
may_cancel (some snap) = not (is_terminal snap.status)
