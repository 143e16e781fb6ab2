-- ===== src/Examples/Work.antt =====
-- Jobs: runs, streams and records of lost jobs.
use bless_forge.Base.{
  ℕ, ◌≡◌, refl, ap, ◌≢◌, Bool, true, false, none, some, List, [], ◌∷◌, ◌++◌, arith, nat_eq,
  string_eq, Text, text_eq, codes,
}
use bless_forge.Jobs.Job.{
  Job, Frame, Report, set_step, log_line, stream_chunk, info, returned, pending, running, run_job,
  reports, end,
}
use bless_forge.Jobs.Frames.{EndedAs, Concluded, run_job-Concluded}
use bless_forge.Jobs.Stream.{Whole, reports-Whole}
use bless_forge.Jobs.Registry.{Stored, reconcile, xadd}

abbrev fresh : Job ℕ
fresh = record {
  server_id = none;
  server_name = none;
  heavy = false;
  status = pending;
  step = [];
  percent = 0;
  log = [];
  result = none;
  error = none;
  created = 0;
  finished = none;
  owner = none;
  stream = [];
  stream_buffer = [];
  stream_flushed = 0;
  queues = [] ∷ [];
  sent = [];
}

abbrev body : List Report
body =
    set_step (codes "copy") (some 400)
    ∷ stream_chunk 100 (codes "half") false
    ∷ stream_chunk 900 (codes " done") false
    ∷ log_line 950 (codes "copied") info
    ∷ []

abbrev ended : Job ℕ
ended = run_job 1000 body (returned 5) fresh

run_job-Concluded_example :
    EndedAs (returned 5) ended
    × Concluded ended
    × (ended.finished ≡ some 1000)
    × ((frames : List (Frame ℕ)) × (last : Frame ℕ) × (ended.sent ≡ frames ++ (last ∷ []))
        × (last.event ≡ end)
        × (last.attached ≡ some (ended.result, ended.error)))
run_job-Concluded_example = run_job-Concluded 1000 body (returned 5) fresh refl

reports-Whole_example : Whole (reports body fresh)
reports-Whole_example = reports-Whole body fresh refl

abbrev lost : Stored
lost = record {
  snapshot = record {
    status = running;
    owner = some (codes "worker-1");
    updated = 1000;
    finished = none;
    problem = none;
    step = [];
    percent = 0;
    last_event_id = 0;
  };
  frames = record { events = []; next = 1 };
  ttl = 604800;
}

abbrev nobody : Text → Bool
nobody owner = false

abbrev everybody : Text → Bool
everybody owner = true

lost_changes : reconcile 30 nobody 99000 lost ≢ lost
unfolding reconcile xadd
lost_changes same = absurd (let t = ap (λ s. s.ttl) same in omega (arith, t))
