-- ===== src/Jobs/Job.antt =====
-- app/jobs.py: a job, its progress reports and how it runs. Times are milliseconds, percentages are
-- tenths; `R` is the type of results.
use bless_forge.Base.{
  ℕ, ◌-◌, min, Bool, true, false, not, ◌&&◌, ◌||◌, Option, none, some, List, [], ◌∷◌, ◌++◌, map,
  ltb, leb, if◌then◌else◌, nat_eq, string_eq, Text, text_eq, codes, length, drop, is_empty,
}

abbrev pub max_log_lines : ℕ
max_log_lines = 500

abbrev pub stream_flush_chars : ℕ
stream_flush_chars = 48

abbrev pub stream_flush_millis : ℕ
stream_flush_millis = 250

-- `asyncio.Queue(maxsize=1000)`
abbrev pub queue_size : ℕ
queue_size = 1000

pub data Status : Type 0 where
  pending running done error cancelled : Status

-- `status in TERMINAL`
abbrev pub is_terminal : Status → Bool
is_terminal pending = false
is_terminal running = false
is_terminal done = true
is_terminal error = true
is_terminal cancelled = true

pub data Level : Type 0 where
  info warn failure : Level

-- The names of the frames.
pub data Event : Type 0 where
  start step instance_named log stream end : Event

abbrev pub is_end : Event → Bool
is_end start = false
is_end step = false
is_end instance_named = false
is_end log = false
is_end stream = false
is_end end = true

module _ (R : Type 0) where
  -- `attached` is the result and the error, on the frames that carry them.
  pub record Frame : Type 0 where
    pub event : Event
    pub status : Status
    pub step : Text
    pub percent : ℕ
    pub message : Text
    pub attached : Option (Option R × Option Text)

  pub record Line : Type 0 where
    pub at : ℕ
    pub level : Level
    pub message : Text

  -- `queues` are the subscribers', `sent` is what the sinks were given.
  pub record Job : Type 0 where
    pub server_id : Option Text
    pub server_name : Option Text
    pub heavy : Bool  -- `kind in HEAVY_JOB_KINDS`
    pub status : Status
    pub step : Text
    pub percent : ℕ
    pub log : List Line
    pub result : Option R
    pub error : Option Text
    pub created : ℕ
    pub finished : Option ℕ
    pub owner : Option Text
    pub stream : Text
    pub stream_buffer : Text
    pub stream_flushed : ℕ
    pub queues : List (List Frame)
    pub sent : List Frame

-- `q.put_nowait(payload)`, with a full queue passed over.
abbrev pub put_nowait {ℓ} : {A : Type ℓ} → A → List A → List A
put_nowait x q = if ltb (length q) queue_size then q ++ (x ∷ []) else q

abbrev pub text_or : Option Text → Text → Text
text_or none d = d
text_or (some t) d = if is_empty t then d else t

-- `if server_id: self.server_id = server_id`
abbrev pub or_kept : Option Text → Option Text → Option Text
or_kept none old = old
or_kept (some t) old = if is_empty t then old else some t

-- What a task does to its job.
pub data Report : Type 0 where
  set_step : Text → Option ℕ → Report
  set_instance : Option Text → Option Text → Report
  log_line : ℕ → Text → Level → Report
  stream_chunk : ℕ → Text → Bool → Report

module _ {R : Type 0} where
  unfoldable pub frame_of : Event → Text → Job R → Frame R
  frame_of event message job = record {
    event = event;
    status = job.status;
    step = job.step;
    percent = job.percent;
    message = message;
    attached =
        if is_end event || is_terminal job.status then some (job.result, job.error) else none;
  }

  unfoldable pub emit : Event → Text → Job R → Job R
  emit event message job =
      let frame = frame_of event message job in
      record job { queues = map (put_nowait frame) job.queues; sent = job.sent ++ (frame ∷ []) }

  unfoldable pub step_to : Text → Option ℕ → Job R → Job R
  step_to text percent job = emit step text (record job {
    step = text;
    percent = elim percent [ none ↦ job.percent | some p ↦ min 1000 p ];
  })

  unfoldable pub name_instance : Option Text → Option Text → Job R → Job R
  name_instance server_id server_name job =
      emit instance_named (text_or server_name (text_or server_id [])) (record job {
        server_id = or_kept server_id job.server_id;
        server_name = or_kept server_name job.server_name;
      })

  -- `del log[: len(log) - MAX_LOG_LINES]`
  abbrev pub trimmed : List (Line R) → List (Line R)
  trimmed lines = drop (length lines - max_log_lines) lines

  unfoldable pub add_line : ℕ → Text → Level → Job R → Job R
  add_line now message level job = emit log message (record job {
    log = trimmed (job.log ++ (record { at = now; level = level; message = message } ∷ []));
  })

  -- The flush of `stream_chunk`: the buffer goes out as one frame.
  unfoldable pub flush_stream : ℕ → Job R → Job R
  flush_stream now job = record (emit stream job.stream_buffer job) {
    stream_buffer = [];
    stream_flushed = now;
  }

  abbrev pub fed : Text → Job R → Job R
  fed text job = record job {
    stream = job.stream ++ text;
    stream_buffer = job.stream_buffer ++ text;
  }

  abbrev pub is_due : ℕ → Bool → Job R → Bool
  is_due now flush job =
      not (is_empty job.stream_buffer)
      && (flush
          || leb stream_flush_chars (length job.stream_buffer)
          || leb stream_flush_millis (now - job.stream_flushed))

  unfoldable pub feed_stream : ℕ → Text → Bool → Job R → Job R
  feed_stream now text flush job =
      let j = fed text job in if is_due now flush j then flush_stream now j else j

  unfoldable pub report : Report → Job R → Job R
  report (set_step text percent) job = step_to text percent job
  report (set_instance server_id server_name) job = name_instance server_id server_name job
  report (log_line now message level) job = add_line now message level job
  report (stream_chunk now text flush) job = feed_stream now text flush job

  unfoldable pub reports : List Report → Job R → Job R
  reports [] job = job
  reports (r ∷ rs) job = reports rs (report r job)

-- How the body of a job ends: it returns, is cancelled, or raises with a description and a
-- traceback.
pub data Ending (R : Type 0) : Type 0 where
  returned : R → Ending R
  was_cancelled : Ending R
  raised : Text → Text → Text → Ending R

module _ {R : Type 0} where
  -- The `try` and `except` arms of `run_job`, at the time `now`.
  unfoldable pub conclude : ℕ → Ending R → Job R → Job R
  conclude now (returned result) job =
      step_to (codes "Finished") (some 1000)
        (record job { result = some result; status = done; percent = 1000 })
  conclude now was_cancelled job =
      add_line now (codes "Job cancelled") warn
        (record job { status = cancelled; error = some (codes "cancelled") })
  conclude now (raised text described traceback) job =
      add_line now traceback failure
        (add_line now described failure (record job { status = error; error = some text }))

  -- `run_job`: the body's reports, then how it ended, then the `finally` arm.
  unfoldable pub run_job : ℕ → List Report → Ending R → Job R → Job R
  run_job now body ending job =
      let j =
        conclude now ending (reports body (emit start [] (record job { status = running }))) in
      emit end [] (record j { finished = some now })
