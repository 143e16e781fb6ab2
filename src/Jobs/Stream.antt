-- ===== src/Jobs/Stream.antt =====
-- About the streamed text, the log and the percentage of a job (app/jobs.py).
use mathlib.Core.List.{append_assoc, append-nil}
use bless_forge.Base.{
  ℕ, ◌≤◌, ◌≡◌, refl, sym, ap, ◌∙◌, inl, inr, Bool, none, some, List, [], ◌∷◌, ◌++◌, arith,
  Bool-cases, nat_eq, string_eq, Text, text_eq, length, length-drop,
}
use bless_forge.Jobs.Job.{
  Event, start, step, instance_named, log, stream, end, Frame, Job, Report, set_step, set_instance,
  log_line, stream_chunk, frame_of, emit, step_to, name_instance, add_line, flush_stream,
  feed_stream, fed, is_due, report, reports, max_log_lines,
}

-- The text that a frame adds to a watcher's stream.
abbrev pub streamed_part : Event → Text → Text
streamed_part stream message = message
streamed_part start message = []
streamed_part step message = []
streamed_part instance_named message = []
streamed_part log message = []
streamed_part end message = []

module _ {R : Type 0} where
  -- The text that a watcher has put together from the frames.
  abbrev pub streamed : List (Frame R) → Text
  streamed [] = []
  streamed (f ∷ fs) = streamed_part f.event f.message ++ streamed fs

  streamed-append : (fs gs : List (Frame R)) → streamed (fs ++ gs) ≡ streamed fs ++ streamed gs
  streamed-append [] gs = refl
  streamed-append (f ∷ fs) gs =
      rw (streamed-append fs gs)
        (sym (append_assoc (streamed_part f.event f.message) (streamed fs) (streamed gs)))

  -- What was sent and what waits in the buffer is all that was fed to the stream.
  abbrev pub Whole : Job R → Type 0
  Whole job = streamed job.sent ++ job.stream_buffer ≡ job.stream

  streamed-emit :
      (event : Event) (message : Text) (job : Job R)
      → streamed (emit event message job).sent ≡ streamed job.sent ++ streamed_part event message
  unfolding emit frame_of
  streamed-emit event message job = rw streamed-append (rw append-nil refl)

  Whole-emit :
      (event : Event) (message : Text) (job job' : Job R)
      → streamed_part event message ≡ []
      → job'.sent ≡ job.sent
      → job'.stream_buffer ≡ job.stream_buffer
      → job'.stream ≡ job.stream
      → Whole job
      → Whole (emit event message job')
  Whole-emit event message job job' n e₁ e₂ e₃ w =
      rw streamed-emit (rw n (rw append-nil (unfold emit in (rw (e₁, e₂, e₃) w))))

  Whole-fed : (text : Text) (job : Job R) → Whole job → Whole (fed text job)
  Whole-fed text job w =
      sym (append_assoc (streamed job.sent) job.stream_buffer text) ∙ ap (λ (s : Text). s ++ text) w

  Whole-flush_stream : (now : ℕ) (job : Job R) → Whole job → Whole (flush_stream now job)
  unfolding flush_stream
  Whole-flush_stream now job w = rw append-nil (rw streamed-emit (unfold emit in w))

  Whole-feed_stream :
      (now : ℕ) (text : Text) (flush : Bool) (job : Job R)
      → Whole job
      → Whole (feed_stream now text flush job)
  unfolding feed_stream
  Whole-feed_stream now text flush job w = elim (Bool-cases (is_due now flush (fed text job))) [
    | inl e ↦ rw e (Whole-flush_stream now (fed text job) (Whole-fed text job w))
    | inr e ↦ rw e (Whole-fed text job w)
  ]

  Whole-report : (r : Report) (job : Job R) → Whole job → Whole (report r job)
  unfolding report step_to name_instance add_line
  Whole-report (set_step text percent) job w = Whole-emit _ _ job _ refl refl refl refl w
  Whole-report (set_instance server_id server_name) job w =
      Whole-emit _ _ job _ refl refl refl refl w
  Whole-report (log_line now message level) job w = Whole-emit _ _ job _ refl refl refl refl w
  Whole-report (stream_chunk now text flush) job w = Whole-feed_stream now text flush job w

  -- However a task's output is cut into chunks and whenever they are flushed, the stream frames put
  -- together, with what still waits in the buffer, are the output: nothing is lost, doubled or
  -- reordered.
  pub reports-Whole : (rs : List Report) (job : Job R) → Whole job → Whole (reports rs job)
  unfolding reports
  reports-Whole [] job w = w
  reports-Whole (r ∷ rs) job w = reports-Whole rs (report r job) (Whole-report r job w)

  -- The log holds five hundred lines at most, and the percentage stays within a hundred.
  abbrev pub Bounded : Job R → Type 0
  Bounded job = (length job.log ≤ max_log_lines) × (job.percent ≤ 1000)

  Bounded-report : (r : Report) (job : Job R) → Bounded job → Bounded (report r job)
  unfolding report step_to name_instance add_line feed_stream flush_stream emit
  Bounded-report (set_step text none) job b = b
  Bounded-report (set_step text (some p)) job b = (b.0, omega arith)
  Bounded-report (set_instance server_id server_name) job b = b
  Bounded-report (log_line now message level) job b = (rw length-drop (omega arith), b.1)
  Bounded-report (stream_chunk now text flush) job b =
      elim (Bool-cases (is_due now flush (fed text job))) [ inl e ↦ rw e b | inr e ↦ rw e b ]

  -- Whatever a job reports, its log holds at most five hundred lines, and its percentage stays within
  -- a hundred, if that was so before.
  pub reports-Bounded : (rs : List Report) (job : Job R) → Bounded job → Bounded (reports rs job)
  unfolding reports
  reports-Bounded [] job b = b
  reports-Bounded (r ∷ rs) job b = reports-Bounded rs (report r job) (Bounded-report r job b)
