-- ===== src/Jobs/Frames.antt =====
-- About the frames that `run_job` sends (app/jobs.py).
use mathlib.Core.Path.{subst}
use bless_forge.Base.{
  ℕ, ◌≡◌, refl, sym, ◌∙◌, inl, inr, Bool, true, false, Option, some, List, [], ◌∷◌, ◌++◌, arith,
  Bool-cases, nat_eq, string_eq, Text, text_eq, codes, All, All-append, All-map,
}
use bless_forge.Jobs.Job.{
  running, done, error, cancelled, is_terminal, Level, warn, failure, Event, start, step, log,
  stream, end, Frame, Job, Report, set_step, set_instance, log_line, stream_chunk, frame_of, emit,
  step_to, name_instance, add_line, flush_stream, feed_stream, fed, is_due, report, reports, Ending,
  returned, was_cancelled, raised, conclude, run_job,
}

module _ {R : Type 0} where
  -- A frame that does not say that the job is over.
  abbrev Quiet : Frame R → Type 0
  Quiet f = is_terminal f.status ≡ false

  -- A frame that carries this result and error, if it says that the job is over.
  abbrev pub Carries : Option R → Option Text → Frame R → Type 0
  Carries result problem f = is_terminal f.status ≡ true → f.attached ≡ some (result, problem)

  sent-emit :
      (event : Event) (message : Text) (job : Job R)
      → (emit event message job).sent ≡ job.sent ++ (frame_of event message job ∷ [])
  unfolding emit
  sent-emit event message job = refl

  -- While a job runs, what its body reports leaves the status, the result and the error, and sends
  -- no frame that says the job is over.
  record Steady (j j' : Job R) : Type 0 where
    pub status : j'.status ≡ j.status
    pub result : j'.result ≡ j.result
    pub error : j'.error ≡ j.error
    pub quiet : is_terminal j.status ≡ false → All Quiet j.sent → All Quiet j'.sent

  -- The job that emits may differ from `job` where no frame reads it.
  Steady-emit :
      (event : Event) (message : Text) (job job' : Job R)
      → job'.status ≡ job.status
      → job'.result ≡ job.result
      → job'.error ≡ job.error
      → job'.sent ≡ job.sent
      → Steady job (emit event message job')
  unfolding emit frame_of
  Steady-emit event message job job' e₁ e₂ e₃ e₄ = record {
    status = e₁;
    result = e₂;
    error = e₃;
    quiet = λ q h. All-append Quiet job'.sent _ (subst (All Quiet) (sym e₄) h) (rw e₁ q, tt);
  }

  Steady-feed_stream :
      (now : ℕ) (text : Text) (flush : Bool) (job : Job R)
      → Steady job (feed_stream now text flush job)
  unfolding feed_stream flush_stream
  Steady-feed_stream now text flush job = elim (Bool-cases (is_due now flush (fed text job))) [
    | inl e ↦
        let s =
          Steady-emit stream (job.stream_buffer ++ text) job (fed text job) refl refl refl refl in
        rw e (record { status = s.status; result = s.result; error = s.error; quiet = s.quiet })
    | inr e ↦ rw e (record { status = refl; result = refl; error = refl; quiet = λ q h. h })
  ]

  Steady-report : (r : Report) (job : Job R) → Steady job (report r job)
  unfolding report step_to name_instance add_line
  Steady-report (set_step text percent) job = Steady-emit _ _ job _ refl refl refl refl
  Steady-report (set_instance server_id server_name) job = Steady-emit _ _ job _ refl refl refl refl
  Steady-report (log_line now message level) job = Steady-emit _ _ job _ refl refl refl refl
  Steady-report (stream_chunk now text flush) job = Steady-feed_stream now text flush job

  Steady-reports : (rs : List Report) (job : Job R) → Steady job (reports rs job)
  unfolding reports
  Steady-reports [] job = record { status = refl; result = refl; error = refl; quiet = λ q h. h }
  Steady-reports (r ∷ rs) job =
      let a = Steady-report r job in
      let b = Steady-reports rs (report r job) in
      record {
        status = b.status ∙ a.status;
        result = b.result ∙ a.result;
        error = b.error ∙ a.error;
        quiet = λ q h. b.quiet (rw a.status q) (a.quiet q h);
      }

  -- Frames that carry the final result: all that were quiet, and what is emitted once it is set.
  Carries-Quiet :
      (result : Option R) (problem : Option Text) (frames : List (Frame R))
      → All Quiet frames
      → All (Carries result problem) frames
  Carries-Quiet result problem frames h =
      All-map Quiet (Carries result problem) frames (λ f q t. absurd (let k = t in let l = q in cc))
        h

  Carries-emit :
      (event : Event) (message : Text) (job : Job R)
      → is_terminal job.status ≡ true
      → All (Carries job.result job.error) job.sent
      → All (Carries job.result job.error) (emit event message job).sent
  unfolding emit frame_of
  Carries-emit event message job t h =
      All-append (Carries job.result job.error) job.sent _ h ((λ q. ground (arith, t)), tt)

  abbrev pub Concluded : Job R → Type 0
  Concluded j = (is_terminal j.status ≡ true) × All (Carries j.result j.error) j.sent

  Concluded-emit :
      (event : Event) (message : Text) (job : Job R)
      → is_terminal job.status ≡ true
      → All (Carries job.result job.error) job.sent
      → Concluded (emit event message job)
  unfolding emit
  Concluded-emit event message job t h = (t, Carries-emit event message job t h)

  Concluded-add_line :
      (now : ℕ) (message : Text) (level : Level) (job : Job R)
      → is_terminal job.status ≡ true
      → All (Carries job.result job.error) job.sent
      → Concluded (add_line now message level job)
  unfolding add_line
  Concluded-add_line now message level job t h = Concluded-emit log message _ t h

  conclude-Concluded :
      (now : ℕ) (ending : Ending R) (job : Job R)
      → All Quiet job.sent
      → Concluded (conclude now ending job)
  unfolding conclude step_to
  conclude-Concluded now (returned result) job h =
      Concluded-emit step (codes "Finished") _ refl
        (Carries-Quiet (some result) job.error job.sent h)
  conclude-Concluded now was_cancelled job h =
      Concluded-add_line now (codes "Job cancelled") warn _ refl
        (Carries-Quiet job.result (some (codes "cancelled")) job.sent h)
  conclude-Concluded now (raised text described traceback) job h =
      let a =
        Concluded-add_line now described failure (record job { status = error; error = some text })
          refl (Carries-Quiet job.result (some text) job.sent h) in
      Concluded-add_line now traceback failure _ a.0 a.1

  -- How a job ended, read off its final record.
  abbrev pub EndedAs : Ending R → Job R → Type 0
  EndedAs (returned result) job =
      (job.status ≡ done) × (job.result ≡ some result) × (job.percent ≡ 1000)
  EndedAs was_cancelled job = (job.status ≡ cancelled) × (job.error ≡ some (codes "cancelled"))
  EndedAs (raised text described traceback) job = (job.status ≡ error) × (job.error ≡ some text)

  EndedAs-run_job :
      (now : ℕ) (body : List Report) (ending : Ending R) (job : Job R)
      → EndedAs ending (run_job now body ending job)
  unfolding run_job conclude step_to add_line emit
  EndedAs-run_job now body (returned result) job = (refl, refl, refl)
  EndedAs-run_job now body was_cancelled job = (refl, refl)
  EndedAs-run_job now body (raised text described traceback) job = (refl, refl)

  -- Whatever a job reports and however its body ends, the job is over afterwards, as it ended, at
  -- the time it ended; its last frame is the `end` frame; and every frame that says that the job is
  -- over, also one sent before the `end` frame, carries the final result and error.
  pub run_job-Concluded :
      (now : ℕ) (body : List Report) (ending : Ending R) (job : Job R)
      → job.sent ≡ []
      → let final = run_job now body ending job in
        EndedAs ending final
        × Concluded final
        × (final.finished ≡ some now)
        × ((frames : List (Frame R)) × (last : Frame R) × (final.sent ≡ frames ++ (last ∷ []))
            × (last.event ≡ end)
            × (last.attached ≡ some (final.result, final.error)))
  unfolding run_job
  run_job-Concluded now body ending job h =
      let begun = emit start [] (record job { status = running }) in
      let j = conclude now ending (reports body begun) in
      let quiet : All Quiet begun.sent = rw sent-emit (rw h (unfold frame_of in (refl, tt))) in
      let (t, c) =
        conclude-Concluded now ending (reports body begun)
          ((Steady-reports body begun).quiet (running_quiet job) quiet) in
      let last = frame_of end [] (record j { finished = some now }) in
      (
        EndedAs-run_job now body ending job,
        Concluded-emit end [] (record j { finished = some now }) t c,
        unfold emit in refl,
        (
          j.sent,
          last,
          sent-emit end [] (record j { finished = some now }),
          unfold frame_of in refl,
          unfold emit frame_of in refl,
        ),
      )
    where
      running_quiet :
          (k : Job R) → is_terminal (emit start [] (record k { status = running })).status ≡ false
      running_quiet k = unfold emit in refl
