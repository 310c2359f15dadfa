-- ===== src/Stream/TestPipeline/Runs.antt =====
-- The parked run of the fake pipeline of src/stream/pipeline.rs.
use srt_whep.Prelude.{String, none, some, ◌≡◌, refl, false}
use srt_whep.Prelude.Results.{ok, err}
use srt_whep.Stream.TestPipeline.{
  TestPipeline, finish_run, fail_run, start_run, resume_run, end, quit,
}

-- A run of the fake is parked as long as the gate is shut; where no error is set, an EOS and a forced quit
-- each release it as a success; `fail_run` releases it with its error; and this uses up both the release
-- and the error, so that the next run is parked again and, released, succeeds.
pub resume_run_lem :
    (p : TestPipeline) (msg : String)
    → (p.run_gate ≡ false → (resume_run (start_run p)).0 ≡ none)
      × ((resume_run (start_run (fail_run msg p))).0 ≡ some (err msg))
      × (p.state.next_run_error ≡ none
          → ((resume_run (end p).1).0 ≡ some (ok tt)) × ((resume_run (quit p).1).0 ≡ some (ok tt)))
      × (let next = start_run (resume_run (start_run (fail_run msg p))).1 in
          ((resume_run next).0 ≡ none) × ((resume_run (finish_run next)).0 ≡ some (ok tt)))
unfolding resume_run start_run fail_run finish_run end quit
resume_run_lem p msg = (λ h. rw h refl, refl, λ h. rw h (refl, refl), (refl, refl))
