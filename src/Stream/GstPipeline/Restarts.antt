-- ===== src/Stream/GstPipeline/Restarts.antt =====
-- The pipeline of src/stream/gst_pipeline.rs across restarts: what `init` sets up, what `clean_up`
-- leaves, and how a run is stopped.
use mathlib.Core.Path.{subst}
use srt_whep.Prelude.{String, ◌≡◌, refl, sym, inl, inr, false, none, some, arith, Option-cases}
use srt_whep.Prelude.Results.{Result, ok, err, Result-cases}
use srt_whep.Stream.Errors.{PipelineError}
use srt_whep.Stream.Gst.{Gst, IsLawful}
use srt_whep.Stream.Bus.{eos, classify_bus_message}
use srt_whep.Stream.GstPipeline.Installed.{Installed, build-Installed}
use srt_whep.Stream.GstPipeline.Fresh.{Bare, build-Bare}
use srt_whep.Stream.GstPipeline.Control.{PipelineWrapper, ready, add_branch, remove_branch}
use srt_whep.Stream.GstPipeline.Lifecycle.{
  build, init, start_run, bus_watch, end, clean_up, quit_run,
}
use srt_whep.Stream.GstPipeline

module _ {E H : Type 0} (g : Gst E H) (lock : E → Result (Unit {0}) String) (s : PipelineWrapper H)
    (w : E) where
  -- How `init` ends: it failed and the wrapper is as it was, or the wrapper has a pipeline with the
  -- elements that the rest of the program looks for and with none of a viewer's.
  pub data Setup (L : IsLawful g)
      : Result (Unit {0}) String × (PipelineWrapper H × E) → Type 0 where
    failed : (e : String) (w' : E) → Setup L (err e, (s, w'))
    installed :
        (p : H) (w' : E)
        → Installed g L p w'
        → Bare g L p w'
        → Setup L (ok tt, (record s { pipeline = some p }, w'))

  -- `init` either fails and leaves the wrapper as it was, or stores a pipeline that holds the source, the
  -- demuxer and the two ingest queues under their names, and no element under a name that a viewer's
  -- branch has.
  pub init-Setup : (L : IsLawful g) → Setup L (init g lock (s, w))
  unfolding init
  init-Setup L = elim (Result-cases (g.init_library w).0) [
    | inr (x, e) ↦
        let same : init g lock (s, w) ≡ (err x, (s, (g.init_library w).1)) = ground (arith, e) in
        subst (Setup L) (sym same) (failed x _)
    | inl (u, e) ↦ elim (Result-cases (lock w₁)) [
      | inr (x, e') ↦
          let same : init g lock (s, w) ≡ (err x, (s, w₁)) = ground (arith, e, e') in
          subst (Setup L) (sym same) (failed x _)
      | inl (u, e') ↦ elim (Result-cases (build g s.args w₁).0) [
        | inr (x, e'') ↦
            let same : init g lock (s, w) ≡ (err x, (s, w₂)) = ground (arith, e, e', e'') in
            subst (Setup L) (sym same) (failed x _)
        | inl (p, e'') ↦ elim (Result-cases (lock w₂)) [
          | inr (x, e₃) ↦
              let same : init g lock (s, w) ≡ (err x, (s, w₂)) = ground (arith, e, e', e'', e₃) in
              subst (Setup L) (sym same) (failed x _)
          | inl (u, e₃) ↦
              let same : init g lock (s, w) ≡ (ok tt, (record s { pipeline = some p }, w₂)) =
                ground (arith, e, e', e'', e₃) in
              subst (Setup L) (sym same) (
                installed p w₂ (build-Installed g L s.args w₁ p e'')
                  (build-Bare g L s.args w₁ p e''))
        ]
      ]
    ]
  ]
    where
      w₁ : E
      w₁ = (g.init_library w).1

      w₂ : E
      w₂ = (build g s.args w₁).1

  -- Every call that gets the lock finds no pipeline: the input is not ready, adding a branch is
  -- refused as not ready and removing one as a transient failure, a run cannot start, and ending or
  -- quitting has nothing to do.
  abbrev pub Refuses : PipelineWrapper H → String → E → Type 0
  Refuses s' id w' =
      (ready g lock s' w' ≡ ok false)
      × (add_branch g lock s' id w' ≡ (err PipelineError.not_ready, w'))
      × (remove_branch g lock s' id w'
          ≡ (err (PipelineError.transient "Pipeline is not initialized"), w'))
      × (start_run g lock (s', w') ≡ (err "Pipeline called before initialization", (s', w')))
      × (end g lock (s', w') ≡ (ok tt, (s', w')))
      × (quit_run g lock (s', w') ≡ (ok tt, (s', w')))

  abbrev cleared : PipelineWrapper H
  cleared = record s { pipeline = none; main_loop = none }

  cleared-Refuses : (id : String) (w' : E) → lock w' ≡ ok tt → Refuses cleared id w'
  unfolding ready GstPipeline.ready add_branch remove_branch start_run end quit_run
  cleared-Refuses id w' free = (
    ground (arith, free),
    ground (arith, free),
    ground (arith, free),
    ground (arith, free),
    ground (arith, free),
    ground (arith, free),
  )

  pub clean_up_clears : (clean_up g lock (s, w)).0 ≡ ok tt → (clean_up g lock (s, w)).1.0 ≡ cleared
  unfolding clean_up
  clean_up_clears h = elim (Result-cases (lock w)) [
    | inr (x, e) ↦
        let refused : (clean_up g lock (s, w)).0 ≡ err x = ground (arith, e) in cc (refused, h)
    | inl (u, e) ↦ elim (Option-cases (s.pipeline)) [
      | inl absent ↦ ground (arith, e, absent)
      | inr (p, present) ↦ ground (arith, e, present)
    ]
  ]

  -- Between a successful `clean_up` and the next `init`, every call that gets the lock finds no
  -- pipeline: the input is not ready, adding a branch is refused as not ready and removing one as a
  -- transient failure, a run cannot start, and ending or quitting has nothing to do. None of them
  -- changes anything.
  pub clean_up-Refuses :
      (clean_up g lock (s, w)).0 ≡ ok tt
      → (id : String) (w' : E) → lock w' ≡ ok tt
      → Refuses (clean_up g lock (s, w)).1.0 id w'
  clean_up-Refuses h id w' free =
      subst (λ s'. Refuses s' id w') (sym (clean_up_clears h)) (cleared-Refuses id w' free)

  start_run-stores :
      (main_loop : H)
      → (start_run g lock (s, w)).0 ≡ ok main_loop
      → ((start_run g lock (s, w)).1.0).main_loop ≡ some main_loop
  unfolding start_run
  start_run-stores main_loop h = elim (Result-cases (lock w)) [
    | inr (x, e) ↦
        let refused : (start_run g lock (s, w)).0 ≡ err x = ground (arith, e) in cc (refused, h)
    | inl (u, e) ↦ elim (Option-cases (s.pipeline)) [
      | inl absent ↦
          let refused : (start_run g lock (s, w)).0 ≡ err "Pipeline called before initialization" =
            ground (arith, e, absent) in
          cc (refused, h)
      | inr (p, present) ↦
          let made : (start_run g lock (s, w)).0 ≡ ok (g.new_main_loop w).0 =
            ground (arith, e, present) in
          let stored : ((start_run g lock (s, w)).1.0).main_loop ≡ some (g.new_main_loop w).0 =
            ground (arith, e, present) in
          cc (made, stored, h)
    ]
  ]

  quit_run_quits :
      (s' : PipelineWrapper H) (w' : E) (main_loop : H)
      → s'.main_loop ≡ some main_loop
      → lock w' ≡ ok tt
      → quit_run g lock (s', w') ≡ (ok tt, (s', g.quit_main_loop main_loop w'))
  unfolding quit_run
  quit_run_quits s' w' main_loop stored free = ground (arith, stored, free)

  -- A run that has been started is stopped in the same way by a forced quit that gets the lock and by the
  -- end of the stream on the bus: both quit the main loop that the run made.
  pub quit_run-bus_watch :
      (main_loop : H)
      → (start_run g lock (s, w)).0 ≡ ok main_loop
      → lock (start_run g lock (s, w)).1.1 ≡ ok tt
      → let (s', w') = (start_run g lock (s, w)).1 in
        (quit_run g lock (s', w') ≡ (ok tt, (s', g.quit_main_loop main_loop w')))
        × (bus_watch g lock main_loop eos w' ≡ (none, g.quit_main_loop main_loop w'))
  unfolding bus_watch classify_bus_message
  quit_run-bus_watch main_loop h free = (
    quit_run_quits (start_run g lock (s, w)).1.0 (start_run g lock (s, w)).1.1 main_loop
        (start_run-stores main_loop h) free,
    refl,
  )
