-- ===== src/Service/System.antt =====
-- The whole service across restarts: the supervisor of src/supervisor.rs runs the pipeline of
-- src/stream/gst_pipeline.rs again and again while the coordinator of src/signal/coordinator.rs goes on,
-- as src/startup.rs puts them together.
--
-- A step is one action of the supervisor, one round of the coordinator, one callback of GStreamer, or a
-- change outside; they interleave in any order that the supervisor's own order of actions allows.
use srt_whep.Prelude.{ℕ, String, Bool, true, false, ◌≡◌, ◌≢◌, some}
use srt_whep.Prelude.Results.{Result}
use srt_whep.Stream.Naming.{branch_id_from_name}
use srt_whep.Stream.Args.{Args}
use srt_whep.Stream.Gst.{Gst}
use srt_whep.Stream.GstPipeline.Control.{PipelineWrapper, initial}
use srt_whep.Stream.GstPipeline.Callbacks.{no_more_pads, pad_added}
use srt_whep.Stream.GstPipeline.Lifecycle.{init, start_run, end, clean_up, quit_run}
use srt_whep.Signal.Messages.{reset}
use srt_whep.Signal.Coordinator.Config.{CoordinatorConfig}
use srt_whep.Signal.Coordinator.State.{Coordinator}
use srt_whep.Signal.Coordinator.State
use srt_whep.Signal.Coordinator.Handlers.{handle}
use srt_whep.Signal.Coordinator.Loop.{Wakeup, mailbox, wake}
use srt_whep.Signal.Coordinator.Changes.{restarts}
use srt_whep.Supervisor.{Action, initialised, ended, quitted, cleaned_up}
use srt_whep.Supervisor.Order.{Phase, next}
use srt_whep.Service.{service}

pub record System (E H : Type 0) : Type 0 where
  pub phase : Phase
  pub wrapper : PipelineWrapper H
  -- Its `env` is GStreamer's state.
  pub coordinator : Coordinator E
  -- The restarts asked for when the pipeline was last initialised, and whether a Reset has been handled
  -- since.
  pub base : ℕ
  pub disturbed : Bool

abbrev pub put : {E H : Type 0} → System E H → PipelineWrapper H × E → System E H
put s (wrapper, w) = record s {
  wrapper = wrapper;
  coordinator = record (s.coordinator) { env = w };
}

abbrev pub moved : {E H : Type 0} → System E H → E → System E H
moved s w = put s (s.wrapper, w)

module _ {E H : Type 0} (g : Gst E H) (lock : E → Result (Unit {0}) String) (now : E → ℕ)
    (is_closed : ℕ → E → Bool) where
  -- What an action of the supervisor does to the pipeline.
  unfoldable pub perform : Action → System E H → System E H
  perform (initialised r) s = record (put s (init g lock (s.wrapper, s.coordinator.env)).1) {
    base = restarts s.coordinator.log;
    disturbed = false;
  }
  perform ended s = put s (end g lock (s.wrapper, s.coordinator.env)).1
  perform quitted s = put s (quit_run g lock (s.wrapper, s.coordinator.env)).1
  perform (cleaned_up r) s = put s (clean_up g lock (s.wrapper, s.coordinator.env)).1
  perform a s = s

  -- The answer that the action records is the pipeline's.
  abbrev pub Answers : Action → System E H → Type 0
  Answers (initialised r) s = (init g lock (s.wrapper, s.coordinator.env)).0 ≡ r
  Answers (cleaned_up r) s = (clean_up g lock (s.wrapper, s.coordinator.env)).0 ≡ r
  Answers a s = Unit

  pub data Step (s : System E H) : System E H → Type 0 where
    supervised :
        (a : Action) (q : Phase)
        → next s.phase a ≡ some q
        → Answers a s
        → Step s (record (perform a s) { phase = q })
    -- The run's own task has come to its wait for the main loop.
    run_started : Step s (put s (start_run g lock (s.wrapper, s.coordinator.env)).1)
    round :
        (w : Wakeup) (c : Coordinator E)
        → ((reply : ℕ) → w ≢ mailbox (some (reset reply)))
        → wake (service g lock s.wrapper now is_closed) w s.coordinator ≡ some c
        → Step s (record s { coordinator = c })
    -- A Reset of the supervisor; one that it no longer waits for may come in any phase.
    reset_handled :
        (reply : ℕ)
        → Step s (record s {
          coordinator = handle (service g lock s.wrapper now is_closed) (reset reply) s.coordinator;
          disturbed = true;
        })
    pads_announced :
        (p video audio source : H)
        → s.wrapper.pipeline ≡ some p
        → Step s (moved s (no_more_pads g p video audio source s.coordinator.env).1)
    pad_announced :
        (p pad : H)
        → s.wrapper.pipeline ≡ some p
        → Step s (moved s (pad_added g p pad s.coordinator.env))
    -- Time passes, clients come and go, media flows; no element with a viewer's name comes or goes.
    outside :
        (w : E)
        → ((q : H) (k id : String)
            → branch_id_from_name k ≡ some id
            → g.by_name q k w ≡ g.by_name q k s.coordinator.env)
        → Step s (moved s w)

  -- `Application::build`: nothing is set up yet.
  abbrev pub begin : Args → CoordinatorConfig → E → System E H
  begin args config w = record {
    phase = Phase.idle;
    wrapper = initial args;
    coordinator = State.init w config;
    base = 0;
    disturbed = false;
  }

  pub data Reach (args : Args) (config : CoordinatorConfig) (w : E) : System E H → Type 0 where
    start : Reach args config w (begin args config w)
    later : {s s' : System E H} → Reach args config w s → Step s s' → Reach args config w s'
