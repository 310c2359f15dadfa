-- ===== src/Service/Cycles.antt =====
-- Viewers' elements across the restarts of src/supervisor.rs: the map of src/signal/coordinator.rs against
-- the pipeline that src/stream/gst_pipeline.rs has set up last.
use mathlib.Core.Path.{subst}
use srt_whep.Prelude.{
  ℕ, ◌≤◌, String, Bool, true, false, ◌≡◌, refl, sym, ap, ◌∙◌, ◌≢◌, none, some, arith,
}
use srt_whep.Prelude.Results.{Result, ok}
use srt_whep.Stream.Args.{Args}
use srt_whep.Stream.Gst.{Gst, IsLawful}
use srt_whep.Stream.GstPipeline.Control.{PipelineWrapper}
use srt_whep.Stream.GstPipeline.Fresh.{Bare}
use srt_whep.Stream.GstPipeline.Announced.{no_more_pads-spared, pad_added-spared}
use srt_whep.Stream.GstPipeline.Lifecycle.{init}
use srt_whep.Stream.GstPipeline.Restarts.{Setup, failed, installed, init-Setup, clean_up_clears}
use srt_whep.Signal.Coordinator.State.{Coordinator}
use srt_whep.Signal.Coordinator.Config.{CoordinatorConfig}
use srt_whep.Signal.Coordinator.Changes.{restarts}
use srt_whep.Signal.Coordinator.Growth.{wake_grows, handle_grows}
use srt_whep.Signal.Messages.{reset}
use srt_whep.Signal.Coordinator.Loop.{Wakeup, mailbox, wake}
use srt_whep.Supervisor.{
  Action, request_dropped, initialised, run_spawned, run_stopped, ended, quitted, joined_within,
  aborted_after, cleaned_up, reset_within, slept,
}
use srt_whep.Supervisor.Order.{Phase, next}
use srt_whep.Service.{service}
use srt_whep.Service.Tidy.{Tidy}
use srt_whep.Service.Rounds.{wake-Tidy}
use srt_whep.Supervisor.Standing.{is_down, init_phases, stays_down}
use srt_whep.Stream.GstPipeline.Callbacks.{no_more_pads, pad_added}
use srt_whep.Service.Quiet.{
  Calm, Bare-Tidy, Calm-Tidy, clean_up_ok, end_calm, quit_calm, start_calm,
}
use srt_whep.Service.System.{
  System, put, perform, Step, supervised, run_started, round, reset_handled, pads_announced,
  pad_announced, outside, begin, Reach, start, later,
}

module _ {E H : Type 0} (g : Gst E H) (L : IsLawful g) where
  module _ (lock : E → Result (Unit {0}) String) (free : (w : E) → lock w ≡ ok tt) (now : E → ℕ)
      (is_closed : ℕ → E → Bool) where
    -- The pipeline that stands agrees with the map, unless a restart was asked for or a Reset handled
    -- since it was initialised.
    pub record Sound (s : System E H) : Type 0 where
      pub down : is_down s.phase ≡ true → s.wrapper.pipeline ≡ none
      pub ahead : s.base ≤ restarts s.coordinator.log
      pub tidy :
          (p : H)
          → s.wrapper.pipeline ≡ some p
          → restarts s.coordinator.log ≡ s.base
          → s.disturbed ≡ false
          → Tidy g L p s.coordinator

    empty-Sound :
        (s : System E H) → s.wrapper.pipeline ≡ none → s.base ≤ restarts s.coordinator.log → Sound s
    empty-Sound s none_there ahead = record {
      down = λ d. none_there;
      ahead = ahead;
      tidy = λ p there r u. cc (none_there, there);
    }

    -- A call that keeps the pipeline and moves no viewer's element.
    Calm-Sound :
        (s : System E H) (wrapper : PipelineWrapper H) (w : E) (q : Phase)
        → wrapper.pipeline ≡ s.wrapper.pipeline
        → ((p : H) → s.wrapper.pipeline ≡ some p → Calm g L p s.coordinator.env w)
        → (is_down q ≡ true → is_down s.phase ≡ true)
        → Sound s
        → Sound (record (put s (wrapper, w)) { phase = q })
    Calm-Sound s wrapper w q same calm d a = record {
      down = λ h. same ∙ a.down (d h);
      ahead = a.ahead;
      tidy = λ p there r u.
          Calm-Tidy g L p s.coordinator w (calm p (sym same ∙ there))
            (a.tidy p (sym same ∙ there) r u);
    }

    -- `init` on a wrapper without a pipeline.
    initialised-Sound :
        (s : System E H) (q : Phase)
        → s.wrapper.pipeline ≡ none
        → is_down q ≡ false
        → (o : Result (Unit {0}) String × (PipelineWrapper H × E))
        → Setup g lock s.wrapper s.coordinator.env L o
        → Sound
            (record (put s o.1) { phase = q; base = restarts s.coordinator.log; disturbed = false })
    initialised-Sound s q empty up o (failed e w') = empty-Sound _ empty (omega arith)
    initialised-Sound s q empty up o (installed p w' has bare) = record {
      down = λ h. cc (up, h);
      ahead = omega arith;
      tidy = λ p' there r u.
          Bare-Tidy g L p' (record (s.coordinator) { env = w' })
            (subst (λ x. Bare g L x w') (cc there) bare);
    }

    unmoved :
        (s : System E H) (q : Phase)
        → (is_down q ≡ true → is_down s.phase ≡ true)
        → Sound s
        → Sound (record s { phase = q })
    unmoved s q d a = record { down = λ h. a.down (d h); ahead = a.ahead; tidy = a.tidy }

    initialise-Sound :
        (s : System E H) (r : Result (Unit {0}) String) (q : Phase)
        → next s.phase (initialised r) ≡ some q
        → Sound s
        → Sound (record (perform g lock now is_closed (initialised r) s) { phase = q })
    unfolding perform
    initialise-Sound s r q e a =
        let (idle, up) = init_phases s.phase q r e in
        initialised-Sound s q (a.down (ap is_down idle)) up
          (init g lock (s.wrapper, s.coordinator.env))
          (init-Setup g lock s.wrapper s.coordinator.env L)

    cleaned-Sound :
        (s : System E H) (r : Result (Unit {0}) String) (q : Phase)
        → Sound s
        → Sound (record (perform g lock now is_closed (cleaned_up r) s) { phase = q })
    unfolding perform
    cleaned-Sound s r q a =
        empty-Sound _
          (ap (λ x. x.pipeline)
            (clean_up_clears g lock s.wrapper s.coordinator.env
              (clean_up_ok g L lock free s.wrapper s.coordinator.env)))
          a.ahead

    perform-Sound :
        (a : Action) (s : System E H) (q : Phase)
        → next s.phase a ≡ some q
        → Sound s
        → Sound (record (perform g lock now is_closed a s) { phase = q })
    unfolding perform
    perform-Sound (initialised r) s q e h = initialise-Sound s r q e h
    perform-Sound (cleaned_up r) s q e h = cleaned-Sound s r q h
    perform-Sound ended s q e h =
        let (same, calm) = end_calm g L lock free s.wrapper s.coordinator.env in
        Calm-Sound s _ _ q same calm (stays_down ended s.phase q refl e) h
    perform-Sound quitted s q e h =
        let (same, calm) = quit_calm g L lock free s.wrapper s.coordinator.env in
        Calm-Sound s _ _ q same calm (stays_down quitted s.phase q refl e) h
    perform-Sound request_dropped s q e h =
        unmoved s q (stays_down request_dropped s.phase q refl e) h
    perform-Sound run_spawned s q e h = unmoved s q (stays_down run_spawned s.phase q refl e) h
    perform-Sound (run_stopped r) s q e h =
        unmoved s q (stays_down (run_stopped r) s.phase q refl e) h
    perform-Sound (joined_within d r) s q e h =
        unmoved s q (stays_down (joined_within d r) s.phase q refl e) h
    perform-Sound (aborted_after d) s q e h =
        unmoved s q (stays_down (aborted_after d) s.phase q refl e) h
    perform-Sound (reset_within d r) s q e h =
        unmoved s q (stays_down (reset_within d r) s.phase q refl e) h
    perform-Sound (slept d b) s q e h = unmoved s q (stays_down (slept d b) s.phase q refl e) h

    round-Sound :
        (s : System E H) (w : Wakeup) (c : Coordinator E)
        → ((reply : ℕ) → w ≢ mailbox (some (reset reply)))
        → wake (service g lock s.wrapper now is_closed) w s.coordinator ≡ some c
        → Sound s
        → Sound (record s { coordinator = c })
    round-Sound s w c other e a =
        let grown = wake_grows (service g lock s.wrapper now is_closed) w s.coordinator c e in
        record {
          down = a.down;
          ahead = omega (arith, grown, a.ahead);
          tidy = λ p there r u.
              let before : restarts s.coordinator.log ≡ s.base = omega (arith, r, grown, a.ahead) in
              wake-Tidy g L p lock s.wrapper there free now is_closed w s.coordinator c other e
                (a.tidy p there before u) (r ∙ sym before);
        }

    Step-Sound : {s s' : System E H} → Step g lock now is_closed s s' → Sound s → Sound s'
    Step-Sound {s} (supervised a q e answers) h = perform-Sound a s q e h
    Step-Sound {s} run_started h =
        let (same, calm) = start_calm g L lock free s.wrapper s.coordinator.env in
        Calm-Sound s _ _ s.phase same calm (λ d. d) h
    Step-Sound {s} (round w c other e) h = round-Sound s w c other e h
    Step-Sound {s} (reset_handled reply) h = record {
      down = h.down;
      ahead =
          let grown =
            handle_grows (service g lock s.wrapper now is_closed) (reset reply) s.coordinator in
          omega (arith, grown, h.ahead);
      tidy = λ p there r u. cc u;
    }
    Step-Sound {s} (pads_announced p video audio source at_p) h =
        Calm-Sound s _ _ s.phase refl
          (λ q at_q. record {
            from = λ k id own.
                subst
                  (λ x.
                    g.by_name x k (no_more_pads g p video audio source s.coordinator.env).1
                    ≡ g.by_name x k s.coordinator.env)
                  (cc (at_p, at_q))
                  (no_more_pads-spared g L p k id own video audio source s.coordinator.env);
          })
          (λ d. d) h
    Step-Sound {s} (pad_announced p pad at_p) h =
        Calm-Sound s _ _ s.phase refl
          (λ q at_q. record {
            from = λ k id own.
                subst
                  (λ x.
                    g.by_name x k (pad_added g p pad s.coordinator.env)
                    ≡ g.by_name x k s.coordinator.env)
                  (cc (at_p, at_q)) (pad_added-spared g L p k id own pad s.coordinator.env);
          })
          (λ d. d) h
    Step-Sound {s} (outside w kept) h =
        Calm-Sound s _ _ s.phase refl (λ q at_q. record { from = kept q }) (λ d. d) h

    begin-Sound :
        (args : Args) (config : CoordinatorConfig) (w : E)
        → Sound (begin g lock now is_closed args config w)
    begin-Sound args config w = empty-Sound _ refl (omega arith)

    Reach-Sound :
        {args : Args} {config : CoordinatorConfig} {w : E} {s : System E H}
        → Reach g lock now is_closed args config w s
        → Sound s
    Reach-Sound {args} {config} {w} start = begin-Sound args config w
    Reach-Sound (later r step) = Step-Sound step (Reach-Sound r)

    -- In every state that the service can reach, over any number of restarts and in any order of the
    -- supervisor's actions, the coordinator's rounds, the callbacks and changes outside that move no
    -- viewer's element, where the lock is always got and the calls keep within their limits: if a
    -- pipeline is there, and since it was initialised no restart was asked for and no Reset handled, then
    -- no element of a viewer who is not in the map is in it, and only queues stand under the names of
    -- branch queues.
    pub reached-Tidy :
        {args : Args} {config : CoordinatorConfig} {w : E} {s : System E H}
        → Reach g lock now is_closed args config w s
        → (p : H) → s.wrapper.pipeline ≡ some p
        → restarts s.coordinator.log ≡ s.base
        → s.disturbed ≡ false
        → Tidy g L p s.coordinator
    reached-Tidy r = (Reach-Sound r).tidy
