-- ===== src/Tests/Cycle.antt =====
-- The service through one restart: a pipeline runs and stops, is cleaned up and set up again, and a viewer
-- joins.
use srt_whep.Prelude.{ℕ, String, Bool, true, false, ◌≡◌, refl, some, [], ◌∷◌}
use srt_whep.Prelude.Text.{starts_with, strip_prefix, replace}
use srt_whep.Prelude.HashMap.{lookup, erase, insert}
use srt_whep.Prelude.Results.{Result, ok}
use srt_whep.Stream.Naming.{whip_sink_name, video_queue_name, audio_queue_name, video_decoder_name}
use srt_whep.Stream.Args.{default_args, to_str, reverse}
use srt_whep.Stream.Branch.{
  any_pad, attach, whip_endpoint, find, make_and_add, sync_all, point_at, attach_video,
  attach_audio, if_media, decimal, whip_sink_path,
}
use srt_whep.Stream.Egress.{video_parser, start_chain, video_chain, audio_chain, build_egress_chain}
use srt_whep.Stream.GstPipeline.{input_ready}
use srt_whep.Stream.GstPipeline.Control.{add_branch, add_to, settle}
use srt_whep.Stream.GstPipeline.Callbacks.{link_each, no_more_pads}
use srt_whep.Stream.GstPipeline.Lifecycle.{
  init, build, equip, create, discover_input, run_discoverer, srt_uri, create_custom_queue, connect,
  start_run, clean_up,
}
use srt_whep.Signal.Messages.{create_connection, reset}
use srt_whep.Signal.Coordinator.Config.{default_config}
use srt_whep.Signal.Coordinator.State
use srt_whep.Signal.Coordinator.State.{Coordinator}
use srt_whep.Signal.Coordinator.Handlers.{
  handle, on_create, admit, add_branch_bounded, reset_signal,
}
use srt_whep.Signal.Coordinator.Connection.{notify}
use srt_whep.Signal.Coordinator.Terminate.{reset_all, notify_all}
use srt_whep.Signal.Coordinator.Loop.{mailbox, wake}
use srt_whep.Signal.Coordinator.Changes.{restarts}
use srt_whep.Supervisor.{
  Action, initialised, run_spawned, run_stopped, cleaned_up, reset_within, slept,
}
use srt_whep.Supervisor.Order.{Phase, next}
use srt_whep.Service.{service}
use srt_whep.Service.Tidy.{Tidy}
use srt_whep.Service.System.{
  System, put, moved, perform, supervised, run_started, round, reset_handled, pads_announced, begin,
  Reach, start, later,
}
use srt_whep.Service.Cycles.{reached-Tidy}
use srt_whep.Tests.Bin.{Bin, Element, bin, bin-IsLawful, add_list}
use srt_whep.Tests.Bin

abbrev element : String → String → Element
element factory name = record { factory = factory; name = name }

abbrev pipeline : Element
pipeline = element "pipeline" "pipeline0"

abbrev empty : Bin
empty = record { elements = []; pads = "video_0_0100" ∷ "audio_0_0101" ∷ []; missing = "" }

abbrev free : Bin → Result (Unit {0}) String
free w = ok tt

abbrev clock : Bin → ℕ
clock w = 0

abbrev waits : ℕ → Bin → Bool
waits channel w = false

abbrev S : Type 0
S = System Bin Element

abbrev acts : Action → Phase → S → S
acts a q s = record (perform bin free clock waits a s) { phase = q }

abbrev ready_to_run : S → S
ready_to_run s = acts run_spawned Phase.running (acts (initialised (ok tt)) Phase.initial s)

abbrev started : S → S
started s = put s (start_run bin free (s.wrapper, s.coordinator.env)).1

abbrev linked : S → S
linked s =
    moved s
      (no_more_pads bin pipeline (element "queue" "video-queue") (element "queue" "audio-queue")
        (element "tsdemux" "demux") s.coordinator.env).1

abbrev up : S → S
up s = linked (started (ready_to_run s))

abbrev stopped : S → S
stopped s =
    acts (cleaned_up (ok tt)) (Phase.cleaned false)
      (acts (run_stopped (ok tt)) (Phase.halted false) s)

abbrev was_reset : S → S
was_reset s = record s {
  coordinator = handle (service bin free s.wrapper clock waits) (reset 7) s.coordinator;
  disturbed = true;
}

abbrev rested : S → S
rested s =
    acts (slept 1 false) Phase.idle (acts (reset_within 5 (some (ok tt))) Phase.due (was_reset s))

abbrev s0 : S
s0 = begin bin free clock waits (default_args "0.0.0.0:1234") default_config empty

abbrev s1 : S
s1 = up (rested (stopped (up s0)))

abbrev joined : S
joined = record s1 {
  coordinator =
      handle (service bin free s1.wrapper clock waits) (create_connection "a" 1) s1.coordinator;
}

computes : Unit {0}
unfolding perform init build equip create discover_input run_discoverer srt_uri to_str reverse
    create_custom_queue connect add_list start_run clean_up no_more_pads link_each
    build_egress_chain video_parser video_chain audio_chain start_chain State.init handle on_create
    admit add_branch_bounded lookup erase insert add_branch add_to settle input_ready any_pad
    starts_with strip_prefix attach find make_and_add sync_all point_at attach_video attach_audio
    if_media Bin.lookup whip_sink_name video_queue_name audio_queue_name video_decoder_name
    whip_endpoint decimal whip_sink_path replace reset_signal reset_all notify_all next wake
computes = tt

at_pipeline : joined.wrapper.pipeline ≡ some pipeline
unfolding computes
at_pipeline = refl

calm : restarts joined.coordinator.log ≡ joined.base
unfolding computes
calm = refl

abbrev Reached : S → Type 0
Reached = Reach bin free clock waits (default_args "0.0.0.0:1234") default_config empty

first_run : Reached (up s0)
unfolding computes
first_run =
    later
      (later
        (later (later start (supervised (initialised (ok tt)) Phase.initial refl refl))
          (supervised run_spawned Phase.running refl tt))
        run_started)
      (pads_announced pipeline (element "queue" "video-queue") (element "queue" "audio-queue")
        (element "tsdemux" "demux") refl)

first_stop : Reached (stopped (up s0))
unfolding computes
first_stop =
    later (later first_run (supervised (run_stopped (ok tt)) (Phase.halted false) refl tt))
      (supervised (cleaned_up (ok tt)) (Phase.cleaned false) refl refl)

rest : Reached (rested (stopped (up s0)))
unfolding computes
rest =
    later
      (later (later first_stop (reset_handled 7))
        (supervised (reset_within 5 (some (ok tt))) Phase.due refl tt))
      (supervised (slept 1 false) Phase.idle refl tt)

second_run : Reached s1
unfolding computes
second_run =
    later
      (later
        (later (later rest (supervised (initialised (ok tt)) Phase.initial refl refl))
          (supervised run_spawned Phase.running refl tt))
        run_started)
      (pads_announced pipeline (element "queue" "video-queue") (element "queue" "audio-queue")
        (element "tsdemux" "demux") refl)

join : Reached joined
unfolding computes
join = later second_run (round (mailbox (some (create_connection "a" 1))) _ (λ reply e. cc) refl)

reached-Tidy_example : Tidy bin bin-IsLawful pipeline joined.coordinator
unfolding computes
reached-Tidy_example =
    reached-Tidy bin bin-IsLawful free (λ w. refl) clock waits join pipeline at_pipeline calm refl

-- The Reset of the first stop, if it is handled only now, ends the viewer's connection and leaves the
-- viewer's branch in the new pipeline.
abbrev late_reset : Coordinator Bin
late_reset = handle (service bin free joined.wrapper clock waits) (reset 8) joined.coordinator

leaked :
    (late_reset.connections ≡ [])
    × (bin.by_name pipeline "whip-sink-a" late_reset.env
        ≡ some (element "whipclientsink" "whip-sink-a"))
unfolding computes notify
leaked = (refl, refl)
