-- ===== src/Stream/GstPipeline/Lifecycle.antt =====
-- `PipelineLifecycle` of src/stream/gst_pipeline.rs: setting the pipeline up, running it, and taking it
-- down. The calls act on the wrapper behind the state lock and on GStreamer's state.
use srt_whep.Prelude.{
  ℕ, String, Bool, true, false, ◌&&◌, Option, none, some, [], ◌∷◌, if◌then◌else◌,
}
use Prim.Native.String.{◌++◌}
use srt_whep.Prelude.Results.{Result, ok, err}
use srt_whep.Prelude.Calls.{Call, return, ◌>>=◌, ◌>>◌}
use srt_whep.Stream.Errors.{PipelineError, from_timed_lock}
use srt_whep.Stream.Naming.{demux, video_queue, audio_queue, srt_source, BranchId}
use srt_whep.Stream.Args.{Args, SrtMode, caller, listener, to_str, reverse}
use srt_whep.Stream.Gst.{Gst, text, int, flag, null, playing}
use srt_whep.Stream.Bus.{Message, classify_bus_message, quit, reap_branch, ignore}
use srt_whep.Stream.GstPipeline.Control.{PipelineWrapper}

-- `srt_mode == SRTMode::Caller`
abbrev pub is_caller : SrtMode → Bool
is_caller caller = true
is_caller listener = false

unfoldable pub srt_uri : String → SrtMode → String
srt_uri address mode = "srt://" ++ (address ++ ("?mode=" ++ to_str mode))

module _ {E H : Type 0} (g : Gst E H) where
  -- `run_discoverer`; what it prints has no model.
  unfoldable pub run_discoverer : String → ℕ → Call E String (Unit {0})
  run_discoverer uri timeout_sec = g.discover timeout_sec uri

  -- `Pipeline::default()`, which cannot fail.
  unfoldable pub create : Call E String H
  create w = let (pipeline, w') = g.new_pipeline w in (ok pipeline, w')

  -- The discoverer's error is swallowed.
  unfoldable pub discover_input : Args → Call E String (Unit {0})
  discover_input args w = (
    ok tt,
    if is_caller args.srt_mode && args.run_discoverer
        then (run_discoverer (srt_uri args.input_address args.srt_mode) args.discoverer_timeout_sec
            w).1
        else w,
  )

  unfoldable pub create_custom_queue : String → String → String → String → Call E String H
  create_custom_queue queue_name max_size_buffers max_size_time leaky =
      g.make "queue" (some queue_name) (
        ("max-size-buffers", text max_size_buffers)
        ∷ ("max-size-time", text max_size_time)
        ∷ ("leaky", text leaky)
        ∷ [])

  -- The elements are added and linked, and the pipeline is set to playing.
  unfoldable pub connect : H → H → H → H → H → H → H → H → H → H → Call E String H
  connect pipeline src input_tee whep_queue srt_queue typefind tsdemux video audio srtsink = do
    g.add_many pipeline (
        src ∷ input_tee ∷ whep_queue ∷ srt_queue ∷ typefind ∷ tsdemux ∷ video ∷ audio ∷ srtsink
        ∷ [])
    g.link_many (src ∷ input_tee ∷ [])
    g.link_many (input_tee ∷ whep_queue ∷ typefind ∷ tsdemux ∷ [])
    g.link_many (input_tee ∷ srt_queue ∷ srtsink ∷ [])
    g.set_state pipeline playing
    return pipeline

  -- `init` from the making of the pipeline to its last use of the lock.
  unfoldable pub equip : Args → H → Call E String H
  equip args pipeline = do
    discover_input args
    src ← g.make "srtsrc" (some srt_source) (
        ("uri", text (srt_uri args.input_address args.srt_mode))
        ∷ ("latency", int args.srt_latency)
        ∷ [])
    input_tee ← g.make "tee" (some "input_tee") []
    whep_queue ← create_custom_queue "whep-queue" "0" "0" "no"
    typefind ← g.make "typefind" (some "typefind") []
    tsdemux ← g.make "tsdemux" (some demux) (("latency", int args.tsdemux_latency) ∷ [])
    video ← create_custom_queue video_queue "0" "0" "no"
    audio ← create_custom_queue audio_queue "0" "0" "no"
    srt_queue ← create_custom_queue "srt-queue" "0" "0" "downstream"
    srtsink ← g.make "srtsink" none (
        ("uri", text (srt_uri args.output_address (reverse args.srt_mode)))
        ∷ ("wait-for-connection", flag false)
        ∷ [])
    connect pipeline src input_tee whep_queue srt_queue typefind tsdemux video audio srtsink

  -- `init` between its two uses of the lock.
  unfoldable pub build : Args → Call E String H
  build args = do pipeline ← create; equip args pipeline

-- How the thread of the main loop ends.
pub data LoopEnd : Type 0 where
  not_spawned : String → LoopEnd
  watch_refused : String → LoopEnd
  returned : LoopEnd
  died : LoopEnd

-- `run` from its wait on.
unfoldable pub finish_run : LoopEnd → Result (Unit {0}) String
finish_run (not_spawned e) = err e
finish_run (watch_refused e) = err e
finish_run returned = ok tt
finish_run died = err "GLib main loop thread died unexpectedly"

module _ {E H : Type 0} (g : Gst E H) (lock : E → Result (Unit {0}) String) where
  abbrev pub Lifecycle : Type 0 → Type 0
  Lifecycle A = Call (PipelineWrapper H × E) String A

  -- A call of GStreamer, which does not touch the wrapper.
  abbrev pub outside : {A : Type 0} → Call E String A → Lifecycle A
  outside call (s, w) = let (r, w') = call w in (r, (s, w'))

  -- `self.state.lock_err().await?`
  abbrev pub locked : Lifecycle (PipelineWrapper H)
  locked (s, w) = elim (lock w) [ err e ↦ (err e, (s, w)) | ok _ ↦ (ok s, (s, w)) ]

  abbrev pub store : PipelineWrapper H → Lifecycle (Unit {0})
  store s (old, w) = (ok tt, (s, w))

  -- `init`
  unfoldable pub init : Lifecycle (Unit {0})
  init = do
    outside g.init_library
    before ← locked
    pipeline ← outside (build g before.args)
    s ← locked
    store (record s { pipeline = some pipeline })

  -- `run` up to its wait for the main loop, which it stores.
  unfoldable pub start_run : Lifecycle H
  start_run = do s ← locked; made s
    where
      made : PipelineWrapper H → Lifecycle H
      made s (old, w) = elim (s.pipeline) [
        | none ↦ (err "Pipeline called before initialization", (old, w))
        | some p ↦
            let (main_loop, w') = g.new_main_loop w in
            (ok main_loop, (record s { main_loop = some main_loop }, w'))
      ]

  -- The bus watch: it quits the loop or sends a branch's id to the coordinator.
  unfoldable pub bus_watch : H → Message → E → Option BranchId × E
  bus_watch main_loop msg w = elim (classify_bus_message msg) [
    | quit ↦ (none, g.quit_main_loop main_loop w)
    | reap_branch id ↦ (some id, w)
    | ignore ↦ (none, w)
  ]

  -- `end`; that the event is not taken is only logged.
  unfoldable pub end : Lifecycle (Unit {0})
  end (s, w) = elim (lock w) [
    | err e ↦ (err e, (s, w))
    | ok _ ↦ elim (s.pipeline) [
      | none ↦ (ok tt, (s, w))
      | some p ↦ (ok tt, (s, (g.send_eos p w).1))
    ]
  ]

  -- `clean_up`; a failure to stop is only logged.
  unfoldable pub clean_up : Lifecycle (Unit {0})
  clean_up (s, w) = elim (lock w) [
    | err e ↦ (err e, (s, w))
    | ok _ ↦
        let cleared = record s { pipeline = none; main_loop = none } in
        elim (s.pipeline) [
          | none ↦ (ok tt, (cleared, w))
          | some p ↦ (ok tt, (cleared, (g.set_state p null w).1))
        ]
  ]

  -- `quit`
  unfoldable pub quit_run : Call (PipelineWrapper H × E) PipelineError (Unit {0})
  quit_run (s, w) = elim (lock w) [
    | err e ↦ (err (from_timed_lock e), (s, w))
    | ok _ ↦ elim (s.main_loop) [
      | none ↦ (ok tt, (s, w))
      | some main_loop ↦ (ok tt, (s, g.quit_main_loop main_loop w))
    ]
  ]
