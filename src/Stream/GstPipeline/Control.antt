-- ===== src/Stream/GstPipeline/Control.antt =====
-- `BranchControl` of src/stream/gst_pipeline.rs: `ready`, `add_branch` and `remove_branch` of the
-- pipeline that the program runs. The timed lock is an observation, as it changes nothing itself.
use srt_whep.Prelude.{String, Bool, true, false, Option, none, some, []}
use srt_whep.Prelude.Results.{Result, ok, err, map_err}
use srt_whep.Prelude.Calls.{Call}
use srt_whep.Stream.Errors.{PipelineError, from_timed_lock}
use srt_whep.Stream.Naming.{demux}
use srt_whep.Stream.Args.{Args}
use srt_whep.Stream.Gst.{Gst}
use srt_whep.Stream.Branch.{attach, detach}
use srt_whep.Stream.GstPipeline.{View, input_ready}
use srt_whep.Stream.GstPipeline

-- `PipelineWrapper`
pub record PipelineWrapper (H : Type 0) : Type 0 where
  pub pipeline : Option H
  pub main_loop : Option H
  pub args : Args

-- `PipelineWrapper::new`
abbrev pub initial : {H : Type 0} → Args → PipelineWrapper H
initial args = record { pipeline = none; main_loop = none; args = args }

module _ {E H : Type 0} (g : Gst E H) where
  abbrev is_some : Option H → Bool
  is_some none = false
  is_some (some e) = true

  -- What `input_ready` asks of GStreamer.
  abbrev pub view : H → E → View
  view p w = record {
    has = λ name. is_some (g.by_name p name w);
    demux_pads = elim (g.by_name p demux w) [ none ↦ [] | some e ↦ g.pads e w ];
  }

module _ {E H : Type 0} (g : Gst E H) (lock : E → Result (Unit {0}) String) where
  -- `SharablePipeline::ready`
  unfoldable pub ready : PipelineWrapper H → E → Result Bool PipelineError
  ready s w = elim (lock w) [
    | err e ↦ GstPipeline.ready (err e)
    | ok _ ↦ elim (s.pipeline) [
      | none ↦ GstPipeline.ready (ok none)
      | some p ↦ GstPipeline.ready (ok (some (view g p w)))
    ]
  ]

  -- The end of `add_branch`: a failed attach is cleaned up, and its own error is the one reported.
  unfoldable pub settle : H → String → Result (Unit {0}) String → Call E PipelineError (Unit {0})
  settle p id (ok _) w = (ok tt, w)
  settle p id (err e) w = (err (PipelineError.fatal e), (detach g p id w).1)

  -- `add_branch` once the pipeline is at hand.
  unfoldable pub add_to : H → Args → String → Call E PipelineError (Unit {0})
  add_to p args id w = elim (input_ready (view g p w)) [
    | err e ↦ (err e, w)
    | ok false ↦ (err PipelineError.not_ready, w)
    | ok true ↦ let (r, w') = attach g p args.port args.decode_video id w in settle p id r w'
  ]

  -- `SharablePipeline::add_branch`
  unfoldable pub add_branch : PipelineWrapper H → String → Call E PipelineError (Unit {0})
  add_branch s id w = elim (lock w) [
    | err e ↦ (err (from_timed_lock e), w)
    | ok _ ↦ elim (s.pipeline) [
      | none ↦ (err PipelineError.not_ready, w)
      | some p ↦ add_to p s.args id w
    ]
  ]

  -- `SharablePipeline::remove_branch`
  unfoldable pub remove_branch : PipelineWrapper H → String → Call E PipelineError (Unit {0})
  remove_branch s id w = elim (lock w) [
    | err e ↦ (err (from_timed_lock e), w)
    | ok _ ↦ elim (s.pipeline) [
      | none ↦ (err (PipelineError.transient "Pipeline is not initialized"), w)
      | some p ↦ let (r, w') = detach g p id w in (map_err r PipelineError.fatal, w')
    ]
  ]
