-- ===== src/Stream/GstPipeline.antt =====
-- When the pipeline of src/stream/gst_pipeline.rs can take a branch. GStreamer is outside: a `View` is
-- what it answers about the pipeline under the lock, the elements by name and the demuxer's pads.
use srt_whep.Prelude.{
  String, Bool, true, false, not, ◌&&◌, ◌||◌, Option, none, some, List, [], ◌∷◌, if◌then◌else◌,
}
use Prim.Native.String.{◌++◌}
use srt_whep.Prelude.Results.{Result, ok, err}
use srt_whep.Stream.Branch.{any_pad}
use srt_whep.Stream.Errors.{PipelineError, from_timed_lock}
use srt_whep.Stream.Naming.{demux, output_tee_video, output_tee_audio}
pub mod Readiness
pub mod Control
pub mod Callbacks
pub mod Lifecycle
pub mod Linked
pub mod Installed
pub mod Restarts
pub mod Spares
pub mod Fresh
pub mod Announced
pub mod Survival
pub mod Atomicity

pub record View : Type 0 where
  -- `pipeline.by_name(name).is_some()`
  pub has : String → Bool
  -- The names of `demux.pads()`.
  pub demux_pads : List String

-- `SharablePipeline::input_ready`
unfoldable pub input_ready : View → Result Bool PipelineError
input_ready p =
    let has_video = any_pad "video" p.demux_pads in
    let has_audio = any_pad "audio" p.demux_pads in
    let video_ready = not has_video || p.has output_tee_video in
    let audio_ready = not has_audio || p.has output_tee_audio in
    if not (p.has demux)
    then err (PipelineError.fatal ("Failed to find element: " ++ demux))
    else if not has_video && not has_audio
    then ok false
    else ok (video_ready && audio_ready)

-- `SharablePipeline::ready`, given the result of the timed lock; `none` is a pipeline that is not
-- initialised.
unfoldable pub ready : Result (Option View) String → Result Bool PipelineError
ready (err e) = err (from_timed_lock e)
ready (ok none) = ok false
ready (ok (some p)) = input_ready p
