-- ===== src/Stream/Naming.antt =====
-- src/stream/naming.rs: the names of the pipeline's elements, and whose branch a name belongs to.
pub mod Classification
pub mod Given
use Prim.Native.String.{◌++◌}
use srt_whep.Prelude.{String, Option, none, some, List, [], ◌∷◌}
use srt_whep.Prelude.Text.{strip_prefix}

abbrev pub demux : String
demux = "demux"

abbrev pub video_queue : String
video_queue = "video-queue"

abbrev pub audio_queue : String
audio_queue = "audio-queue"

abbrev pub output_tee_video : String
output_tee_video = "output_tee_video"

abbrev pub output_tee_audio : String
output_tee_audio = "output_tee_audio"

abbrev pub srt_source : String
srt_source = "srt_source"

abbrev pub whip_sink_stem : String
whip_sink_stem = "whip-sink"

abbrev pub video_decoder_stem : String
video_decoder_stem = "avdec-h264"

unfoldable pub video_queue_name : String → String
video_queue_name id = video_queue ++ ("-" ++ id)

unfoldable pub audio_queue_name : String → String
audio_queue_name id = audio_queue ++ ("-" ++ id)

unfoldable pub whip_sink_name : String → String
whip_sink_name id = whip_sink_stem ++ ("-" ++ id)

unfoldable pub video_decoder_name : String → String
video_decoder_name id = video_decoder_stem ++ ("-" ++ id)

-- Identity of one viewer's branch, where it crosses to the coordinator.
pub record BranchId : Type 0 where
  pub id : String

-- `name.strip_prefix(stem).and_then(|rest| rest.strip_prefix('-'))`
abbrev pub strip_stem : String → String → Option String
strip_stem name stem = elim (strip_prefix name stem) [
  | none ↦ none
  | some rest ↦ strip_prefix rest "-"
]

-- The `for` loop of `branch_id_from_name`.
pub first_stem : String → List String → Option String
first_stem name [] = none
first_stem name (stem ∷ stems) = elim (strip_stem name stem) [
  | some id ↦ some id
  | none ↦ first_stem name stems
]

unfoldable pub branch_id_from_name : String → Option String
unfolding first_stem
branch_id_from_name name =
    first_stem name (whip_sink_stem ∷ video_queue ∷ audio_queue ∷ video_decoder_stem ∷ [])
