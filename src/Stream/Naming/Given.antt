-- ===== src/Stream/Naming/Given.antt =====
-- The names of src/stream/naming.rs that an element of the pipeline may have.
use srt_whep.Prelude.{String, ◌≡◌, some}
use srt_whep.Stream.Naming.{
  demux, video_queue, audio_queue, output_tee_video, output_tee_audio, srt_source, whip_sink_name,
  video_queue_name, audio_queue_name, video_decoder_name, branch_id_from_name,
}

-- A core element's name, or one that is derived for a viewer's branch.
pub data IsGiven : String → Type 0 where
  at_source : IsGiven srt_source
  at_demux : IsGiven demux
  at_video_queue : IsGiven video_queue
  at_audio_queue : IsGiven audio_queue
  at_tee_video : IsGiven output_tee_video
  at_tee_audio : IsGiven output_tee_audio
  for_sink : (id : String) → IsGiven (whip_sink_name id)
  for_video : (id : String) → IsGiven (video_queue_name id)
  for_audio : (id : String) → IsGiven (audio_queue_name id)
  for_decoder : (id : String) → IsGiven (video_decoder_name id)
  for_branch : {name id : String} → branch_id_from_name name ≡ some id → IsGiven name
