-- ===== src/Stream/Egress.antt =====
-- src/stream/egress.rs: the codec table, and the chain from an ingest queue to the tee that viewers'
-- branches hang on, as calls of GStreamer.
pub mod Chains
use Prim.Native.String.{◌++◌}
use srt_whep.Prelude.{String, true, Option, none, some, List, [], ◌∷◌, if◌then◌else◌}
use srt_whep.Prelude.Results.{Result, ok, err}
use srt_whep.Prelude.Calls.{Call, return, fail, ◌>>=◌, ◌>>◌}
use srt_whep.Prelude.Text.{starts_with}
use srt_whep.Stream.Naming.{output_tee_video, output_tee_audio}
use srt_whep.Stream.Gst.{Gst, flag}
use srt_whep.Stream.Branch.{sync_all}

-- The video arms of the codec table: which parser sits between the queue and the tee.
unfoldable pub video_parser : String → Option String
video_parser media_type =
    if starts_with media_type "video/x-h264"
    then some "h264parse"
    else if starts_with media_type "video/x-h265"
    then some "h265parse"
    else none

module _ {E H : Type 0} (g : Gst E H) (pipeline : H) where
  -- The end of both chains: the queue is in the pipeline already, so it is linked but not added.
  unfoldable pub start_chain : H → List H → Call E String (Unit {0})
  start_chain queue elements = do
    g.add_many pipeline elements
    g.link_many (queue ∷ elements)
    sync_all g pipeline (queue ∷ elements)

  unfoldable pub video_chain : String → H → Call E String (Unit {0})
  video_chain parser queue = do
    parse ← g.make parser none []
    tee ← g.make "tee" (some output_tee_video) []
    fakesink ← g.make "fakesink" none (("can-activate-pull", flag true) ∷ [])
    start_chain queue (parse ∷ tee ∷ fakesink ∷ [])

  unfoldable pub audio_chain : H → Call E String (Unit {0})
  audio_chain queue = do
    aacparse ← g.make "aacparse" none []
    avdec_aac ← g.make "avdec_aac" none []
    audioconvert ← g.make "audioconvert" none []
    audioresample ← g.make "audioresample" none []
    opusenc ← g.make "opusenc" none []
    tee ← g.make "tee" (some output_tee_audio) []
    fakesink ← g.make "fakesink" none (("can-activate-pull", flag true) ∷ [])
    start_chain queue
        (aacparse ∷ avdec_aac ∷ audioconvert ∷ audioresample ∷ opusenc ∷ tee ∷ fakesink ∷ [])

  -- `build_egress_chain`
  unfoldable pub build_egress_chain : String → H → H → Call E String (Unit {0})
  build_egress_chain media_type video_queue audio_queue = elim (video_parser media_type) [
    | some parser ↦ video_chain parser video_queue
    | none ↦
        if starts_with media_type "audio"
        then audio_chain audio_queue
        else fail ("Unknown media type " ++ media_type)
  ]
