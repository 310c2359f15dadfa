-- ===== src/Stream/GstPipeline/Callbacks.antt =====
-- The callbacks that `init` of src/stream/gst_pipeline.rs connects to the demuxer, as functions of the
-- pads that GStreamer announces. They keep a weak reference to the pipeline.
use srt_whep.Prelude.{String, Bool, true, false, none, some, List, [], ◌∷◌, if◌then◌else◌}
use Prim.Native.String.{◌++◌}
use srt_whep.Prelude.Text.{starts_with}
use srt_whep.Prelude.Results.{ok, err}
use srt_whep.Prelude.Calls.{Call, return, ◌>>=◌, ◌>>◌}
use srt_whep.Stream.Naming.{video_queue, audio_queue}
use srt_whep.Stream.Gst.{Gst}
use srt_whep.Stream.Branch.{find}
use srt_whep.Stream.Egress.{build_egress_chain}

module _ {E H : Type 0} (g : Gst E H) (pipeline : H) where
  -- The closure of `foreach_src_pad`, on each pad in turn until it answers false.
  unfoldable pub link_each : H → H → List H → E → Bool × E
  link_each video audio [] w = (true, w)
  link_each video audio (pad ∷ pads) w = elim (g.media_type pad w) [
    | none ↦ (false, w)
    | some media_type ↦
        let (linked, w') = build_egress_chain g pipeline media_type video audio w in
        elim linked [ ok _ ↦ link_each video audio pads w' | err e ↦ (false, w') ]
  ]

  -- The callback of `no-more-pads`; the answer, whether all is linked, is only logged.
  unfoldable pub no_more_pads : H → H → H → E → Bool × E
  no_more_pads video audio source w =
      if g.is_alive pipeline w then link_each video audio (g.src_pads source w) w else (false, w)

  -- `queue.static_pad("sink")`, or the error that names it.
  unfoldable pub sink_of : String → H → Call E String H
  sink_of queue_name queue w = elim (g.sink_pad queue w) [
    | none ↦ (err ("Failed to find element: " ++ (queue_name ++ "'s sink pad")), w)
    | some pad ↦ (ok pad, w)
  ]

  -- One half of `insert_sink`: the new pad is linked to an ingest queue.
  unfoldable pub insert_into : String → H → Call E String (Unit {0})
  insert_into queue_name src_pad = do
    queue ← find g pipeline queue_name
    sink_pad ← sink_of queue_name queue
    g.link_pads src_pad sink_pad

  unfoldable pub insert_sink : Bool → Bool → H → Call E String (Unit {0})
  insert_sink is_audio is_video src_pad = do
    if is_audio then insert_into audio_queue src_pad else return tt
    if is_video then insert_into video_queue src_pad else return tt

  -- The callback of `pad-added`; a failure is only logged.
  unfoldable pub pad_added : H → E → E
  pad_added src_pad w =
      if g.is_alive pipeline w
      then elim (g.media_type src_pad w) [
        | none ↦ w
        | some name ↦
            (insert_sink (starts_with name "audio/") (starts_with name "video/") src_pad w).1
      ]
      else w
