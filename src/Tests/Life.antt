-- ===== src/Tests/Life.antt =====
-- The lifecycle of src/stream/gst_pipeline.rs and the chains of src/stream/egress.rs on a pipeline in memory.
use srt_whep.Prelude.{String, ◌≡◌, refl, inl, Bool, true, none, some, [], ◌∷◌}
use srt_whep.Prelude.Text.{starts_with, strip_prefix}
use srt_whep.Prelude.Results.{Result, ok}
use srt_whep.Stream.Naming.{demux, branch_id_from_name}
use srt_whep.Stream.Naming.Classification.{core_names_unclassified}
use srt_whep.Stream.Naming.Given
use srt_whep.Stream.Args.{default_args, to_str, reverse}
use srt_whep.Stream.Gst.{first, later}
use srt_whep.Stream.Branch.{sync_all}
use srt_whep.Stream.Egress.{video_parser, start_chain, video_chain, audio_chain, build_egress_chain}
use srt_whep.Stream.GstPipeline.Readiness.{here, later}
use srt_whep.Stream.GstPipeline.Control.{PipelineWrapper, initial, ready}
use srt_whep.Stream.GstPipeline.Callbacks.{link_each, no_more_pads}
use srt_whep.Stream.GstPipeline.Lifecycle.{
  create, discover_input, equip, run_discoverer, srt_uri, create_custom_queue, connect, build, init,
  start_run, clean_up,
}
use srt_whep.Stream.GstPipeline.Linked.{NamesMedia, no_more_pads-ready}
use srt_whep.Stream.GstPipeline.Restarts.{Setup, init-Setup, Refuses, clean_up-Refuses}
use srt_whep.Stream.GstPipeline.Survival.{add, remove, run_all, run_all-core}
use srt_whep.Tests.Bin.{Bin, Element, bin, bin-IsLawful, lookup, add_list}

abbrev element : String → String → Element
element factory name = record { factory = factory; name = name }

abbrev pipeline : Element
pipeline = element "pipeline" "pipeline0"

-- The chains have been linked as well.
abbrev linked_up : Bin
linked_up = record {
  elements =
      element "tee" "output_tee_audio"
      ∷ element "tee" "output_tee_video"
      ∷ element "tsdemux" "demux"
      ∷ [];
  pads = "video_0_0100" ∷ "audio_0_0101" ∷ [];
  missing = "";
}

-- The input has been set up and demuxed, and no chain has been linked.
abbrev ingest : Bin
ingest = record {
  elements =
      element "queue" "video-queue"
      ∷ element "queue" "audio-queue"
      ∷ element "tsdemux" "demux"
      ∷ [];
  pads = "video_0_0100" ∷ "audio_0_0101" ∷ [];
  missing = "";
}

abbrev empty : Bin
empty = record { elements = []; pads = []; missing = "" }

abbrev wrapper : PipelineWrapper Element
wrapper = record (initial (default_args "0.0.0.0:1234")) { pipeline = some pipeline }

abbrev free : Bin → Result (Unit {0}) String
free w = ok tt

names : NamesMedia bin bin-IsLawful pipeline (element "tsdemux" "demux") ingest
unfolding starts_with strip_prefix
names = record {
  video_pad = λ x. (element "pad" "video_0_0100", "video/x-h264", first, refl, refl);
  audio_pad = λ x. (element "pad" "audio_0_0101", "audio/mpeg", later first, refl, refl);
}

abbrev announced : Bool × Bin
announced =
    no_more_pads bin pipeline (element "queue" "video-queue") (element "queue" "audio-queue")
      (element "tsdemux" "demux") ingest

linked : (announced).0 ≡ true
unfolding no_more_pads link_each build_egress_chain video_parser video_chain audio_chain start_chain
    sync_all starts_with strip_prefix add_list lookup
linked = refl

at_demux : lookup demux ingest.elements ≡ some (element "tsdemux" "demux")
unfolding lookup
at_demux = refl

no_more_pads-ready_example : ready bin free wrapper (announced).1 ≡ ok true
no_more_pads-ready_example =
    no_more_pads-ready bin bin-IsLawful pipeline free wrapper (element "queue" "video-queue")
      (element "queue" "audio-queue") (element "tsdemux" "demux") ingest refl at_demux refl names
      (inl (here "_0_0100")) linked refl

init-Setup_example :
    Setup bin free
      (initial (default_args "0.0.0.0:1234"))
      empty
      bin-IsLawful
      (init bin free (initial (default_args "0.0.0.0:1234"), empty))
init-Setup_example = init-Setup bin free (initial (default_args "0.0.0.0:1234")) empty bin-IsLawful

-- The set-up does succeed there.
set_up : (init bin free (initial (default_args "0.0.0.0:1234"), empty)).0 ≡ ok tt
unfolding init build equip create discover_input run_discoverer srt_uri to_str reverse
    create_custom_queue connect add_list lookup
set_up = refl

cleaned : (clean_up bin free (wrapper, ingest)).0 ≡ ok tt
unfolding clean_up
cleaned = refl

clean_up-Refuses_example :
    Refuses bin free wrapper ingest (clean_up bin free (wrapper, ingest)).1.0 "a" ingest
clean_up-Refuses_example = clean_up-Refuses bin free wrapper ingest cleaned "a" ingest refl

started : (start_run bin free (wrapper, ingest)).0 ≡ ok (element "loop" "loop0")
unfolding start_run
started = refl

core : branch_id_from_name demux ≡ none
core = core_names_unclassified.0

run_all-core_example :
    lookup demux (run_all bin free wrapper (add "a" ∷ add "b" ∷ remove "a" ∷ []) linked_up).elements
    ≡ lookup demux linked_up.elements
run_all-core_example =
    run_all-core bin free wrapper bin-IsLawful pipeline refl demux Given.at_demux core
      (add "a" ∷ add "b" ∷ remove "a" ∷ []) linked_up
