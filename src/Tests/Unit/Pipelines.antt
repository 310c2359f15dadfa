-- ===== src/Tests/Unit/Pipelines.antt =====
-- The unit tests of src/stream/pipeline.rs, src/stream/branch.rs and src/stream/egress.rs; the pipeline in
-- memory stands for GStreamer's.
use srt_whep.Prelude.{String, true, false, ◌≡◌, refl, Option, none, some, [], ◌∷◌}
use srt_whep.Prelude.Text.{replace, starts_with, strip_prefix}
use srt_whep.Prelude.Results.{Result, ok, err}
use srt_whep.Stream.Errors.{PipelineError}
use srt_whep.Stream.Naming.{
  output_tee_video, output_tee_audio, video_queue, audio_queue, video_queue_name, audio_queue_name,
  video_decoder_name, whip_sink_name,
}
use srt_whep.Stream.Branch.{
  whip_sink_path, whip_endpoint, decimal, detach, remove_element_from_pipeline, release_pad,
  unlink_from_tee, remove_queue, remove_branch_from_pipeline, remove_by_name, sync_all,
}
use srt_whep.Stream.Egress.{video_parser, start_chain, video_chain, audio_chain, build_egress_chain}
use srt_whep.Stream.TestPipeline
use srt_whep.Stream.TestPipeline.{TestPipeline, default_pipeline}
use srt_whep.Tests.Bin
use srt_whep.Tests.Bin.{Bin, Element, bin, add_list, drop}

abbrev LoopbackPathsDeriveFromTheRouteTemplate : Type 0
LoopbackPathsDeriveFromTheRouteTemplate =
    (whip_sink_path "abc" ≡ "/whip_sink/abc")
    × (whip_endpoint 8000 "abc" ≡ "http://localhost:8000/whip_sink/abc")

loopback_paths : LoopbackPathsDeriveFromTheRouteTemplate
unfolding whip_endpoint whip_sink_path decimal replace
loopback_paths = (refl, refl)

abbrev AddBranchOnANotReadyFakeIsNotReady : Type 0
AddBranchOnANotReadyFakeIsNotReady =
    let (r, p) = TestPipeline.add_branch "a" default_pipeline in
    (r ≡ some (err PipelineError.not_ready)) × (p.state.added ≡ [])

not_ready_fake : AddBranchOnANotReadyFakeIsNotReady
unfolding TestPipeline.add_branch
not_ready_fake = (refl, refl)

abbrev FailedAddBranchLeavesNothingAttachedOnTheFake : Type 0
FailedAddBranchLeavesNothingAttachedOnTheFake =
    let (r, p) = TestPipeline.add_branch "a" (
      TestPipeline.fail_next_add_branch (PipelineError.fatal "attach blew up")
        (TestPipeline.set_ready true default_pipeline)) in
    (r ≡ some (err (PipelineError.fatal "attach blew up"))) × (p.state.added ≡ [])

failed_fake : FailedAddBranchLeavesNothingAttachedOnTheFake
unfolding TestPipeline.add_branch TestPipeline.fail_next_add_branch TestPipeline.set_ready
failed_fake = (refl, refl)

abbrev TestPipelineRecordsCalls : Type 0
TestPipelineRecordsCalls =
    let p = TestPipeline.set_ready true default_pipeline in
    let (a, p1) = TestPipeline.add_branch "a" p in
    let (b, p2) = TestPipeline.remove_branch "a" p1 in
    let (c, p3) = TestPipeline.quit p2 in
    (TestPipeline.ready default_pipeline ≡ ok false)
    × (TestPipeline.ready p ≡ ok true)
    × (a ≡ some (ok tt))
    × (b ≡ some (ok tt))
    × (c ≡ ok tt)
    × (p3.state.added ≡ "a" ∷ [])
    × (p3.state.removed ≡ "a" ∷ [])
    × (p3.state.quit_count ≡ 1)

records_calls : TestPipelineRecordsCalls
unfolding TestPipeline.add_branch TestPipeline.remove_branch TestPipeline.quit
    TestPipeline.set_ready TestPipeline.ready
records_calls = (refl, refl, refl, refl, refl, refl, refl, refl)

abbrev TestPipelineRunParksUntilReleased : Type 0
TestPipelineRunParksUntilReleased =
    let p1 = TestPipeline.start_run default_pipeline in
    let (r2, p2) = TestPipeline.resume_run (TestPipeline.fail_run "boom" p1) in
    let (e, p3) = TestPipeline.end (TestPipeline.start_run p2) in
    let (r4, p4) = TestPipeline.resume_run p3 in
    let (i, p5) = TestPipeline.init p4 in
    let (c, p6) = TestPipeline.clean_up p5 in
    (p1.state.run_count ≡ 1)
    × ((TestPipeline.resume_run p1).0 ≡ none)
    × (r2 ≡ some (err "boom"))
    × (e ≡ ok tt)
    × (r4 ≡ some (ok tt))
    × (i ≡ ok tt)
    × (c ≡ ok tt)
    × (p6.state.init_count ≡ 1)
    × (p6.state.run_count ≡ 2)
    × (p6.state.end_count ≡ 1)
    × (p6.state.cleanup_count ≡ 1)

run_parks : TestPipelineRunParksUntilReleased
unfolding TestPipeline.start_run TestPipeline.resume_run TestPipeline.fail_run TestPipeline.end
    TestPipeline.init TestPipeline.clean_up
run_parks = (refl, refl, refl, refl, refl, refl, refl, refl, refl, refl, refl)

abbrev element : String → String → Element
element factory name = record { factory = factory; name = name }

abbrev pipeline : Element
pipeline = element "pipeline" "pipeline0"

abbrev at : String → Bin → Option Element
at name w = bin.by_name pipeline name w

-- An attach that added its elements but died before linking.
abbrev partial : Bin
partial = record {
  elements =
      element "queue" (video_queue_name "t1")
      ∷ element "identity" (video_decoder_name "t1")
      ∷ element "fakesink" (whip_sink_name "t1")
      ∷ [];
  pads = [];
  missing = "";
}

abbrev DetachAfterAPartialAttachRemovesEverythingItCanReach : Type 0
DetachAfterAPartialAttachRemovesEverythingItCanReach =
    let (r, w) = detach bin pipeline "t1" partial in
    (r ≡ ok tt)
    × (at (video_queue_name "t1") w ≡ none)
    × (at (video_decoder_name "t1") w ≡ none)
    × (at (whip_sink_name "t1") w ≡ none)

partial_detach : DetachAfterAPartialAttachRemovesEverythingItCanReach
unfolding detach remove_element_from_pipeline release_pad unlink_from_tee remove_queue
    remove_branch_from_pipeline remove_by_name video_queue_name audio_queue_name video_decoder_name
    whip_sink_name Bin.lookup drop
partial_detach = (refl, refl, refl, refl)

-- `pipeline_with_queues`
abbrev pipeline_with_queues : Bin
pipeline_with_queues = record {
  elements = element "queue" audio_queue ∷ element "queue" video_queue ∷ [];
  pads = [];
  missing = "";
}

abbrev builds : String → Result (Unit {0}) String × Bin
builds media_type =
    build_egress_chain bin pipeline media_type (element "queue" video_queue)
      (element "queue" audio_queue) pipeline_with_queues

-- The codec table's part of the tests; what the queue's pad is linked to has no place in this pipeline.
abbrev H264IsParsedIntoTheVideoTee : Type 0
H264IsParsedIntoTheVideoTee =
    let (r, w) = builds "video/x-h264" in
    (r ≡ ok tt)
    × (at output_tee_video w ≡ some (element "tee" output_tee_video))
    × (at output_tee_audio w ≡ none)
    × (video_parser "video/x-h264" ≡ some "h264parse")

abbrev H265SwapsOnlyTheParser : Type 0
H265SwapsOnlyTheParser =
    let (r, w) = builds "video/x-h265" in
    (r ≡ ok tt)
    × (at output_tee_video w ≡ some (element "tee" output_tee_video))
    × (video_parser "video/x-h265" ≡ some "h265parse")

abbrev AudioIsTranscodedIntoTheAudioTee : Type 0
AudioIsTranscodedIntoTheAudioTee =
    let (r, w) = builds "audio/mpeg" in
    (r ≡ ok tt)
    × (at output_tee_audio w ≡ some (element "tee" output_tee_audio))
    × (at output_tee_video w ≡ none)

abbrev UnknownMediaIsAnErrorAndBuildsNothing : Type 0
UnknownMediaIsAnErrorAndBuildsNothing =
    let (r, w) = builds "text/x-raw" in
    (r ≡ err "Unknown media type text/x-raw")
    × (at output_tee_video w ≡ none)
    × (at output_tee_audio w ≡ none)
    × (w ≡ pipeline_with_queues)

computes : Unit {0}
unfolding build_egress_chain video_parser video_chain audio_chain start_chain sync_all add_list
    Bin.lookup starts_with strip_prefix
computes = tt

h264 : H264IsParsedIntoTheVideoTee
unfolding computes
h264 = (refl, refl, refl, refl)

h265 : H265SwapsOnlyTheParser
unfolding computes
h265 = (refl, refl, refl)

audio : AudioIsTranscodedIntoTheAudioTee
unfolding computes
audio = (refl, refl, refl)

unknown_media : UnknownMediaIsAnErrorAndBuildsNothing
unfolding computes
unknown_media = (refl, refl, refl, refl)
