-- ===== src/Tests/Branches.antt =====
-- src/stream/branch.rs and src/stream/gst_pipeline.rs on a pipeline in memory that has video and audio.
use mathlib.Core.Path.{subst}
use srt_whep.Prelude.{
  String, ◌≡◌, refl, sym, ap, inl, inr, true, none, some, [], ◌∷◌, if◌then◌else◌,
}
use srt_whep.Prelude.Results.{Result, ok, err}
use srt_whep.Stream.Errors.{PipelineError}
use srt_whep.Stream.Naming.{whip_sink_name, video_queue_name, audio_queue_name, video_decoder_name}
use srt_whep.Stream.Naming.Given.{IsGiven}
use srt_whep.Stream.Args.{default_args}
use srt_whep.Stream.Branch.{
  any_pad, attach, detach, whip_endpoint, find, make_and_add, sync_all, point_at, attach_video,
  attach_audio, if_media, remove_branch_from_pipeline, remove_by_name, remove_element_from_pipeline,
  remove_queue, unlink_from_tee, release_pad, decimal, whip_sink_path,
}
use srt_whep.Prelude.Text.{starts_with, strip_prefix, replace}
use srt_whep.Stream.Branch.Detach.{
  HoldsQueue, is_of_branch, is_of_branch-IsBranchElement, some-injective, detach_lem,
}
use srt_whep.Stream.GstPipeline.Control.{PipelineWrapper, add_branch, remove_branch, add_to, settle}
use srt_whep.Stream.GstPipeline.{input_ready}
use srt_whep.Stream.GstPipeline.Atomicity.{
  IsNew, Same, Complete, add_branch-Same, add_branch-Complete, remove_branch-add_branch,
}
use srt_whep.Stream.GstPipeline.Survival.{add, remove, run_all}
use srt_whep.Tests.Bin.{Bin, Element, bin, bin-IsLawful, lookup, drop, add_list}

abbrev element : String → String → Element
element factory name = record { factory = factory; name = name }

-- All that adding and removing a branch computes with.
pipeline_calls : Unit {0}
unfolding add_branch add_to settle input_ready any_pad starts_with strip_prefix attach find
    make_and_add sync_all point_at attach_video attach_audio if_media detach
    remove_branch_from_pipeline remove_by_name remove_element_from_pipeline remove_queue
    unlink_from_tee release_pad lookup add_list drop whip_sink_name video_queue_name
    audio_queue_name video_decoder_name whip_endpoint decimal whip_sink_path replace
pipeline_calls = tt

abbrev pipeline : Element
pipeline = element "pipeline" "pipeline0"

-- The input has been demuxed and its tees have been built.
abbrev playing : String → Bin
playing missing = record {
  elements =
      element "tee" "output_tee_audio"
      ∷ element "tee" "output_tee_video"
      ∷ element "tsdemux" "demux"
      ∷ [];
  pads = "video_0_0100" ∷ "audio_0_0101" ∷ [];
  missing = missing;
}

abbrev wrapper : PipelineWrapper Element
wrapper = record { pipeline = some pipeline; main_loop = none; args = default_args "0.0.0.0:1234" }

abbrev free : Bin → Result (Unit {0}) String
free w = ok tt

fresh : (missing : String) → IsNew bin bin-IsLawful pipeline "a" (playing missing)
unfolding lookup whip_sink_name video_queue_name audio_queue_name video_decoder_name
fresh missing k own = elim (is_of_branch-IsBranchElement "a" k own) [
  | inl e ↦ subst Missing (sym e) refl
  | inr (inl e) ↦ subst Missing (sym e) refl
  | inr (inr (inl e)) ↦ subst Missing (sym e) refl
  | inr (inr (inr e)) ↦ subst Missing (sym e) refl
]
  where
    Missing : String → Type 0
    Missing n = lookup n (playing missing).elements ≡ none

added : (add_branch bin free wrapper "a" (playing "")).0 ≡ ok tt
unfolding pipeline_calls
added = refl

-- The queues cannot be made: the whipsink is already there, and is taken out again.
queueless :
    (add_branch bin free wrapper "a" (playing "queue")).0
    ≡ err (PipelineError.fatal "no such element factory")
unfolding pipeline_calls
queueless = refl

endpoint : whip_endpoint 8000 "abc" ≡ "http://localhost:8000/whip_sink/abc"
unfolding whip_endpoint decimal whip_sink_path replace
endpoint = refl

add_branch-Same_example :
    Same bin bin-IsLawful pipeline
      (playing "queue")
      (add_branch bin free wrapper "a" (playing "queue")).1
add_branch-Same_example =
    add_branch-Same bin free wrapper pipeline "a" (playing "queue") bin-IsLawful refl
      (fresh "queue") (PipelineError.fatal "no such element factory") queueless

demuxed : (e : Element) → lookup "demux" (playing "").elements ≡ some e → e.factory ≡ "tsdemux"
unfolding lookup
demuxed e h = ap factory_of (sym (some-injective (element "tsdemux" "demux") e h))
  where
    factory_of : Element → String
    factory_of x = x.factory

add_branch-Complete_example :
    Complete bin free wrapper pipeline "a"
      (playing "")
      bin-IsLawful
      refl
      (fresh "")
      (add_branch bin free wrapper "a" (playing "")).1
add_branch-Complete_example =
    add_branch-Complete bin free wrapper pipeline "a" (playing "") bin-IsLawful refl (fresh "")
      demuxed added

remove_branch-add_branch_example :
    let w' = (add_branch bin free wrapper "a" (playing "")).1 in
    ((remove_branch bin free wrapper "a" w').0 ≡ ok tt)
    × Same bin bin-IsLawful pipeline (playing "") (remove_branch bin free wrapper "a" w').1
remove_branch-add_branch_example =
    remove_branch-add_branch bin free wrapper pipeline "a" (playing "") bin-IsLawful refl (fresh "")
      added refl

attached : (attach bin pipeline 8000 true "a" (playing "")).0 ≡ ok tt
unfolding pipeline_calls
attached = refl

video_queue :
    HoldsQueue bin bin-IsLawful pipeline
      (video_queue_name "a")
      (attach bin pipeline 8000 true "a" (playing "")).1
unfolding pipeline_calls
video_queue e h = ap factory (sym (some-injective (element "queue" "video-queue-a") e h))
  where
    factory : Element → String
    factory x = x.factory

audio_queue :
    HoldsQueue bin bin-IsLawful pipeline
      (audio_queue_name "a")
      (attach bin pipeline 8000 true "a" (playing "")).1
unfolding pipeline_calls
audio_queue e h = ap factory (sym (some-injective (element "queue" "audio-queue-a") e h))
  where
    factory : Element → String
    factory x = x.factory

detach_lem_example :
    let w = (attach bin pipeline 8000 true "a" (playing "")).1 in
    ((detach bin pipeline "a" w).0 ≡ ok tt)
    × ((k : String)
        → IsGiven k
        → lookup k (detach bin pipeline "a" w).1.elements
          ≡ (if is_of_branch "a" k then none else lookup k w.elements))
detach_lem_example =
    detach_lem bin bin-IsLawful pipeline "a" (attach bin pipeline 8000 true "a" (playing "")).1
      video_queue audio_queue

-- The first viewer is added and removed again, and the second one stays.
second_stays :
    lookup "whip-sink-b"
      (run_all bin free wrapper (add "a" ∷ add "b" ∷ remove "a" ∷ []) (playing "")).elements
    ≡ some (element "whipclientsink" "whip-sink-b")
unfolding pipeline_calls run_all remove_branch
second_stays = refl
