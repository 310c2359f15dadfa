-- ===== src/Tests/Media.antt =====
-- src/stream at the names and messages of its own tests.
use Prim.Native.String.{◌++◌}
use srt_whep.Prelude.{◌≡◌, refl, ◌↔◌, some, none}
use srt_whep.Prelude.Text.{strip_prefix}
use srt_whep.Stream.Naming.{
  branch_id_from_name, whip_sink_name, video_queue_name, audio_queue_name, video_decoder_name,
}
use srt_whep.Stream.Naming.Classification.{IsBranchElement, branch_id_from_name_iff}
use srt_whep.Stream.Bus.{
  Object, top, within, error, quit, reap_branch, ignore, other, eos, classify_bus_message,
}
use srt_whep.Stream.Bus.Containment.{OwnedBy, IsFatal, reap_branch_iff, quit_iff}
use srt_whep.Prelude.Results.{Result, ok, err}
use srt_whep.Prelude.{Option, ◌⊎◌, String, ◌||◌, str_eq, true, false, [], ◌∷◌}
use srt_whep.Prelude.Text.{starts_with}
use srt_whep.Stream.Errors.{PipelineError}
use srt_whep.Stream.Naming.{demux}
use srt_whep.Stream.Branch.{any_pad}
use srt_whep.Stream.GstPipeline.{View, input_ready, ready}
use srt_whep.Stream.GstPipeline.Readiness.{IsLinkable, ready-IsLinkable}

-- `branch_names_derive_from_one_convention`
names :
    (whip_sink_name "abc" ≡ "whip-sink-abc")
    × (video_queue_name "abc" ≡ "video-queue-abc")
    × (audio_queue_name "abc" ≡ "audio-queue-abc")
    × (video_decoder_name "abc" ≡ "avdec-h264-abc")
unfolding whip_sink_name video_queue_name audio_queue_name video_decoder_name
names = (refl, refl, refl, refl)

abbrev nested : Object
nested = within "some-internal-element" (top "whip-sink-abc")

-- `error_nested_inside_a_branch_walks_up_to_its_branch`, and messages that are no error.
messages :
    (classify_bus_message (error (some nested)) ≡ reap_branch (record { id = "abc" }))
    × (classify_bus_message (error (some (top "video-queue"))) ≡ quit)
    × (classify_bus_message other ≡ ignore)
    × (classify_bus_message eos ≡ quit)
unfolding classify_bus_message branch_id_from_name strip_prefix
messages = (refl, refl, refl, refl)

branch_id_from_name_iff_example :
    (branch_id_from_name "video-queue-abc" ≡ some "abc") ↔ IsBranchElement "abc" "video-queue-abc"
branch_id_from_name_iff_example = branch_id_from_name_iff "video-queue-abc" "abc"

reap_branch_iff_example :
    (classify_bus_message (error (some nested)) ≡ reap_branch (record { id = "abc" }))
    ↔ ((o : Object) × (error (some nested) ≡ error (some o)) × OwnedBy "abc" o)
reap_branch_iff_example = reap_branch_iff (error (some nested)) "abc"

quit_iff_example : (classify_bus_message (error none) ≡ quit) ↔ IsFatal (error none)
quit_iff_example = quit_iff (error none)

-- A stream with video and audio whose audio tee is still to be built.
abbrev halfway : View
halfway = record {
  has = λ name. str_eq name "demux" || str_eq name "output_tee_video";
  demux_pads = "video_0_0100" ∷ "audio_0_0101" ∷ [];
}

abbrev locked : Result (Option View) String
locked = ok (some halfway)

halfway_waits : ready locked ≡ ok false
unfolding ready input_ready any_pad starts_with strip_prefix
halfway_waits = refl

ready-IsLinkable_example :
    ((ready locked ≡ ok true) ↔ ((p : View) × (locked ≡ ok (some p)) × IsLinkable p))
    × ((e : PipelineError)
        → ready locked ≡ err e
        → ((msg : String) × (locked ≡ err msg) × (e ≡ PipelineError.transient msg))
          ⊎ ((p : View) × (locked ≡ ok (some p))
              × (p.has demux ≡ false)
              × (e ≡ PipelineError.fatal ("Failed to find element: " ++ demux))))
ready-IsLinkable_example = ready-IsLinkable locked
