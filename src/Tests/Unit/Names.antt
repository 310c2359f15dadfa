-- ===== src/Tests/Unit/Names.antt =====
-- The unit tests of src/stream/naming.rs, src/stream/bus.rs and src/domain/session_description.rs.
use srt_whep.Prelude.{String, true, false, ◌≡◌, ◌≢◌, refl, none, some, List, [], ◌∷◌, All}
use srt_whep.Prelude.Text.{strip_prefix, starts_with, contains, trim_is_empty}
use srt_whep.Prelude.Results.{Result, ok}
use srt_whep.Domain.{
  parse_description, is_sendonly, parse_offer, parse_answer, offer_is_sendonly, answer_is_sendonly,
  SdpOffer, SdpAnswer, SdpError,
}
use srt_whep.Domain.Samples.{valid_whip_offer, valid_whep_answer}
use srt_whep.Stream.Naming.{
  demux, video_queue, audio_queue, output_tee_video, output_tee_audio, srt_source, BranchId,
  whip_sink_name, video_queue_name, audio_queue_name, video_decoder_name, branch_id_from_name,
}
use srt_whep.Stream.Bus.{
  top, within, Message, eos, error, other, quit, reap_branch, ignore, classify_bus_message,
}

abbrev BranchNamesDeriveFromOneConvention : Type 0
BranchNamesDeriveFromOneConvention =
    (whip_sink_name "abc" ≡ "whip-sink-abc")
    × (video_queue_name "abc" ≡ "video-queue-abc")
    × (audio_queue_name "abc" ≡ "audio-queue-abc")
    × (video_decoder_name "abc" ≡ "avdec-h264-abc")

names_derive : BranchNamesDeriveFromOneConvention
unfolding whip_sink_name video_queue_name audio_queue_name video_decoder_name
names_derive = (refl, refl, refl, refl)

abbrev branch_names : List String
branch_names =
    whip_sink_name "abc"
    ∷ video_queue_name "abc"
    ∷ audio_queue_name "abc"
    ∷ video_decoder_name "abc"
    ∷ []

abbrev core_names : List String
core_names =
    demux ∷ video_queue ∷ audio_queue ∷ output_tee_video ∷ output_tee_audio ∷ srt_source ∷ []

abbrev EveryBranchElementMapsBackToItsId : Type 0
EveryBranchElementMapsBackToItsId = All (λ name. branch_id_from_name name ≡ some "abc") branch_names

elements_map_back : EveryBranchElementMapsBackToItsId
unfolding branch_id_from_name strip_prefix whip_sink_name video_queue_name audio_queue_name
    video_decoder_name
elements_map_back = (refl, (refl, (refl, (refl, tt))))

abbrev CoreElementNamesNeverClassifyAsABranch : Type 0
CoreElementNamesNeverClassifyAsABranch = All (λ name. branch_id_from_name name ≡ none) core_names

core_unclassified : CoreElementNamesNeverClassifyAsABranch
unfolding branch_id_from_name strip_prefix
core_unclassified = (refl, (refl, (refl, (refl, (refl, (refl, tt))))))

-- `error_from(&named_bin(name))`
abbrev error_from : String → Message
error_from name = error (some (top name))

abbrev abc : BranchId
abc = record { id = "abc" }

abbrev BranchElementErrorReapsOnlyThatBranch : Type 0
BranchElementErrorReapsOnlyThatBranch =
    classify_bus_message (error_from (video_queue_name "abc")) ≡ reap_branch abc

branch_error : BranchElementErrorReapsOnlyThatBranch
unfolding classify_bus_message branch_id_from_name strip_prefix video_queue_name
branch_error = refl

abbrev ErrorNestedInsideABranchWalksUpToItsBranch : Type 0
ErrorNestedInsideABranchWalksUpToItsBranch =
    classify_bus_message
      (error (some (within "some-internal-element" (top (whip_sink_name "abc")))))
    ≡ reap_branch abc

nested_error : ErrorNestedInsideABranchWalksUpToItsBranch
unfolding classify_bus_message branch_id_from_name strip_prefix whip_sink_name
nested_error = refl

abbrev CoreElementErrorIsFatal : Type 0
CoreElementErrorIsFatal = classify_bus_message (error_from video_queue) ≡ quit

core_error : CoreElementErrorIsFatal
unfolding classify_bus_message branch_id_from_name strip_prefix
core_error = refl

abbrev ErrorWithoutASourceIsFatal : Type 0
ErrorWithoutASourceIsFatal = classify_bus_message (error none) ≡ quit

sourceless_error : ErrorWithoutASourceIsFatal
unfolding classify_bus_message
sourceless_error = refl

abbrev EosQuits : Type 0
EosQuits = classify_bus_message eos ≡ quit

end_of_stream : EosQuits
unfolding classify_bus_message
end_of_stream = refl

abbrev OtherMessagesAreIgnored : Type 0
OtherMessagesAreIgnored = classify_bus_message other ≡ ignore

other_message : OtherMessagesAreIgnored
unfolding classify_bus_message
other_message = refl

abbrev ContainmentScopeHoldsAtTheHierarchyLevel : Type 0
ContainmentScopeHoldsAtTheHierarchyLevel =
    All (λ name. classify_bus_message (error_from name) ≡ quit) core_names
    × All (λ name. classify_bus_message (error_from name) ≡ reap_branch abc) branch_names

containment : ContainmentScopeHoldsAtTheHierarchyLevel
unfolding classify_bus_message branch_id_from_name strip_prefix whip_sink_name video_queue_name
    audio_queue_name video_decoder_name
containment =
    ((refl, (refl, (refl, (refl, (refl, (refl, tt)))))), (refl, (refl, (refl, (refl, tt)))))

-- `assert_err!`
abbrev IsErr : {A : Type 0} → Result A SdpError → Type 0
IsErr {A} r = (a : A) → r ≢ ok a

abbrev WhitespaceOnlySdpAreRejected : Type 0
WhitespaceOnlySdpAreRejected = IsErr (parse_description " ")

abbrev EmptyStringIsRejected : Type 0
EmptyStringIsRejected = IsErr (parse_description "")

abbrev SdpNotStartingWithV0IsRejected : Type 0
SdpNotStartingWithV0IsRejected = IsErr (parse_description "v=1")

abbrev SdpNotContainingASendonlyOrRecvonlyIsRejected : Type 0
SdpNotContainingASendonlyOrRecvonlyIsRejected = IsErr (parse_description "v=0")

rejected :
    WhitespaceOnlySdpAreRejected × EmptyStringIsRejected × SdpNotStartingWithV0IsRejected
    × SdpNotContainingASendonlyOrRecvonlyIsRejected
unfolding parse_description trim_is_empty starts_with contains strip_prefix
rejected = (λ a e. cc e, λ a e. cc e, λ a e. cc e, λ a e. cc e)

abbrev ValidSdpsAreParsedSuccessfully : Type 0
ValidSdpsAreParsedSuccessfully =
    (parse_description valid_whip_offer ≡ ok (record { text = valid_whip_offer }))
    × (parse_description valid_whep_answer ≡ ok (record { text = valid_whep_answer }))

parsed : ValidSdpsAreParsedSuccessfully
unfolding parse_description trim_is_empty starts_with contains strip_prefix
parsed = (refl, refl)

abbrev offer : SdpOffer
offer = record { sdp = record { text = valid_whip_offer } }

abbrev answer : SdpAnswer
answer = record { sdp = record { text = valid_whep_answer } }

abbrev OfferRequiresSendonly : Type 0
OfferRequiresSendonly =
    (parse_offer valid_whip_offer ≡ ok offer)
    × (offer_is_sendonly offer ≡ true)
    × IsErr (parse_offer valid_whep_answer)

abbrev AnswerRequiresRecvonly : Type 0
AnswerRequiresRecvonly =
    (parse_answer valid_whep_answer ≡ ok answer)
    × (answer_is_sendonly answer ≡ false)
    × IsErr (parse_answer valid_whip_offer)

abbrev DirectionNewtypesRejectMalformedSdp : Type 0
DirectionNewtypesRejectMalformedSdp = IsErr (parse_offer "v=1") × IsErr (parse_answer "")

directions : OfferRequiresSendonly × AnswerRequiresRecvonly × DirectionNewtypesRejectMalformedSdp
unfolding parse_offer parse_answer parse_description is_sendonly trim_is_empty starts_with contains
    strip_prefix
directions = ((refl, refl, λ a e. cc e), (refl, refl, λ a e. cc e), (λ a e. cc e, λ a e. cc e))
