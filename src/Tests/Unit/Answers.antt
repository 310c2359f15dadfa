-- ===== src/Tests/Unit/Answers.antt =====
-- The unit tests of src/signal/errors.rs and src/signal/watchdog.rs.
use srt_whep.Prelude.{ℕ, String, Bool, true, false, ◌≡◌, refl, List, [], ◌∷◌}
use srt_whep.Prelude.Text.{contains, starts_with, strip_prefix}
use srt_whep.Domain.{SdpError}
use srt_whep.Stream.Errors.{PipelineError}
use srt_whep.Signal.Errors.{
  SignalError, status_code, http_contract, error_response, message, from_pipeline, from_sdp,
}
use srt_whep.Signal.Watchdog.{Watchdog, new, record_failure, record_success}
use srt_whep.Signal.Coordinator.Config.{from_secs}

abbrev StatusCodesMatchTheApiContract : Type 0
StatusCodesMatchTheApiContract =
    (status_code (SignalError.invalid_sdp "x") ≡ 400)
    × (status_code (SignalError.not_found "x") ≡ 404)
    × (status_code (SignalError.gone "x") ≡ 410)
    × (status_code (SignalError.wrong_state "x") ≡ 409)
    × (status_code (SignalError.timeout "SDP offer") ≡ 503)
    × (status_code SignalError.not_ready ≡ 503)
    × (status_code SignalError.unavailable ≡ 500)
    × (status_code (SignalError.pipeline "x") ≡ 500)

status_codes : StatusCodesMatchTheApiContract
unfolding status_code http_contract
status_codes = (refl, refl, refl, refl, refl, refl, refl, refl)

abbrev headers : SignalError → List (String × String)
headers e = (error_response e).headers

abbrev retry_after : List (String × String)
retry_after = ("Retry-After", "3") ∷ []

abbrev RetriableErrorsCarryRetryAfter : Type 0
RetriableErrorsCarryRetryAfter =
    (headers SignalError.not_ready ≡ retry_after)
    × (headers (SignalError.timeout "SDP answer") ≡ retry_after)
    × (headers (SignalError.not_found "x") ≡ [])
    × (headers (SignalError.gone "x") ≡ [])

retriable : RetriableErrorsCarryRetryAfter
unfolding error_response http_contract
retriable = (refl, refl, refl, refl)

abbrev PipelineErrorsMapToRetryableOrFatalStatuses : Type 0
PipelineErrorsMapToRetryableOrFatalStatuses =
    let not_ready = from_pipeline PipelineError.not_ready in
    let transient = from_pipeline (PipelineError.transient "lock timed out") in
    let fatal = from_pipeline (PipelineError.fatal "demux vanished") in
    (status_code not_ready ≡ 503)
    × (headers not_ready ≡ retry_after)
    × (status_code transient ≡ 503)
    × (headers transient ≡ retry_after)
    × (contains (message transient) "lock timed out" ≡ true)
    × (status_code fatal ≡ 500)
    × (headers fatal ≡ [])
    × (contains (message fatal) "demux vanished" ≡ true)

pipeline_errors : PipelineErrorsMapToRetryableOrFatalStatuses
unfolding from_pipeline status_code error_response http_contract message contains starts_with
    strip_prefix
pipeline_errors = (refl, refl, refl, refl, refl, refl, refl, refl)

abbrev SdpParseErrorsMapWithoutDoublePrefix : Type 0
SdpParseErrorsMapWithoutDoublePrefix =
    let e = from_sdp (SdpError.invalid_sdp "v=1 unsupported") in
    (status_code e ≡ 400) × (message e ≡ "Invalid SDP: v=1 unsupported")

sdp_errors : SdpParseErrorsMapWithoutDoublePrefix
unfolding status_code http_contract message
sdp_errors = (refl, refl)

-- The answers to failures at these times, in seconds, one after the other.
abbrev fails : List ℕ → Watchdog → List Bool
fails [] dog = []
fails (t ∷ times) dog =
    let (tripped, dog') = record_failure (from_secs t) dog in tripped ∷ fails times dog'

abbrev TripsAtThresholdWithinWindowAndResets : Type 0
TripsAtThresholdWithinWindowAndResets =
    fails (0 ∷ 0 ∷ 0 ∷ 0 ∷ []) (new 3 (from_secs 60)) ≡ false ∷ false ∷ true ∷ false ∷ []

trips : TripsAtThresholdWithinWindowAndResets
unfolding new record_failure
trips = refl

abbrev SuccessResetsTheCounter : Type 0
SuccessResetsTheCounter =
    let (first, dog) = record_failure 0 (new 2 (from_secs 60)) in
    (first ≡ false) × (fails (0 ∷ 0 ∷ []) (record_success dog) ≡ false ∷ true ∷ [])

success_resets : SuccessResetsTheCounter
unfolding new record_failure record_success
success_resets = (refl, refl)

abbrev FailuresSpreadBeyondTheWindowNeverAccumulate : Type 0
FailuresSpreadBeyondTheWindowNeverAccumulate =
    fails (0 ∷ 61 ∷ 122 ∷ 183 ∷ []) (new 3 (from_secs 60)) ≡ false ∷ false ∷ false ∷ false ∷ []

spread : FailuresSpreadBeyondTheWindowNeverAccumulate
unfolding new record_failure
spread = refl

abbrev ABurstWithinTheWindowStillTrips : Type 0
ABurstWithinTheWindowStillTrips =
    fails (0 ∷ 10 ∷ 20 ∷ []) (new 3 (from_secs 60)) ≡ false ∷ false ∷ true ∷ []

burst : ABurstWithinTheWindowStillTrips
unfolding new record_failure
burst = refl
