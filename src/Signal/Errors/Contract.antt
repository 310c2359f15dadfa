-- ===== src/Signal/Errors/Contract.antt =====
-- The HTTP contract of src/signal/errors.rs as its clients read it.
use Prim.Native.String.{◌++◌}
use srt_whep.Prelude.{String, ◌≡◌, refl, ◌≢◌, true, ◌⊎◌, inl, inr, [], ◌∷◌, arith}
use text.Mathlib.TextLemmas.{append-nil}
use srt_whep.Stream.Errors.{PipelineError}
use srt_whep.Prelude.Text.{contains, contains_complete, starts_with, strip_prefix}
use mathlib.Core.Path.{subst}
use srt_whep.Signal.Errors.{
  SignalError, message, http_contract, status_code, error_response, from_pipeline,
}

-- The failures after which the same request may succeed.
abbrev pub IsRetryable : SignalError → Type 0
IsRetryable (SignalError.timeout what) = Unit {0}
IsRetryable SignalError.not_ready = Unit {0}
IsRetryable (SignalError.pipeline_busy s) = Unit {0}
IsRetryable _ = ⊥

-- A retryable error is answered by 503 with the header Retry-After: 3; every other error by another
-- status and no header at all.
pub error_response_retry :
    (e : SignalError)
    → (IsRetryable e
        × ((error_response e).status ≡ 503)
        × ((error_response e).headers ≡ ("Retry-After", "3") ∷ []))
      ⊎ ((¬ IsRetryable e) × ((error_response e).status ≢ 503) × ((error_response e).headers ≡ []))
unfolding error_response http_contract
error_response_retry (SignalError.timeout what) = inl (tt, refl, refl)
error_response_retry SignalError.not_ready = inl (tt, refl, refl)
error_response_retry (SignalError.pipeline_busy s) = inl (tt, refl, refl)
error_response_retry _ = inr (λ h. h, omega arith, refl)

-- The detail of a pipeline failure, where it has one.
abbrev pub detail : PipelineError → String
detail PipelineError.not_ready = ""
detail (PipelineError.transient msg) = msg
detail (PipelineError.fatal msg) = msg

abbrev pub IsFatal : PipelineError → Type 0
IsFatal (PipelineError.fatal msg) = Unit {0}
IsFatal _ = ⊥

message_detail : (before msg : String) → contains (before ++ msg) msg ≡ true
message_detail before msg =
    subst (λ t. contains (before ++ t) msg ≡ true) (append-nil msg)
      (contains_complete before msg "")

-- Crossing from the stream plane to the signalling plane keeps whether a retry is worth while: the
-- answer is 503 unless the failure was fatal, then it is 500, and its body holds the failure's detail.
pub from_pipeline_policy :
    (e : PipelineError)
    → ((IsFatal e × (status_code (from_pipeline e) ≡ 500))
        ⊎ ((¬ IsFatal e) × (status_code (from_pipeline e) ≡ 503)))
      × (contains (error_response (from_pipeline e)).body (detail e) ≡ true)
unfolding from_pipeline status_code http_contract error_response message contains starts_with
    strip_prefix
from_pipeline_policy PipelineError.not_ready = (inr (λ h. h, refl), refl)
from_pipeline_policy (PipelineError.transient msg) =
    (inr (λ h. h, refl), message_detail "Pipeline is busy: " msg)
from_pipeline_policy (PipelineError.fatal msg) =
    (inl (tt, refl), message_detail "Pipeline operation failed: " msg)
