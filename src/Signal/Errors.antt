-- ===== src/Signal/Errors.antt =====
-- src/signal/errors.rs: the signalling errors, and the HTTP answer that each one gets.
pub mod Contract
use Prim.Native.String.{◌++◌}
use srt_whep.Prelude.{ℕ, String, Option, none, some, List, [], ◌∷◌}
use srt_whep.Domain.{SdpError, sdp_error_message}
use srt_whep.Stream.Errors.{PipelineError}

pub data SignalError : Type 0 where
  invalid_sdp : String → SignalError
  sdp : SdpError → SignalError
  not_found : String → SignalError
  gone : String → SignalError
  wrong_state : String → SignalError
  timeout : String → SignalError
  not_ready : SignalError
  pipeline_busy : String → SignalError
  unavailable : SignalError
  pipeline : String → SignalError

-- The `Display` of the error.
unfoldable pub message : SignalError → String
message (invalid_sdp s) = "Invalid SDP: " ++ s
message (sdp e) = sdp_error_message e
message (not_found id) = "Connection " ++ (id ++ " not found")
message (gone id) = "Connection " ++ (id ++ " is gone")
message (wrong_state id) = "Connection " ++ (id ++ " is in the wrong state for this operation")
message (timeout what) = "Timed out waiting for the " ++ what
message not_ready = "Input stream is not ready"
message (pipeline_busy s) = "Pipeline is busy: " ++ s
message unavailable = "Signaling coordinator is unavailable"
message (pipeline s) = "Pipeline operation failed: " ++ s

-- `SignalError::http_contract`: the status, and the Retry-After.
unfoldable pub http_contract : SignalError → ℕ × Option String
http_contract (invalid_sdp s) = (400, none)
http_contract (sdp e) = (400, none)
http_contract (not_found id) = (404, none)
http_contract (gone id) = (410, none)
http_contract (wrong_state id) = (409, none)
http_contract (timeout what) = (503, some "3")
http_contract not_ready = (503, some "3")
http_contract (pipeline_busy s) = (503, some "3")
http_contract unavailable = (500, none)
http_contract (pipeline s) = (500, none)

unfoldable pub status_code : SignalError → ℕ
status_code e = (http_contract e).0

-- What a handler gives to the response builder of the HTTP library.
pub record HttpResponse : Type 0 where
  pub status : ℕ
  pub headers : List (String × String)
  pub body : String

unfoldable pub error_response : SignalError → HttpResponse
error_response e =
    let (status, retry_after) = http_contract e in
    record {
      status = status;
      headers = elim retry_after [ some seconds ↦ ("Retry-After", seconds) ∷ [] | none ↦ [] ];
      body = message e;
    }

-- `From<PipelineError> for SignalError`
unfoldable pub from_pipeline : PipelineError → SignalError
from_pipeline PipelineError.not_ready = not_ready
from_pipeline (PipelineError.transient msg) = pipeline_busy msg
from_pipeline (PipelineError.fatal msg) = pipeline msg

-- `#[from] SdpError`
abbrev pub from_sdp : SdpError → SignalError
from_sdp e = sdp e
