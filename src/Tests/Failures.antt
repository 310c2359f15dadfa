-- ===== src/Tests/Failures.antt =====
-- src/signal/watchdog.rs and src/signal/errors.rs at inputs of their own tests.
use Prim.Native.Nat.{◌%◌}
use srt_whep.Prelude.{◌+◌, ◌<◌, ◌≡◌, refl, ◌≢◌, ◌⊎◌, ◌↔◌, true, false, List, [], ◌∷◌, arith}
use srt_whep.Prelude.Text.{contains}
use srt_whep.Stream.Errors.{PipelineError}
use srt_whep.Signal.Watchdog.{record_failure, new, u32_suc}
use srt_whep.Signal.Watchdog.Bursts.{
  Event, failed, streak, lived, record_failure_trips_iff, lived-lt-threshold,
}
use srt_whep.Signal.Errors.{SignalError, error_response, status_code, from_pipeline}
use srt_whep.Signal.Errors.Contract.{
  IsRetryable, IsFatal, detail, error_response_retry, from_pipeline_policy,
}

abbrev two_failures : List Event
two_failures = failed 20 ∷ failed 10 ∷ []

-- `trips_at_threshold_within_window_and_resets`, and failures too far apart.
trips :
    ((record_failure 30 (lived 3 60 two_failures)).0 ≡ true)
    × ((record_failure 40 (lived 3 60 (failed 30 ∷ two_failures))).0 ≡ false)
    × ((record_failure 90 (lived 3 60 two_failures)).0 ≡ false)
unfolding record_failure lived new
trips = (refl, refl, refl)

record_failure_trips_iff_example :
    ((record_failure 30 (lived 3 60 two_failures)).0 ≡ true)
    ↔ (streak 60 (failed 30 ∷ two_failures) % 3 ≡ 0)
record_failure_trips_iff_example =
    record_failure_trips_iff 3 60 (omega arith) (omega arith) two_failures 30

lived-lt-threshold_example :
    ((lived 3 60 two_failures).consecutive_failures < 3)
    × (u32_suc (lived 3 60 two_failures).consecutive_failures
        ≡ (lived 3 60 two_failures).consecutive_failures + 1)
lived-lt-threshold_example = lived-lt-threshold 3 60 (omega arith) (omega arith) two_failures

error_response_retry_example :
    (IsRetryable SignalError.not_ready
      × ((error_response SignalError.not_ready).status ≡ 503)
      × ((error_response SignalError.not_ready).headers ≡ ("Retry-After", "3") ∷ []))
    ⊎ ((¬ IsRetryable SignalError.not_ready)
        × ((error_response SignalError.not_ready).status ≢ 503)
        × ((error_response SignalError.not_ready).headers ≡ []))
error_response_retry_example = error_response_retry SignalError.not_ready

from_pipeline_policy_example :
    ((IsFatal (PipelineError.fatal "demux vanished")
        × (status_code (from_pipeline (PipelineError.fatal "demux vanished")) ≡ 500))
      ⊎ ((¬ IsFatal (PipelineError.fatal "demux vanished"))
          × (status_code (from_pipeline (PipelineError.fatal "demux vanished")) ≡ 503)))
    × (contains
          (error_response (from_pipeline (PipelineError.fatal "demux vanished"))).body
          (detail (PipelineError.fatal "demux vanished"))
        ≡ true)
from_pipeline_policy_example = from_pipeline_policy (PipelineError.fatal "demux vanished")
