-- ===== src/Stream/Errors.antt =====
-- src/stream/errors.rs: whether a failure of the pipeline is worth a retry.
use Prim.Native.String.{◌++◌}
use srt_whep.Prelude.{String}

pub data PipelineError : Type 0 where
  not_ready : PipelineError
  transient : String → PipelineError
  fatal : String → PipelineError

-- The `Display` of the error.
abbrev pub pipeline_error_message : PipelineError → String
pipeline_error_message not_ready = "Pipeline is not ready"
pipeline_error_message (transient msg) = "Transient pipeline failure: " ++ msg
pipeline_error_message (fatal msg) = "Pipeline operation failed: " ++ msg

-- `From<TimedLockError>`: the error's text is that of the lock library.
abbrev pub from_timed_lock : String → PipelineError
from_timed_lock text = transient text
