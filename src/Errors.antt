-- ===== src/Errors.antt =====
-- src/errors.rs: the report of an error with its causes, which the `Debug` of src/domain/errors.rs and
-- of src/stream/errors.rs print. An error of `std::error::Error` is its `Display` and, when it has a
-- `source()`, that error.
use Prim.Native.String.{◌++◌}
use srt_whep.Prelude.{String}
use srt_whep.Domain.{SdpError, sdp_error_message}
use srt_whep.Stream.Errors.{PipelineError, pipeline_error_message}

pub data Error : Type 0 where
  root : String → Error
  caused : String → Error → Error

unfoldable pub display : Error → String
display (root text) = text
display (caused text cause) = text

-- The loop over `source()`, from the error that is the `current` one's parent.
unfoldable pub causes : Error → String
causes (root text) = ""
causes (caused text cause) = "Caused by:\n\t" ++ (display cause ++ ("\n" ++ causes cause))

unfoldable pub error_chain_fmt : Error → String
error_chain_fmt e = display e ++ ("\n\n" ++ causes e)

-- The two errors that print it have no `#[source]`.
unfoldable pub sdp_error_debug : SdpError → String
sdp_error_debug e = error_chain_fmt (root (sdp_error_message e))

unfoldable pub pipeline_error_debug : PipelineError → String
pipeline_error_debug e = error_chain_fmt (root (pipeline_error_message e))
