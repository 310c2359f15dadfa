-- ===== src/Tests/Reports.antt =====
-- What src/errors.rs prints of an error with two causes, and of the two errors that have none.
use srt_whep.Prelude.{◌≡◌, refl}
use srt_whep.Domain.{SdpError}
use srt_whep.Stream.Errors.{PipelineError}
use srt_whep.Errors.{Error, display, causes, error_chain_fmt, sdp_error_debug, pipeline_error_debug}

reported_chain :
    error_chain_fmt (Error.caused "a" (Error.caused "b" (Error.root "c")))
    ≡ "a\n\nCaused by:\n\tb\nCaused by:\n\tc\n"
unfolding error_chain_fmt causes display
reported_chain = refl

reported_sdp : sdp_error_debug (SdpError.invalid_sdp "x") ≡ "Invalid SDP: x\n\n"
unfolding sdp_error_debug error_chain_fmt causes display
reported_sdp = refl

reported_pipeline : pipeline_error_debug PipelineError.not_ready ≡ "Pipeline is not ready\n\n"
unfolding pipeline_error_debug error_chain_fmt causes display
reported_pipeline = refl
