-- ===== src/Stream/Args.antt =====
-- The command line's `Args` and `SRTMode` of src/stream/pipeline.rs.
use srt_whep.Prelude.{ℕ, String, Bool, false}

pub data SrtMode : Type 0 where
  caller listener : SrtMode

unfoldable pub to_str : SrtMode → String
to_str caller = "caller"
to_str listener = "listener"

unfoldable pub reverse : SrtMode → SrtMode
reverse caller = listener
reverse listener = caller

pub record Args : Type 0 where
  pub input_address : String
  pub srt_mode : SrtMode
  pub srt_latency : ℕ
  pub tsdemux_latency : ℕ
  pub run_discoverer : Bool
  pub discoverer_timeout_sec : ℕ
  pub output_address : String
  pub port : ℕ
  pub decode_video : Bool

-- The defaults that the attributes name; the input address has none.
abbrev pub default_args : String → Args
default_args input_address = record {
  input_address = input_address;
  srt_mode = caller;
  srt_latency = 0;
  tsdemux_latency = 0;
  run_discoverer = false;
  discoverer_timeout_sec = 10;
  output_address = "127.0.0.1:8888";
  port = 8000;
  decode_video = false;
}
