-- ===== src/Signal/Coordinator/Config.antt =====
-- The timing and watchdog knobs of src/signal/coordinator.rs. A duration is a number of milliseconds.
use srt_whep.Prelude.{ℕ, ◌*◌}

abbrev pub default_offer_timeout_sec : ℕ
default_offer_timeout_sec = 10

abbrev pub default_answer_timeout_sec : ℕ
default_answer_timeout_sec = 10

abbrev pub default_watchdog_threshold : ℕ
default_watchdog_threshold = 3

abbrev pub default_watchdog_window_sec : ℕ
default_watchdog_window_sec = 60

abbrev pub default_sweep_interval_ms : ℕ
default_sweep_interval_ms = 1000

abbrev pub default_teardown_timeout_sec : ℕ
default_teardown_timeout_sec = 5

-- `Duration::from_secs`
abbrev pub from_secs : ℕ → ℕ
from_secs s = s * 1000

pub record CoordinatorConfig : Type 0 where
  pub offer_timeout : ℕ
  pub answer_timeout : ℕ
  pub watchdog_threshold : ℕ
  pub watchdog_window : ℕ
  pub sweep_interval : ℕ
  pub teardown_timeout : ℕ

-- `Default for CoordinatorConfig`
abbrev pub default_config : CoordinatorConfig
default_config = record {
  offer_timeout = from_secs default_offer_timeout_sec;
  answer_timeout = from_secs default_answer_timeout_sec;
  watchdog_threshold = default_watchdog_threshold;
  watchdog_window = from_secs default_watchdog_window_sec;
  sweep_interval = default_sweep_interval_ms;
  teardown_timeout = from_secs default_teardown_timeout_sec;
}

pub record CoordinatorArgs : Type 0 where
  pub offer_timeout_sec : ℕ
  pub answer_timeout_sec : ℕ
  pub watchdog_threshold : ℕ
  pub watchdog_window_sec : ℕ
  pub sweep_interval_ms : ℕ
  pub teardown_timeout_sec : ℕ

-- The `default_value_t` attributes.
abbrev pub default_args : CoordinatorArgs
default_args = record {
  offer_timeout_sec = default_offer_timeout_sec;
  answer_timeout_sec = default_answer_timeout_sec;
  watchdog_threshold = default_watchdog_threshold;
  watchdog_window_sec = default_watchdog_window_sec;
  sweep_interval_ms = default_sweep_interval_ms;
  teardown_timeout_sec = default_teardown_timeout_sec;
}

unfoldable pub to_config : CoordinatorArgs → CoordinatorConfig
to_config args = record {
  offer_timeout = from_secs args.offer_timeout_sec;
  answer_timeout = from_secs args.answer_timeout_sec;
  watchdog_threshold = args.watchdog_threshold;
  watchdog_window = from_secs args.watchdog_window_sec;
  sweep_interval = args.sweep_interval_ms;
  teardown_timeout = from_secs args.teardown_timeout_sec;
}
