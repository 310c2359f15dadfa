-- ===== src/Signal/Watchdog.antt =====
-- src/signal/watchdog.rs: handshake failures that come close together call for a restart.
-- Instants and durations are numbers of one unit; `duration_since` stops at 0, as `-` does.
pub mod Bursts
use srt_whep.Prelude.{ℕ, ◌+◌, ◌-◌, Bool, true, false, Option, none, some, ltb, leb, if◌then◌else◌}
use Prim.Native.Nat.{◌%◌, ◌^◌}

pub record Watchdog : Type 0 where
  pub consecutive_failures : ℕ
  pub threshold : ℕ
  pub window : ℕ
  pub last_failure : Option ℕ

-- `Watchdog::new`
unfoldable pub new : ℕ → ℕ → Watchdog
new threshold window = record {
  consecutive_failures = 0;
  threshold = threshold;
  window = window;
  last_failure = none;
}

-- The count after the decay of a failure older than the window.
abbrev pub decayed : ℕ → Watchdog → ℕ
decayed now dog = elim (dog.last_failure) [
  | some last ↦ if ltb dog.window (now - last) then 0 else dog.consecutive_failures
  | none ↦ dog.consecutive_failures
]

-- `u32` addition of one.
abbrev pub u32_suc : ℕ → ℕ
u32_suc n = (n + 1) % 2 ^ 32

-- `Watchdog::record_failure`; the flag says that the watchdog trips.
unfoldable pub record_failure : ℕ → Watchdog → Bool × Watchdog
record_failure now dog =
    let failures = u32_suc (decayed now dog) in
    if leb dog.threshold failures
    then (true, record dog { consecutive_failures = 0; last_failure = none })
    else (false, record dog { consecutive_failures = failures; last_failure = some now })

-- `Watchdog::record_success`
unfoldable pub record_success : Watchdog → Watchdog
record_success dog = record dog { consecutive_failures = 0; last_failure = none }
