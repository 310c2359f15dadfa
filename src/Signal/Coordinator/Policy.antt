-- ===== src/Signal/Coordinator/Policy.antt =====
-- The termination policy table of src/signal/coordinator.rs.
use srt_whep.Prelude.{Bool, true, false}

pub data TerminateReason : Type 0 where
  deleted expired peer_gone reaped reset : TerminateReason

-- What happens when the id is in the map no more.
pub data MissingEntry : Type 0 where
  reject skip proceed : MissingEntry

-- How a parked waiter learns of the end.
pub data WaiterNotice : Type 0 where
  gone expired_leg unavailable : WaiterNotice

-- Whether the branch is detached, and whether that decides.
pub data Teardown : Type 0 where
  required best_effort keep : Teardown

pub record TerminationPolicy : Type 0 where
  pub on_missing : MissingEntry
  pub waiter : WaiterNotice
  pub teardown : Teardown
  pub feeds_watchdog : Bool

-- `TerminateReason::policy`
unfoldable pub policy : TerminateReason → TerminationPolicy
policy deleted = record {
  on_missing = reject;
  waiter = gone;
  teardown = required;
  feeds_watchdog = false;
}
policy expired = record {
  on_missing = skip;
  waiter = expired_leg;
  teardown = best_effort;
  feeds_watchdog = true;
}
policy peer_gone = record {
  on_missing = proceed;
  waiter = gone;
  teardown = best_effort;
  feeds_watchdog = true;
}
policy reaped = record {
  on_missing = skip;
  waiter = gone;
  teardown = best_effort;
  feeds_watchdog = false;
}
policy reset = record {
  on_missing = skip;
  waiter = unavailable;
  teardown = keep;
  feeds_watchdog = false;
}
