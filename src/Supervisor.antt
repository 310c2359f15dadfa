-- ===== src/Supervisor.antt =====
-- The supervisor of src/supervisor.rs: run the pipeline; when it stops, clean it up and reset the
-- signalling; run it again after a delay, until the shutdown.
--
-- A `Round` holds what the outside answers during one turn of the loop, each answer at the place where
-- the code awaits it; a trace holds what the supervisor does, the oldest action first. Times are in
-- seconds, an `anyhow::Error` is its text.
use srt_whep.Prelude.{
  ℕ, zero, suc, ◌+◌, ◌-◌, ◌*◌, ◌^◌, min, String, Bool, true, false, Option, none, some, List, [],
  ◌∷◌, ◌++◌, if◌then◌else◌,
}
use srt_whep.Prelude.Results.{Result, ok, err}
use srt_whep.Signal.Errors.{SignalError}
pub mod Backoff
pub mod Order
pub mod Standing
pub mod Downtime
pub mod Shutdown

abbrev pub base_restart_delay : ℕ
base_restart_delay = 1

abbrev pub max_restart_delay : ℕ
max_restart_delay = 30

abbrev pub shutdown_join_timeout : ℕ
shutdown_join_timeout = 5

abbrev pub reset_timeout : ℕ
reset_timeout = 5

abbrev pub u32_max : ℕ
u32_max = 2 ^ 32 - 1

-- What resolves the `select!` of a running pipeline: the run's task, whose join may fail, the shutdown
-- channel, or the watchdog's request.
pub data Event : Type 0 where
  run_resolved : Result (Result (Unit {0}) String) String → Event
  shutdown_requested : Event
  restart_received : Event

pub data RunOutcome : Type 0 where
  completed : Result (Unit {0}) String → RunOutcome
  shutting_down : RunOutcome
  restart : RunOutcome

pub record Round : Type 0 where
  -- `*self.shutdown.borrow()`
  pub is_shut_down : Bool
  -- How many requests the restart channel still holds.
  pub stale_requests : ℕ
  pub init : Result (Unit {0}) String
  pub event : Event
  -- The bounded join after `end` or `quit`; `none` is `Elapsed`.
  pub joined : Option (Result (Result (Unit {0}) String) String)
  pub clean_up : Result (Unit {0}) String
  -- The bounded reset; `none` is `Elapsed`.
  pub reset : Option (Result (Unit {0}) SignalError)
  -- The shutdown came before the end of the sleep.
  pub is_woken : Bool

pub data Action : Type 0 where
  request_dropped : Action
  initialised : Result (Unit {0}) String → Action
  run_spawned : Action
  run_stopped : Result (Unit {0}) String → Action
  ended : Action
  quitted : Action
  joined_within : ℕ → Result (Unit {0}) String → Action
  aborted_after : ℕ → Action
  cleaned_up : Result (Unit {0}) String → Action
  reset_within : ℕ → Option (Result (Unit {0}) SignalError) → Action
  slept : ℕ → Bool → Action

-- `flatten_join`
unfoldable pub flatten_join : Result (Result (Unit {0}) String) String → Result (Unit {0}) String
flatten_join (ok r) = r
flatten_join (err e) = err e

-- `2u32.saturating_pow(exponent)`
abbrev pub saturating_pow_two : ℕ → ℕ
saturating_pow_two exponent = min (2 ^ exponent) u32_max

-- `backoff_delay`
unfoldable pub backoff_delay : ℕ → ℕ
backoff_delay zero = base_restart_delay
backoff_delay (suc zero) = base_restart_delay
backoff_delay (suc (suc k)) =
    min (base_restart_delay * min (saturating_pow_two (suc k)) 64) max_restart_delay

-- The two `match`es on the bounded join.
unfoldable pub join : Option (Result (Result (Unit {0}) String) String) → List Action
join (some res) = joined_within shutdown_join_timeout (flatten_join res) ∷ []
join none = aborted_after shutdown_join_timeout ∷ []

-- The arms of the `select!`.
unfoldable pub stop : Round → RunOutcome × List Action
stop r = elim (r.event) [
  | run_resolved res ↦ (completed (flatten_join res), run_stopped (flatten_join res) ∷ [])
  | shutdown_requested ↦ (shutting_down, ended ∷ join r.joined)
  | restart_received ↦ (restart, quitted ∷ join r.joined)
]

-- `while self.restart_rx.try_recv().is_ok() {}`
unfoldable pub drain : ℕ → List Action
drain zero = []
drain (suc n) = request_dropped ∷ drain n

-- `Supervisor::run_pipeline_until_stopped` past the drain.
unfoldable pub init_and_run : Round → RunOutcome × List Action
init_and_run r = elim (r.init) [
  | err e ↦ (completed (err e), initialised (err e) ∷ [])
  | ok _ ↦ let (outcome, actions) = stop r in (outcome, initialised (ok tt) ∷ run_spawned ∷ actions)
]

-- `Supervisor::run_pipeline_until_stopped`
unfoldable pub run_pipeline_until_stopped : Round → RunOutcome × List Action
run_pipeline_until_stopped r =
    let (outcome, actions) = init_and_run r in (outcome, drain r.stale_requests ++ actions)

-- `Supervisor::cleanup`
unfoldable pub cleanup : Round → List Action
cleanup r = cleaned_up r.clean_up ∷ reset_within reset_timeout r.reset ∷ []

-- The `match outcome` of `run`: the new count of failures, or the `break`.
unfoldable pub count_failures : RunOutcome → ℕ → Option ℕ
count_failures shutting_down n = none
count_failures restart n = some 0
count_failures (completed (ok _)) n = some 0
count_failures (completed (err e)) n = some (min (n + 1) u32_max)

-- The loop of `Supervisor::run` with the count of failures, for as many rounds as are given.
unfoldable pub run : ℕ → List Round → List Action
run n [] = []
run n (r ∷ rest) =
    if r.is_shut_down
    then []
    else (run_pipeline_until_stopped r).1
      ++ (cleanup r ++ elim (count_failures (run_pipeline_until_stopped r).0 n) [
        | none ↦ []
        | some n' ↦ slept (backoff_delay n') r.is_woken ∷ (if r.is_woken then [] else run n' rest)
      ])
