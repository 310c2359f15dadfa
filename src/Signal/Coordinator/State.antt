-- ===== src/Signal/Coordinator/State.antt =====
-- The state of the coordinator of src/signal/coordinator.rs, and what it does to the outside.
--
-- `Runtime` is all that the code takes from elsewhere: the clock, whether the request behind a reply
-- channel has gone, and the pipeline's two branch calls under tokio's `timeout`. `E` is the state of
-- that outside world; the calls may change it, so may time and clients between two commands.
use srt_whep.Prelude.{ℕ, String, Bool, not, Option, List, [], ◌∷◌}
use srt_whep.Prelude.Results.{Result}
use srt_whep.Domain.{SdpOffer, SdpAnswer}
use srt_whep.Stream.Errors.{PipelineError}
use srt_whep.Signal.Errors.{SignalError}
use srt_whep.Signal.Messages.{ConnectionInfo}
use srt_whep.Signal.Watchdog
use srt_whep.Signal.Watchdog.{Watchdog}
use srt_whep.Signal.Coordinator.Config.{CoordinatorConfig}

pub record Runtime (E : Type 0) : Type 0 where
  -- `Instant::now()`
  pub now : E → ℕ
  -- The receiver of a reply channel was dropped, so that `send` fails.
  pub is_closed : ℕ → E → Bool
  -- `timeout(limit, pipeline.add_branch(id)).await`; `none` is `Elapsed`.
  pub add_branch : ℕ → String → E → Option (Result (Unit {0}) PipelineError) × E
  -- `timeout(limit, pipeline.remove_branch(id)).await`
  pub remove_branch : ℕ → String → E → Option (Result (Unit {0}) PipelineError) × E

pub data ConnectionState : Type 0 where
  awaiting_offer : (whep_reply deadline : ℕ) → ConnectionState
  awaiting_answer : (whip_reply deadline : ℕ) → ConnectionState
  established : (since : ℕ) → ConnectionState

-- What the coordinator does to the outside: it gives a reply channel its reply, whether or not that
-- arrives, it calls the pipeline for a branch, and it asks the supervisor for a restart.
pub data Effect : Type 0 where
  offer_reply : ℕ → Result SdpOffer SignalError → Effect
  answer_reply : ℕ → Result SdpAnswer SignalError → Effect
  unit_reply : ℕ → Result (Unit {0}) SignalError → Effect
  list_reply : ℕ → Result (List ConnectionInfo) SignalError → Effect
  branch_added : String → Option (Result (Unit {0}) PipelineError) → Effect
  branch_removed : String → Option (Result (Unit {0}) PipelineError) → Effect
  restart_requested : Effect

-- `struct Coordinator`; the log holds the effects, the newest first.
pub record Coordinator (E : Type 0) : Type 0 where
  pub env : E
  pub config : CoordinatorConfig
  pub connections : List (String × ConnectionState)
  pub watchdog : Watchdog
  pub log : List Effect

-- `Coordinator::new`
unfoldable pub init : {E : Type 0} → E → CoordinatorConfig → Coordinator E
init env config = record {
  env = env;
  config = config;
  connections = [];
  watchdog = Watchdog.new config.watchdog_threshold config.watchdog_window;
  log = [];
}

abbrev pub emit : {E : Type 0} → Effect → Coordinator E → Coordinator E
emit e s = record s { log = e ∷ s.log }

-- `reply.send(..)`: the channel is used up, and the flag says whether the reply arrived.
abbrev pub send : {E : Type 0} → Runtime E → ℕ → Effect → Coordinator E → Bool × Coordinator E
send rt reply e s = (not (rt.is_closed reply s.env), emit e s)
