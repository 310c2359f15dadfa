-- ===== src/Startup.antt =====
-- src/startup.rs: the route table, the wiring of the application, and its shutdown.
pub mod Routing
pub mod Wiring
use Prim.Native.String.{◌++◌}
use srt_whep.Prelude.{
  ℕ, zero, suc, String, Bool, true, false, Option, none, some, List, [], ◌∷◌, ◌==◌, if◌then◌else◌,
}
use srt_whep.Prelude.Results.{Result, ok, err}
use srt_whep.Stream.Branch.{whip_sink_route, decimal}

pub data Method : Type 0 where
  get post patch delete options : Method

pub data Handler : Type 0 where
  list whep_handler options_handler whep_patch_handler terminate_session whip_handler : Handler
  remove_whip_sink : Handler

pub record Route : Type 0 where
  pub template : String
  pub method : Method
  pub handler : Handler

-- The `App` of `run`, in the order of its `route` calls.
abbrev pub routes : List Route
routes =
    record { template = "/list"; method = get; handler = list }
    ∷ record { template = "/channel"; method = post; handler = whep_handler }
    ∷ record { template = "/channel"; method = options; handler = options_handler }
    ∷ record { template = "/channel/{id}"; method = patch; handler = whep_patch_handler }
    ∷ record { template = "/channel/{id}"; method = delete; handler = terminate_session }
    ∷ record { template = whip_sink_route; method = post; handler = whip_handler }
    ∷ record { template = whip_sink_route; method = delete; handler = remove_whip_sink }
    ∷ []

-- What `assemble` makes, in its order.
pub data Part : Type 0 where
  pipeline coordinator supervisor server : Part

abbrev wrong_port : ℕ → ℕ → String
wrong_port port expected =
    "HTTP listener bound to port "
    ++ (decimal 5 port
        ++ (" but the pipeline posts loopback WHIP offers to port "
            ++ (decimal 5 expected ++ "; they must match")))

-- `assemble` past its check of the ports; `listening` is what `listen` answers.
unfoldable pub wire : ℕ → Result (Unit {0}) String → Result ℕ String × List Part
wire port listening = elim listening [
  | err e ↦ (err e, pipeline ∷ coordinator ∷ supervisor ∷ [])
  | ok _ ↦ (ok port, pipeline ∷ coordinator ∷ supervisor ∷ server ∷ [])
]

-- `Application::assemble`, given the listener's `local_addr`: the application's port and what was made.
unfoldable pub assemble :
    Result ℕ String → Option ℕ → Result (Unit {0}) String → Result ℕ String × List Part
assemble (err e) expected listening = (err e, [])
assemble (ok port) none listening = wire port listening
assemble (ok port) (some expected) listening =
    if expected == port then wire port listening else (err (wrong_port port expected), [])

-- What ends the wait of `run_until_stopped`: the stop, or the server's task with its join.
pub data Wakeup : Type 0 where
  stop_resolved : Wakeup
  server_exited : Result (Result (Unit {0}) String) String → Wakeup

pub data Step : Type 0 where
  shutdown_sent : Step
  -- `tokio::join!` of the graceful stop and the supervisor.
  server_stopped_and_supervisor_joined : Step
  supervisor_joined : Step
  server_joined : Step

-- `Application::run_until_stopped`
unfoldable pub run_until_stopped : Wakeup → Result (Unit {0}) String × List Step
run_until_stopped stop_resolved =
    (ok tt, shutdown_sent ∷ server_stopped_and_supervisor_joined ∷ server_joined ∷ [])
run_until_stopped (server_exited (ok result)) = (result, shutdown_sent ∷ supervisor_joined ∷ [])
run_until_stopped (server_exited (err join_error)) =
    (err join_error, shutdown_sent ∷ supervisor_joined ∷ [])
