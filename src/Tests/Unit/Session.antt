-- ===== src/Tests/Unit/Session.antt =====
-- The helpers of the unit tests of src/signal/coordinator.rs: a coordinator over `TestPipeline`, a paused
-- clock, and what came back on a reply channel.
use srt_whep.Prelude.{
  ℕ, zero, suc, ◌+◌, ◌==◌, String, true, Option, none, some, List, [], ◌∷◌, if◌then◌else◌,
}
use srt_whep.Prelude.HashMap.{lookup, erase, insert}
use srt_whep.Prelude.Results.{Result}
use srt_whep.Domain.{SdpOffer, SdpAnswer}
use srt_whep.Domain.Samples.{valid_whip_offer, valid_whep_answer}
use srt_whep.Stream.TestPipeline
use srt_whep.Stream.TestPipeline.{TestPipeline, default_pipeline}
use srt_whep.Signal.Errors.{SignalError, from_pipeline, status_code, http_contract, error_response}
use srt_whep.Signal.Watchdog
use srt_whep.Signal.Watchdog.{record_failure, record_success}
use srt_whep.Signal.Messages.{
  ConnectionInfo, Command, create_connection, offer_received, answer_received,
}
use srt_whep.Signal.World.{World, world}
use srt_whep.Signal.Coordinator.Config.{CoordinatorConfig, from_secs}
use srt_whep.Signal.Coordinator.State.{
  Coordinator, Effect, offer_reply, answer_reply, unit_reply, list_reply, init,
}
use srt_whep.Signal.Coordinator.Connection.{
  name, info, deadline, fail_waiter, notify, deliver_offer, deliver_answer,
}
use srt_whep.Signal.Coordinator.Policy.{policy}
use srt_whep.Signal.Coordinator.Terminate.{
  notify_all, reset_all, notify_entry, restore_entry, remove_branch_bounded, tear_down,
  feed_watchdog, finish, terminate_entry, terminate,
}
use srt_whep.Signal.Coordinator.Handlers.{
  snapshot, add_branch_bounded, admit, on_create, offer_to, on_offer, answer_to, on_answer,
  on_remove, expire_all, expired_ids, sweep_expired, reap_branch, reset_signal, handle,
}

-- All that a test computes with.
unfoldable pub computes : Unit {0}
unfolding init handle on_create admit add_branch_bounded on_offer offer_to deliver_offer on_answer
    answer_to deliver_answer on_remove terminate terminate_entry finish tear_down
    remove_branch_bounded notify_entry restore_entry notify fail_waiter feed_watchdog policy
    reset_all notify_all reset_signal reap_branch sweep_expired expire_all expired_ids deadline
    lookup erase insert record_failure record_success Watchdog.new from_pipeline snapshot name info
    status_code http_contract error_response TestPipeline.add_branch TestPipeline.remove_branch
    TestPipeline.set_ready TestPipeline.fail_next_add_branch TestPipeline.fail_next_remove_branch
    TestPipeline.block_remove_branch TestPipeline.block_add_branch TestPipeline.try_send
    TestPipeline.fail_branch
computes = tt

abbrev pub offer : SdpOffer
offer = record { sdp = record { text = valid_whip_offer } }

abbrev pub answer : SdpAnswer
answer = record { sdp = record { text = valid_whep_answer } }

abbrev pub test_config : CoordinatorConfig
test_config = record {
  offer_timeout = from_secs 5;
  answer_timeout = from_secs 5;
  watchdog_threshold = 3;
  watchdog_window = from_secs 60;
  sweep_interval = from_secs 1;
  teardown_timeout = from_secs 5;
}

abbrev pub ready_pipeline : TestPipeline
ready_pipeline = TestPipeline.set_ready true default_pipeline

abbrev pub Session : Type 0
Session = Coordinator World

-- `spawn_actor`
abbrev pub spawn_actor : TestPipeline → Session
spawn_actor pipeline = init (record { pipeline = pipeline; clock = 0; dropped = [] }) test_config

-- A command that the actor has handled.
abbrev pub does : Command → Session → Session
does cmd s = handle world cmd s

-- The request that waits on this channel is dropped.
abbrev pub abort : ℕ → Session → Session
abort channel s = record s { env = record (s.env) { dropped = channel ∷ s.env.dropped } }

-- The paused clock is moved on to the next tick of the sweep, as often as this.
abbrev pub ticks : ℕ → Session → Session
ticks zero s = s
ticks (suc n) s =
    let s' = ticks n s in
    sweep_expired world (record s' { env = record (s'.env) { clock = s'.env.clock + 1000 } })

abbrev pub on_pipeline : (TestPipeline → TestPipeline) → Session → Session
on_pipeline f s = record s { env = record (s.env) { pipeline = f s.env.pipeline } }

-- A handshake from the request of the viewer to the answer, over three reply channels.
abbrev pub establish : String → ℕ → ℕ → ℕ → Session → Session
establish id whep whip patch s =
    does (answer_received id answer patch)
      (does (offer_received id offer whip) (does (create_connection id whep) s))

abbrev ids : {A : Type 0} → List (String × A) → List String
ids [] = []
ids ((id, state) ∷ rest) = id ∷ ids rest

abbrev pub list_ids : Session → List String
list_ids s = ids s.connections

-- What the pipeline recorded.
abbrev pub added : Session → List String
added s = s.env.pipeline.state.added

abbrev pub removed : Session → List String
removed s = s.env.pipeline.state.removed

-- The newest reply on a channel.
abbrev offer_in : ℕ → List Effect → Option (Result SdpOffer SignalError)
offer_in channel [] = none
offer_in channel (offer_reply c r ∷ log) = if c == channel then some r else offer_in channel log
offer_in channel (e ∷ log) = offer_in channel log

abbrev answer_in : ℕ → List Effect → Option (Result SdpAnswer SignalError)
answer_in channel [] = none
answer_in channel (answer_reply c r ∷ log) = if c == channel then some r else answer_in channel log
answer_in channel (e ∷ log) = answer_in channel log

abbrev unit_in : ℕ → List Effect → Option (Result (Unit {0}) SignalError)
unit_in channel [] = none
unit_in channel (unit_reply c r ∷ log) = if c == channel then some r else unit_in channel log
unit_in channel (e ∷ log) = unit_in channel log

abbrev list_in : ℕ → List Effect → Option (Result (List ConnectionInfo) SignalError)
list_in channel [] = none
list_in channel (list_reply c r ∷ log) = if c == channel then some r else list_in channel log
list_in channel (e ∷ log) = list_in channel log

abbrev pub offer_on : ℕ → Session → Option (Result SdpOffer SignalError)
offer_on channel s = offer_in channel s.log

abbrev pub answer_on : ℕ → Session → Option (Result SdpAnswer SignalError)
answer_on channel s = answer_in channel s.log

abbrev pub unit_on : ℕ → Session → Option (Result (Unit {0}) SignalError)
unit_on channel s = unit_in channel s.log

abbrev pub list_on : ℕ → Session → Option (Result (List ConnectionInfo) SignalError)
list_on channel s = list_in channel s.log
