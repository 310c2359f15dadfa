-- ===== src/Signal/Coordinator/Handlers.antt =====
-- The commands of src/signal/coordinator.rs, the reaper and the expiry sweep.
use srt_whep.Prelude.{ℕ, ◌+◌, String, Bool, false, none, some, List, [], ◌∷◌, leb, if◌then◌else◌}
use srt_whep.Prelude.Results.{Result, ok, err, map_err}
use srt_whep.Prelude.HashMap.{lookup, erase, insert}
use srt_whep.Domain.{SdpOffer, SdpAnswer}
use srt_whep.Signal.Errors.{SignalError, from_pipeline}
use srt_whep.Signal.Messages.{
  ConnectionInfo, Command, create_connection, offer_received, answer_received, remove_connection,
  list_connections, reset,
}
use srt_whep.Signal.Watchdog.{record_success}
use srt_whep.Signal.Coordinator.State.{
  Runtime, ConnectionState, awaiting_offer, awaiting_answer, established, offer_reply, answer_reply,
  unit_reply, list_reply, branch_added, Coordinator, emit,
}
use srt_whep.Signal.Coordinator.Connection.{
  info, deadline, delivered, waiter_gone, wrong_leg, deliver_offer, deliver_answer,
}
use srt_whep.Signal.Coordinator.Policy.{TerminateReason}
use srt_whep.Signal.Coordinator.Terminate.{reset_all, terminate}

-- `Coordinator::list_connections`
unfoldable pub snapshot : List (String × ConnectionState) → List ConnectionInfo
snapshot [] = []
snapshot ((id, state) ∷ rest) = info id state ∷ snapshot rest

-- The `filter` and `map` of `sweep_expired`.
abbrev pub is_expired : ℕ → ConnectionState → Bool
is_expired now state = elim (deadline state) [ some d ↦ leb d now | none ↦ false ]

unfoldable pub expired_ids : ℕ → List (String × ConnectionState) → List String
expired_ids now [] = []
expired_ids now ((id, state) ∷ rest) =
    let later = expired_ids now rest in if is_expired now state then id ∷ later else later

module _ {E : Type 0} where
  -- `self.connections.insert(id, state)`
  abbrev pub put : String → ConnectionState → Coordinator E → Coordinator E
  put id state s = record s { connections = insert id state s.connections }

  -- `self.connections.remove(&id)`, for the map that it leaves.
  abbrev pub take_out : String → Coordinator E → Coordinator E
  take_out id s = record s { connections = erase id s.connections }

  -- `Coordinator::reset`
  unfoldable pub reset_signal : Coordinator E → Coordinator E
  reset_signal s = let s' = reset_all s in record s' { watchdog = record_success (s'.watchdog) }

module _ {E : Type 0} (rt : Runtime E) where
  -- The `timeout(.., add_branch(..)).await` of `create_connection`, with the error of each arm.
  unfoldable pub add_branch_bounded :
      String → Coordinator E → Result (Unit {0}) SignalError × Coordinator E
  add_branch_bounded id s =
      let (outcome, env) = rt.add_branch (s.config.teardown_timeout) id s.env in
      let s' = emit (branch_added id outcome) (record s { env = env }) in
      elim outcome [
        | some res ↦ (map_err res from_pipeline, s')
        | none ↦ (err (SignalError.pipeline_busy "branch attach/cleanup timed out"), s')
      ]

  -- `Coordinator::create_connection` past its first test.
  unfoldable pub admit : String → ℕ → Coordinator E → Coordinator E
  admit id reply s =
      let (res, s') = add_branch_bounded id s in
      elim res [
        | ok _ ↦ put id (awaiting_offer reply (rt.now s'.env + s'.config.offer_timeout)) s'
        | err e ↦ emit (offer_reply reply (err e)) s'
      ]

  -- `Coordinator::create_connection`
  unfoldable pub on_create : String → ℕ → Coordinator E → Coordinator E
  on_create id reply s = elim (lookup id s.connections) [
    | some _ ↦ emit (offer_reply reply (err (SignalError.wrong_state id))) s
    | none ↦ admit id reply s
  ]

  -- The `match state.deliver_offer(sdp)` of `offer_received`, the entry taken out.
  unfoldable pub offer_to : ConnectionState → String → SdpOffer → ℕ → Coordinator E → Coordinator E
  offer_to state id sdp reply s =
      let (delivery, s') = deliver_offer rt state sdp s in
      elim delivery [
        | delivered ↦ put id (awaiting_answer reply (rt.now s'.env + s'.config.answer_timeout)) s'
        | waiter_gone ↦
            (terminate rt id TerminateReason.peer_gone
              (emit (answer_reply reply (err (SignalError.gone id))) s')).1
        | wrong_leg state' ↦
            emit (answer_reply reply (err (SignalError.wrong_state id))) (put id state' s')
      ]

  -- `Coordinator::offer_received`
  unfoldable pub on_offer : String → SdpOffer → ℕ → Coordinator E → Coordinator E
  on_offer id sdp reply s = elim (lookup id s.connections) [
    | none ↦ emit (answer_reply reply (err (SignalError.not_found id))) s
    | some state ↦ offer_to state id sdp reply (take_out id s)
  ]

  -- The `match state.deliver_answer(sdp)` of `answer_received`, the entry taken out.
  unfoldable pub answer_to :
      ConnectionState → String → SdpAnswer → ℕ → Coordinator E → Coordinator E
  answer_to state id sdp reply s =
      let (delivery, s') = deliver_answer rt state sdp s in
      elim delivery [
        | delivered ↦ emit (unit_reply reply (ok tt)) (
            put id (established (rt.now s'.env))
              (record s' { watchdog = record_success (s'.watchdog) }))
        | waiter_gone ↦
            (terminate rt id TerminateReason.peer_gone
              (emit (unit_reply reply (err (SignalError.gone id))) s')).1
        | wrong_leg state' ↦
            emit (unit_reply reply (err (SignalError.wrong_state id))) (put id state' s')
      ]

  -- `Coordinator::answer_received`
  unfoldable pub on_answer : String → SdpAnswer → ℕ → Coordinator E → Coordinator E
  on_answer id sdp reply s = elim (lookup id s.connections) [
    | none ↦ emit (unit_reply reply (err (SignalError.not_found id))) s
    | some state ↦ answer_to state id sdp reply (take_out id s)
  ]

  -- `Coordinator::remove_connection`
  unfoldable pub on_remove : String → ℕ → Coordinator E → Coordinator E
  on_remove id reply s =
      let (res, s') = terminate rt id TerminateReason.deleted s in emit (unit_reply reply res) s'

  -- The `for` loop of `sweep_expired`.
  unfoldable pub expire_all : List String → Coordinator E → Coordinator E
  expire_all [] s = s
  expire_all (id ∷ ids) s = expire_all ids (terminate rt id TerminateReason.expired s).1

  -- `Coordinator::sweep_expired`
  unfoldable pub sweep_expired : Coordinator E → Coordinator E
  sweep_expired s = expire_all (expired_ids (rt.now s.env) s.connections) s

  -- `Coordinator::reap_branch`
  unfoldable pub reap_branch : String → Coordinator E → Coordinator E
  reap_branch id s = elim (lookup id s.connections) [
    | none ↦ s
    | some _ ↦ (terminate rt id TerminateReason.reaped s).1
  ]

  -- `Coordinator::handle`
  unfoldable pub handle : Command → Coordinator E → Coordinator E
  handle (create_connection id reply) s = on_create id reply s
  handle (offer_received id sdp reply) s = on_offer id sdp reply s
  handle (answer_received id sdp reply) s = on_answer id sdp reply s
  handle (remove_connection id reply) s = on_remove id reply s
  handle (list_connections reply) s = emit (list_reply reply (ok (snapshot s.connections))) s
  handle (reset reply) s = emit (unit_reply reply (ok tt)) (reset_signal s)
