-- ===== src/Signal/Coordinator/Connection.antt =====
-- The methods of `ConnectionState` in src/signal/coordinator.rs.
use srt_whep.Prelude.{ℕ, String, Option, none, some, if◌then◌else◌}
use srt_whep.Prelude.Results.{ok, err}
use srt_whep.Domain.{SdpOffer, SdpAnswer}
use srt_whep.Signal.Errors.{SignalError}
use srt_whep.Signal.Messages.{ConnectionInfo}
use srt_whep.Signal.Coordinator.State.{
  Runtime, ConnectionState, awaiting_offer, awaiting_answer, established, offer_reply, answer_reply,
  Coordinator, emit, send,
}
use srt_whep.Signal.Coordinator.Policy.{WaiterNotice}

-- `ConnectionState::name`
unfoldable pub name : ConnectionState → String
name (awaiting_offer whep_reply deadline) = "awaiting_offer"
name (awaiting_answer whip_reply deadline) = "awaiting_answer"
name (established since) = "established"

-- `ConnectionState::info`
unfoldable pub info : String → ConnectionState → ConnectionInfo
info id state = record { id = id; state = name state }

-- `ConnectionState::deadline`
unfoldable pub deadline : ConnectionState → Option ℕ
deadline (awaiting_offer whep_reply d) = some d
deadline (awaiting_answer whip_reply d) = some d
deadline (established since) = none

module _ {E : Type 0} where
  -- `ConnectionState::fail_waiter`
  unfoldable pub fail_waiter : ConnectionState → SignalError → Coordinator E → Coordinator E
  fail_waiter (awaiting_offer whep_reply d) e s = emit (offer_reply whep_reply (err e)) s
  fail_waiter (awaiting_answer whip_reply d) e s = emit (answer_reply whip_reply (err e)) s
  fail_waiter (established since) e s = s

  -- `ConnectionState::expire`
  unfoldable pub expire : ConnectionState → Coordinator E → Coordinator E
  expire (awaiting_offer whep_reply d) s =
      emit (offer_reply whep_reply (err (SignalError.timeout "SDP offer"))) s
  expire (awaiting_answer whip_reply d) s =
      emit (answer_reply whip_reply (err (SignalError.timeout "SDP answer"))) s
  expire (established since) s = s

  -- `ConnectionState::notify`
  unfoldable pub notify : ConnectionState → WaiterNotice → String → Coordinator E → Coordinator E
  unfolding fail_waiter expire
  notify state WaiterNotice.gone id s = fail_waiter state (SignalError.gone id) s
  notify state WaiterNotice.expired_leg id s = expire state s
  notify state WaiterNotice.unavailable id s = fail_waiter state SignalError.unavailable s

-- The outcome of `deliver_offer` and `deliver_answer`: the reply arrived, the waiter was gone, or the
-- connection was in another state, which is handed back.
pub data Delivery : Type 0 where
  delivered waiter_gone : Delivery
  wrong_leg : ConnectionState → Delivery

module _ {E : Type 0} (rt : Runtime E) where
  -- `ConnectionState::deliver_offer`
  unfoldable pub deliver_offer :
      ConnectionState → SdpOffer → Coordinator E → Delivery × Coordinator E
  deliver_offer (awaiting_offer whep_reply d) sdp s =
      let (arrived, s') = send rt whep_reply (offer_reply whep_reply (ok sdp)) s in
      (if arrived then delivered else waiter_gone, s')
  deliver_offer (awaiting_answer whip_reply d) sdp s = (wrong_leg (awaiting_answer whip_reply d), s)
  deliver_offer (established since) sdp s = (wrong_leg (established since), s)

  -- `ConnectionState::deliver_answer`
  unfoldable pub deliver_answer :
      ConnectionState → SdpAnswer → Coordinator E → Delivery × Coordinator E
  deliver_answer (awaiting_answer whip_reply d) sdp s =
      let (arrived, s') = send rt whip_reply (answer_reply whip_reply (ok sdp)) s in
      (if arrived then delivered else waiter_gone, s')
  deliver_answer (awaiting_offer whep_reply d) sdp s = (wrong_leg (awaiting_offer whep_reply d), s)
  deliver_answer (established since) sdp s = (wrong_leg (established since), s)
