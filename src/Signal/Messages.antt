-- ===== src/Signal/Messages.antt =====
-- src/signal/messages.rs: what the handles send to the coordinator. A reply channel, tokio's
-- `oneshot::Sender`, is a number; each channel that the program makes has its own.
use srt_whep.Prelude.{ℕ, String}
use srt_whep.Domain.{SdpOffer, SdpAnswer}

pub record ConnectionInfo : Type 0 where
  pub id : String
  pub state : String

pub data Command : Type 0 where
  create_connection : (id : String) (reply : ℕ) → Command
  offer_received : (id : String) (sdp : SdpOffer) (reply : ℕ) → Command
  answer_received : (id : String) (sdp : SdpAnswer) (reply : ℕ) → Command
  remove_connection : (id : String) (reply : ℕ) → Command
  list_connections : (reply : ℕ) → Command
  reset : (reply : ℕ) → Command
