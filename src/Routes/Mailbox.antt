-- ===== src/Routes/Mailbox.antt =====
-- DELETE's call of src/signal/mod.rs over the coordinator itself: the command goes through the mailbox,
-- and the reply comes back over the channel that went with it.
use srt_whep.Prelude.{
  ℕ, String, true, ◌≡◌, Option, none, some, List, [], ◌∷◌, if◌then◌else◌, ◌==◌, arith,
}
use srt_whep.Prelude.Results.{Result}
use srt_whep.Signal.Errors.{SignalError}
use srt_whep.Signal.Messages
use srt_whep.Signal.Coordinator.State.{Runtime, Coordinator, Effect, unit_reply, emit}
use srt_whep.Signal.Coordinator.Policy.{deleted}
use srt_whep.Signal.Coordinator.Terminate.{terminate}
use srt_whep.Signal.Coordinator.Handlers.{handle, on_remove}
use srt_whep.Routes.{SignalHandle, request}

-- What has been sent over a reply channel, if it has.
unfoldable pub sent : ℕ → List Effect → Option (Result (Unit {0}) SignalError)
sent reply [] = none
sent reply (unit_reply channel r ∷ log) =
    let older = sent reply log in if channel == reply then some r else older
sent reply (e ∷ log) = sent reply log

module _ {E : Type 0} (rt : Runtime E) (reply : ℕ) where
  -- `SignalHandle::remove_connection`, the coordinator being alive.
  unfoldable pub remove_connection :
      String → Coordinator E → Result (Unit {0}) SignalError × Coordinator E
  remove_connection id s =
      let s' = handle rt (Messages.Command.remove_connection id reply) s in
      (request true (sent reply s'.log), s')

  -- The handle of a running coordinator, its other calls left as they are given.
  abbrev pub over : SignalHandle (Coordinator E) → SignalHandle (Coordinator E)
  over signal = record signal { remove_connection = remove_connection }

  pub remove_connection_lem :
      (id : String) (s : Coordinator E)
      → let t = terminate rt id deleted s in
        remove_connection id s ≡ (t.0, emit (unit_reply reply t.0) t.1)
  unfolding remove_connection handle on_remove sent request
  remove_connection_lem id s = ground arith
