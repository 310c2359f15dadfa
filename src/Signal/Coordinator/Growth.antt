-- ===== src/Signal/Coordinator/Growth.antt =====
-- The restarts that the coordinator of src/signal/coordinator.rs has asked for only grow in number.
use mathlib.Core.Path.{subst}
use mathlib.Core.Option.{some-injective}
use srt_whep.Prelude.{◌≤◌, String, ◌≡◌, none, some, List, [], ◌∷◌, arith}
use srt_whep.Signal.Messages.{
  Command, create_connection, offer_received, answer_received, remove_connection, list_connections,
  reset,
}
use srt_whep.Signal.Coordinator.State.{Runtime, Coordinator}
use srt_whep.Signal.Coordinator.Policy.{expired}
use srt_whep.Signal.Coordinator.Terminate.{terminate}
use srt_whep.Signal.Coordinator.Handlers.{
  reset_signal, handle, expire_all, sweep_expired, reap_branch,
}
use srt_whep.Signal.Coordinator.Loop.{Wakeup, mailbox, branch_failure, sweep_tick, wake}
use srt_whep.Signal.Coordinator.Changes.{restarts, Change, one, all, reset_all-restarts}
use srt_whep.Signal.Coordinator.Operations.{
  expired-Change, on_create-Change, on_offer-Change, on_answer-Change, on_remove-Change,
  reap_branch-Change,
}

module _ {E : Type 0} where
  pub change_grows :
      {id : String} {s s' : Coordinator E} → Change id s s' → restarts s.log ≤ restarts s'.log
  change_grows (one o m c r) = omega (arith, r)
  change_grows (all t c r) = omega (arith, r)

module _ {E : Type 0} (rt : Runtime E) where
  pub expire_all_grows :
      (ids : List String) (s : Coordinator E) → restarts s.log ≤ restarts (expire_all rt ids s).log
  unfolding expire_all
  expire_all_grows [] s = omega arith
  expire_all_grows (id ∷ ids) s = omega (
    arith,
    change_grows (expired-Change rt id s),
    expire_all_grows ids (terminate rt id expired s).1,
  )

  pub handle_grows :
      (cmd : Command) (s : Coordinator E) → restarts s.log ≤ restarts (handle rt cmd s).log
  unfolding handle reset_signal
  handle_grows (create_connection id reply) s = change_grows (on_create-Change rt id reply s)
  handle_grows (offer_received id sdp reply) s = change_grows (on_offer-Change rt id sdp reply s)
  handle_grows (answer_received id sdp reply) s = change_grows (on_answer-Change rt id sdp reply s)
  handle_grows (remove_connection id reply) s = change_grows (on_remove-Change rt id reply s)
  handle_grows (list_connections reply) s = omega arith
  handle_grows (reset reply) s = omega (arith, reset_all-restarts s)

  pub wake_grows :
      (w : Wakeup) (s s' : Coordinator E) → wake rt w s ≡ some s' → restarts s.log ≤ restarts s'.log
  unfolding wake sweep_expired
  wake_grows (mailbox (some cmd)) s s' e =
      subst (λ c. restarts s.log ≤ restarts c.log) (some-injective (handle rt cmd s) s' e)
        (handle_grows cmd s)
  wake_grows (mailbox none) s s' e = cc e
  wake_grows (branch_failure branch) s s' e =
      subst (λ c. restarts s.log ≤ restarts c.log)
        (some-injective (reap_branch rt branch.id s) s' e)
        (change_grows (reap_branch-Change rt branch.id s))
  wake_grows sweep_tick s s' e =
      subst (λ c. restarts s.log ≤ restarts c.log) (some-injective (sweep_expired rt s) s' e)
        (expire_all_grows _ s)
