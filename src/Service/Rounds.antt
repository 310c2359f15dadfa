-- ===== src/Service/Rounds.antt =====
-- The rounds of the coordinator's loop in src/signal/coordinator.rs on the pipeline that the program runs.
use mathlib.Core.Path.{subst}
use srt_whep.Prelude.{
  ℕ, String, Bool, ◌≡◌, refl, sym, ap, ◌∙◌, ◌≢◌, none, some, List, arith, inl, inr,
}
use srt_whep.Prelude.Results.{Result, ok}
use srt_whep.Prelude.HashMap.{lookup, erase_absent}
use srt_whep.Stream.Gst.{Gst, IsLawful}
use srt_whep.Stream.GstPipeline.Control.{PipelineWrapper}
use srt_whep.Signal.Messages.{
  Command, create_connection, offer_received, answer_received, remove_connection, list_connections,
  reset,
}
use srt_whep.Signal.Coordinator.State.{Runtime, Coordinator}
use srt_whep.Signal.Coordinator.Connection.{notify}
use srt_whep.Signal.Coordinator.Terminate.{terminate}
use srt_whep.Signal.Coordinator.Handlers.{take_out, on_remove, handle}
use srt_whep.Signal.Coordinator.Accounts.{notify-connections}
use srt_whep.Signal.Coordinator.Changes.{restarts, notify-restarts}
use srt_whep.Signal.Coordinator.Growth.{change_grows, expire_all_grows}
use srt_whep.Service.{service}
use srt_whep.Service.Tidy.{
  Tidy, kept-Tidy, fed-Calm, detached-Tidy, notify-env, reaped-Tidy, deleted-Tidy, create-Tidy,
  offer-Calm, answer-Calm,
}
use srt_whep.Signal.Coordinator.Handlers.{expire_all, sweep_expired}
use srt_whep.Signal.Coordinator.Loop.{Wakeup, mailbox, branch_failure, sweep_tick, wake}
use srt_whep.Signal.Coordinator.Policy.{expired, expired_leg}
use srt_whep.Signal.Coordinator.Cases.{expired_cases}
use srt_whep.Signal.Coordinator.Operations.{expired-Change, remove_branch_bounded-restarts}
use srt_whep.Prelude.{Option-cases, inl, inr, ◌∷◌, []}
use srt_whep.Signal.Coordinator.Handlers.{reap_branch}
use srt_whep.Stream.Branch.Detach.{some-injective}

module _ {E H : Type 0} (g : Gst E H) (L : IsLawful g) (p : H) (lock : E → Result (Unit {0}) String)
    (wrapper : PipelineWrapper H) (at_p : wrapper.pipeline ≡ some p)
    (free : (w : E) → lock w ≡ ok tt) (now : E → ℕ) (is_closed : ℕ → E → Bool) where
  abbrev rt : Runtime E
  rt = service g lock wrapper now is_closed

  handle-Tidy :
      (cmd : Command) (s : Coordinator E)
      → ((reply : ℕ) → cmd ≢ reset reply)
      → Tidy g L p s
      → restarts (handle rt cmd s).log ≡ restarts s.log
      → Tidy g L p (handle rt cmd s)
  unfolding handle on_remove
  handle-Tidy (create_connection id reply) s other a h =
      create-Tidy g L p lock wrapper at_p free now is_closed id reply s a
  handle-Tidy (offer_received id sdp reply) s other a h =
      offer-Calm g L p lock wrapper at_p free now is_closed id sdp reply s a h
  handle-Tidy (answer_received id sdp reply) s other a h =
      answer-Calm g L p lock wrapper at_p free now is_closed id sdp reply s a h
  handle-Tidy (remove_connection id reply) s other a h =
      let b = deleted-Tidy g L p lock wrapper at_p free now is_closed id s a in
      record { queues = b.queues; unconnected = b.unconnected }
  handle-Tidy (list_connections reply) s other a h = record {
    queues = a.queues;
    unconnected = a.unconnected;
  }
  handle-Tidy (reset reply) s other a h = absurd (other reply refl)

  expired-Calm :
      (id : String) (s : Coordinator E)
      → Tidy g L p s
      → restarts (terminate rt id expired s).1.log ≡ restarts s.log
      → Tidy g L p (terminate rt id expired s).1
  expired-Calm id s a =
      expired_cases rt (λ o. restarts o.1.log ≡ restarts s.log → Tidy g L p o.1) id s
        (λ absent h.
          kept-Tidy g L p s _ a refl
            (λ j h'. sym (ap (lookup j) (erase_absent id s.connections absent)) ∙ h'))
        (λ state found.
          let told = notify state expired_leg id (take_out id s) in
          fed-Calm g L p lock wrapper at_p free now is_closed s _
            (remove_branch_bounded-restarts rt id told
              ∙ notify-restarts state expired_leg id (take_out id s))
            (detached-Tidy g L p lock wrapper at_p free now is_closed id s told a
              (notify-env g L p lock wrapper at_p free now is_closed state expired_leg id
                (take_out id s))
              (notify-connections state expired_leg id (take_out id s))))

  expire_all-Tidy :
      (ids : List String) (s : Coordinator E)
      → Tidy g L p s
      → restarts (expire_all rt ids s).log ≡ restarts s.log
      → Tidy g L p (expire_all rt ids s)
  unfolding expire_all
  expire_all-Tidy [] s a h = a
  expire_all-Tidy (id ∷ ids) s a h =
      let s' = (terminate rt id expired s).1 in
      let first_grows = change_grows (expired-Change rt id s) in
      let rest_grows = expire_all_grows rt ids s' in
      let calm : restarts s'.log ≡ restarts s.log = omega (arith, h, first_grows, rest_grows) in
      expire_all-Tidy ids s' (expired-Calm id s a calm) (h ∙ sym calm)

  swept_round :
      (s : Coordinator E)
      → Tidy g L p s
      → restarts (sweep_expired rt s).log ≡ restarts s.log
      → Tidy g L p (sweep_expired rt s)
  unfolding sweep_expired
  swept_round s a h = expire_all-Tidy _ s a h

  reaped_round : (id : String) (s : Coordinator E) → Tidy g L p s → Tidy g L p (reap_branch rt id s)
  unfolding reap_branch
  reaped_round id s a = elim (Option-cases (lookup id s.connections)) [
    | inl e ↦ rw (e, reap_branch) a
    | inr (state, e) ↦
        rw (e, reap_branch) (reaped-Tidy g L p lock wrapper at_p free now is_closed id s a)
  ]

  -- Where a pipeline is running, its lock is always got and its calls keep within their limits: if
  -- no element of a viewer who is not in the map is in the pipeline, and only queues stand under
  -- the names of branch queues, then this is so after every round of the coordinator's loop, be it for
  -- a command that is not a Reset, a branch that failed or a sweep, unless the watchdog asks for a
  -- restart in it.
  pub wake-Tidy :
      (w : Wakeup) (s s' : Coordinator E)
      → ((reply : ℕ) → w ≢ mailbox (some (reset reply)))
      → wake rt w s ≡ some s'
      → Tidy g L p s
      → restarts s'.log ≡ restarts s.log
      → Tidy g L p s'
  unfolding wake
  wake-Tidy (mailbox (some cmd)) s s' other e a h =
      let same = some-injective (handle rt cmd s) s' e in
      subst (Tidy g L p) same (
        handle-Tidy cmd s (λ reply eq. other reply (ap (λ c. mailbox (some c)) eq)) a
          (ap (λ x. restarts x.log) same ∙ h))
  wake-Tidy (mailbox none) s s' other e a h = cc e
  wake-Tidy (branch_failure branch) s s' other e a h =
      subst (Tidy g L p) (some-injective (reap_branch rt branch.id s) s' e)
        (reaped_round branch.id s a)
  wake-Tidy sweep_tick s s' other e a h =
      let same = some-injective (sweep_expired rt s) s' e in
      subst (Tidy g L p) same (swept_round s a (ap (λ x. restarts x.log) same ∙ h))
