-- ===== src/Signal/Coordinator/Advancing.antt =====
-- No round of the coordinator of src/signal/coordinator.rs turns the clock back or changes the
-- configuration.
use mathlib.Core.Path.{subst}
use mathlib.Core.Option.{some-injective}
use srt_whep.Prelude.{ℕ, String, true, ◌≡◌, refl, none, some, List, [], ◌∷◌, inl, inr, Option-cases}
use srt_whep.Prelude.HashMap.{lookup, erase}
use srt_whep.Domain.{SdpOffer, SdpAnswer}
use srt_whep.Signal.Messages.{
  Command, create_connection, offer_received, answer_received, remove_connection, list_connections,
  reset,
}
use srt_whep.Signal.Coordinator.State.{Runtime, ConnectionState, Coordinator}
use srt_whep.Signal.Coordinator.Policy.{
  WaiterNotice, deleted, expired, peer_gone, reaped, gone, expired_leg,
}
use srt_whep.Signal.Coordinator.Connection.{notify}
use srt_whep.Signal.Coordinator.Terminate.{remove_branch_bounded, feed_watchdog, terminate}
use srt_whep.Signal.Coordinator.Handlers.{
  take_out, add_branch_bounded, on_create, on_offer, on_answer, on_remove, reset_signal, handle,
  expired_ids, expire_all, sweep_expired, reap_branch,
}
use srt_whep.Signal.Coordinator.Loop.{Wakeup, mailbox, branch_failure, sweep_tick, wake}
use srt_whep.Signal.Coordinator.Cases.{deleted_cases, expired_cases, reaped_cases, peer_gone_cases}
use srt_whep.Signal.Coordinator.Legs.{create_cases, offer_cases, answer_cases}
use srt_whep.Signal.Coordinator.Endings.{erased}
use srt_whep.Signal.Coordinator.Timing.{
  IsMonotonic, Advances, Advances-trans, still, before, after, notify_still, reset_all_still,
  fed_still,
}

module _ {E : Type 0} (rt : Runtime E) where
  module _ (T : IsMonotonic rt) where
    added-Advances :
        (id : String) (s : Coordinator E) → Advances rt s (add_branch_bounded rt id s).1
    unfolding add_branch_bounded
    added-Advances id s =
        let forth = T.adds s.config.teardown_timeout id s.env in
        elim (Option-cases (rt.add_branch s.config.teardown_timeout id s.env).0) [
          | inl e ↦ rw (e, add_branch_bounded) (record { config = refl; forth = forth })
          | inr (r, e) ↦ rw (e, add_branch_bounded) (record { config = refl; forth = forth })
        ]

    removed-Advances :
        (id : String) (s : Coordinator E) → Advances rt s (remove_branch_bounded rt id s).1
    unfolding remove_branch_bounded
    removed-Advances id s =
        let forth = T.removes s.config.teardown_timeout id s.env in
        elim (Option-cases (rt.remove_branch s.config.teardown_timeout id s.env).0) [
          | inl e ↦ rw (e, remove_branch_bounded) (record { config = refl; forth = forth })
          | inr (r, e) ↦ rw (e, remove_branch_bounded) (record { config = refl; forth = forth })
        ]

    fed-Advances :
        {s s' : Coordinator E} → Advances rt s s' → Advances rt s (feed_watchdog rt true s')
    fed-Advances {s} {s'} h = let (e, c) = fed_still rt s' in after rt h e c

    deleted-Advances :
        (id : String) (s : Coordinator E) → Advances rt s (terminate rt id deleted s).1
    deleted-Advances id s =
        let removed = before rt refl refl (removed-Advances id (take_out id s)) in
        deleted_cases rt (λ o. Advances rt s o.1) id s (λ absent. still rt refl refl)
          (λ state e found refused. after rt removed refl refl)
          (λ state found done.
            let (e, c) =
              notify_still rt state gone id (remove_branch_bounded rt id (take_out id s)).1 in
            after rt removed e c)

    told-Advances :
        (state : ConnectionState) (n : WaiterNotice) (id : String) (s : Coordinator E)
        → Advances rt s (remove_branch_bounded rt id (notify state n id (take_out id s))).1
    told-Advances state n id s =
        let (e, c) = notify_still rt state n id (take_out id s) in
        before rt e c (removed-Advances id _)

    expired-Advances :
        (id : String) (s : Coordinator E) → Advances rt s (terminate rt id expired s).1
    expired-Advances id s =
        expired_cases rt (λ o. Advances rt s o.1) id s (λ absent. still rt refl refl)
          (λ state found. fed-Advances (told-Advances state expired_leg id s))

    reaped-Advances : (id : String) (s : Coordinator E) → Advances rt s (terminate rt id reaped s).1
    reaped-Advances id s =
        reaped_cases rt (λ o. Advances rt s o.1) id s (λ absent. still rt refl refl)
          (λ state found. told-Advances state gone id s)

    lost-Advances :
        (id : String) (s s' : Coordinator E)
        → s'.env ≡ s.env
        → s'.config ≡ s.config
        → s'.connections ≡ erase id s.connections
        → Advances rt s (terminate rt id peer_gone s').1
    lost-Advances id s s' e c taken =
        let out : lookup id s'.connections ≡ none = rw taken (erased rt 0 id s) in
        peer_gone_cases rt (λ o. Advances rt s o.1) id s' out
          (fed-Advances (before rt e c (removed-Advances id (take_out id s'))))

    create-Advances :
        (id : String) (reply : ℕ) (s : Coordinator E) → Advances rt s (on_create rt id reply s)
    create-Advances id reply s =
        create_cases rt (Advances rt s) id reply s (λ state found. still rt refl refl)
          (λ e absent refused. after rt (added-Advances id s) refl refl)
          (λ absent added. after rt (added-Advances id s) refl refl)

    offer-Advances :
        (id : String) (sdp : SdpOffer) (reply : ℕ) (s : Coordinator E)
        → Advances rt s (on_offer rt id sdp reply s)
    offer-Advances id sdp reply s =
        offer_cases rt (Advances rt s) id sdp reply s (λ absent. still rt refl refl)
          (λ state found other. still rt refl refl) (λ w d found arrives. still rt refl refl)
          (λ w d found lost. lost-Advances id s _ refl refl refl)

    answer-Advances :
        (id : String) (sdp : SdpAnswer) (reply : ℕ) (s : Coordinator E)
        → Advances rt s (on_answer rt id sdp reply s)
    answer-Advances id sdp reply s =
        answer_cases rt (Advances rt s) id sdp reply s (λ absent. still rt refl refl)
          (λ state found other. still rt refl refl) (λ w d found arrives. still rt refl refl)
          (λ w d found lost. lost-Advances id s _ refl refl refl)

    reap-Advances : (id : String) (s : Coordinator E) → Advances rt s (reap_branch rt id s)
    unfolding reap_branch
    reap-Advances id s = elim (Option-cases (lookup id s.connections)) [
      | inl e ↦ rw (e, reap_branch) (still rt refl refl)
      | inr (state, e) ↦ rw (e, reap_branch) (reaped-Advances id s)
    ]

    handle-Advances : (cmd : Command) (s : Coordinator E) → Advances rt s (handle rt cmd s)
    unfolding handle on_remove reset_signal
    handle-Advances (create_connection id reply) s = create-Advances id reply s
    handle-Advances (offer_received id sdp reply) s = offer-Advances id sdp reply s
    handle-Advances (answer_received id sdp reply) s = answer-Advances id sdp reply s
    handle-Advances (remove_connection id reply) s = after rt (deleted-Advances id s) refl refl
    handle-Advances (list_connections reply) s = still rt refl refl
    handle-Advances (reset reply) s = let (e, c) = reset_all_still rt s in still rt e c

    expire_all-Advances :
        (ids : List String) (s : Coordinator E) → Advances rt s (expire_all rt ids s)
    unfolding expire_all
    expire_all-Advances [] s = still rt refl refl
    expire_all-Advances (id ∷ ids) s =
        Advances-trans rt (expired-Advances id s)
          (expire_all-Advances ids (terminate rt id expired s).1)

  -- A round of the loop does not turn the clock back and leaves the configuration as it is.
  pub wake-Advances :
      IsMonotonic rt
      → (w : Wakeup) (s s' : Coordinator E) → wake rt w s ≡ some s'
      → Advances rt s s'
  unfolding wake sweep_expired
  wake-Advances T (mailbox (some cmd)) s s' e =
      subst (Advances rt s) (some-injective (handle rt cmd s) s' e) (handle-Advances T cmd s)
  wake-Advances T (mailbox none) s s' e = cc e
  wake-Advances T (branch_failure branch) s s' e =
      subst (Advances rt s) (some-injective (reap_branch rt branch.id s) s' e)
        (reap-Advances T branch.id s)
  wake-Advances T sweep_tick s s' e =
      subst (Advances rt s) (some-injective (sweep_expired rt s) s' e)
        (expire_all-Advances T (expired_ids (rt.now s.env) s.connections) s)
