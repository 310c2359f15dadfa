-- ===== src/Signal/Coordinator/Replies.antt =====
-- No request to the coordinator of src/signal/coordinator.rs is lost, and none is answered twice.
use srt_whep.Prelude.{
  ℕ, ◌+◌, String, ◌≡◌, refl, none, some, List, [], ◌∷◌, arith, inl, inr, Option-cases,
}
use srt_whep.Prelude.HashMap.{
  lookup, total, HasUniqueKeys, erase, total-insert, erase-HasUniqueKeys, insert-HasUniqueKeys,
}
use srt_whep.Domain.{SdpOffer, SdpAnswer}
use srt_whep.Signal.Messages.{
  Command, create_connection, offer_received, answer_received, remove_connection, list_connections,
  reset,
}
use srt_whep.Signal.Coordinator.State.{Runtime, established, Coordinator, init}
use srt_whep.Signal.Coordinator.Config.{CoordinatorConfig}
use srt_whep.Signal.Watchdog.{record_success}
use srt_whep.Signal.Coordinator.Handlers.{
  add_branch_bounded, on_create, on_offer, on_answer, on_remove, expire_all, sweep_expired,
  reap_branch, reset_signal, handle,
}
use srt_whep.Signal.Coordinator.Loop.{Wakeup, mailbox, branch_failure, sweep_tick, wake, run}
use srt_whep.Signal.Coordinator.Legs.{create_cases, offer_cases, answer_cases}
use srt_whep.Signal.Coordinator.Accounts.{
  is, holds, sent, parked, Accounts, Accounts-trans, put-Accounts, emit-Accounts,
  reset_all-Accounts, reset_all-sent, reset_all-connections,
}
use srt_whep.Signal.Coordinator.Endings.{
  taken-Accounts, deleted-Accounts, expired-Accounts, reaped-Accounts, peer_gone-Accounts, erased,
}

-- The channel that a command brings.
abbrev pub channel : Command → ℕ
channel (create_connection id reply) = reply
channel (offer_received id sdp reply) = reply
channel (answer_received id sdp reply) = reply
channel (remove_connection id reply) = reply
channel (list_connections reply) = reply
channel (reset reply) = reply

-- How often a schedule brings the channel, up to the wake-up that ends the loop.
abbrev pub received : {E : Type 0} → ℕ → List (E × Wakeup) → ℕ
received ch [] = 0
received ch ((env, mailbox none) ∷ rest) = 0
received ch ((env, mailbox (some cmd)) ∷ rest) = is ch (channel cmd) + received ch rest
received ch ((env, branch_failure branch) ∷ rest) = received ch rest
received ch ((env, sweep_tick) ∷ rest) = received ch rest

module _ {E : Type 0} (rt : Runtime E) (ch : ℕ) where
  pub add_branch_bounded-connections :
      (id : String) (s : Coordinator E) → (add_branch_bounded rt id s).1.connections ≡ s.connections
  unfolding add_branch_bounded
  add_branch_bounded-connections id s = ground arith

  add_branch_bounded-sent :
      (id : String) (s : Coordinator E) → sent ch (add_branch_bounded rt id s).1.log ≡ sent ch s.log
  unfolding add_branch_bounded
  add_branch_bounded-sent id s = ground arith

  add_branch_bounded-Accounts :
      (id : String) (s : Coordinator E)
      → HasUniqueKeys s.connections
      → Accounts ch 0 s (add_branch_bounded rt id s).1
  add_branch_bounded-Accounts id s u =
      let same = add_branch_bounded-connections id s in
      record {
        unique = rw same u;
        balanced = rw same (omega (arith, add_branch_bounded-sent id s));
      }

  on_create-Accounts :
      (id : String) (reply : ℕ) (s : Coordinator E)
      → HasUniqueKeys s.connections
      → Accounts ch (is ch reply) s (on_create rt id reply s)
  on_create-Accounts id reply s u =
      let a = add_branch_bounded-Accounts id s u in
      create_cases rt (Accounts ch (is ch reply) s) id reply s
        (λ state found. emit-Accounts ch _ s u)
        (λ e fresh refused. Accounts-trans ch a (emit-Accounts ch _ _ a.unique) (omega arith))
        (λ fresh added.
          Accounts-trans ch a
            (put-Accounts ch _ id _ a.unique (rw (add_branch_bounded-connections id s) fresh))
            (omega arith))

  -- A waiter that was taken out gets its reply, and the request that brought it is parked or answered.
  on_offer-Accounts :
      (id : String) (sdp : SdpOffer) (reply : ℕ) (s : Coordinator E)
      → HasUniqueKeys s.connections
      → Accounts ch (is ch reply) s (on_offer rt id sdp reply s)
  on_offer-Accounts id sdp reply s u =
      let u' = erase-HasUniqueKeys id s.connections u in
      let e' = erased rt ch id s in
      offer_cases rt (Accounts ch (is ch reply) s) id sdp reply s (λ fresh. emit-Accounts ch _ s u)
        (λ state found other. taken-Accounts rt ch id s _ state u found (
          Accounts-trans ch (put-Accounts ch state id _ u' e')
            (emit-Accounts ch _ _ (insert-HasUniqueKeys id state _ u')) (omega arith)))
        (λ w d found open_. taken-Accounts rt ch id s _ _ u found (
          Accounts-trans ch (emit-Accounts ch _ _ u') (put-Accounts ch _ id _ u' e') (omega arith)))
        (λ w d found closed. taken-Accounts rt ch id s _ _ u found (
          Accounts-trans ch
            (Accounts-trans ch (emit-Accounts ch _ _ u') (emit-Accounts ch _ _ u') refl)
            (peer_gone-Accounts rt ch id _ u' e') (omega arith)))

  on_answer-Accounts :
      (id : String) (sdp : SdpAnswer) (reply : ℕ) (s : Coordinator E)
      → HasUniqueKeys s.connections
      → Accounts ch (is ch reply) s (on_answer rt id sdp reply s)
  on_answer-Accounts id sdp reply s u =
      let u' = erase-HasUniqueKeys id s.connections u in
      let e' = erased rt ch id s in
      answer_cases rt (Accounts ch (is ch reply) s) id sdp reply s (λ fresh. emit-Accounts ch _ s u)
        (λ state found other. taken-Accounts rt ch id s _ state u found (
          Accounts-trans ch (put-Accounts ch state id _ u' e')
            (emit-Accounts ch _ _ (insert-HasUniqueKeys id state _ u')) (omega arith)))
        (λ w d found arrives. taken-Accounts rt ch id s _ _ u found (record {
          unique = insert-HasUniqueKeys id _ _ u';
          balanced = omega (
            arith,
            total-insert (holds ch) id (established (rt.now s.env)) (erase id s.connections) e',
          );
        }))
        (λ w d found lost. taken-Accounts rt ch id s _ _ u found (
          Accounts-trans ch
            (Accounts-trans ch (emit-Accounts ch _ _ u') (emit-Accounts ch _ _ u') refl)
            (peer_gone-Accounts rt ch id _ u' e') (omega arith)))

  on_remove-Accounts :
      (id : String) (reply : ℕ) (s : Coordinator E)
      → HasUniqueKeys s.connections
      → Accounts ch (is ch reply) s (on_remove rt id reply s)
  unfolding on_remove
  on_remove-Accounts id reply s u =
      let a = deleted-Accounts rt ch id s u in
      Accounts-trans ch a (emit-Accounts ch _ _ a.unique) (omega arith)

  expire_all-Accounts :
      (ids : List String) (s : Coordinator E)
      → HasUniqueKeys s.connections
      → Accounts ch 0 s (expire_all rt ids s)
  unfolding expire_all
  expire_all-Accounts [] s u = record { unique = u; balanced = omega arith }
  expire_all-Accounts (id ∷ ids) s u =
      let a = expired-Accounts rt ch id s u in
      Accounts-trans ch a (expire_all-Accounts ids _ a.unique) (omega arith)

  sweep_expired-Accounts :
      (s : Coordinator E) → HasUniqueKeys s.connections → Accounts ch 0 s (sweep_expired rt s)
  unfolding sweep_expired
  sweep_expired-Accounts s u = expire_all-Accounts _ s u

  reap_branch-Accounts :
      (id : String) (s : Coordinator E)
      → HasUniqueKeys s.connections
      → Accounts ch 0 s (reap_branch rt id s)
  unfolding reap_branch
  reap_branch-Accounts id s u = elim (Option-cases (lookup id s.connections)) [
    | inl e ↦ rw (e, reap_branch) (record { unique = u; balanced = omega arith })
    | inr (state, e) ↦ rw (e, reap_branch) (reaped-Accounts rt ch id s u)
  ]

  handle-Accounts :
      (cmd : Command) (s : Coordinator E)
      → HasUniqueKeys s.connections
      → Accounts ch (is ch (channel cmd)) s (handle rt cmd s)
  unfolding handle reset_signal
  handle-Accounts (create_connection id reply) s u = on_create-Accounts id reply s u
  handle-Accounts (offer_received id sdp reply) s u = on_offer-Accounts id sdp reply s u
  handle-Accounts (answer_received id sdp reply) s u = on_answer-Accounts id sdp reply s u
  handle-Accounts (remove_connection id reply) s u = on_remove-Accounts id reply s u
  handle-Accounts (list_connections reply) s u = emit-Accounts ch _ s u
  handle-Accounts (reset reply) s u =
      let a = reset_all-Accounts ch s in
      record { unique = a.unique; balanced = omega (arith, a.balanced) }

  run-Accounts :
      (sched : List (E × Wakeup)) (s : Coordinator E)
      → HasUniqueKeys s.connections
      → Accounts ch (received ch sched) s (run rt sched s)
  unfolding run wake
  run-Accounts [] s u = record { unique = u; balanced = omega arith }
  run-Accounts ((env, mailbox none) ∷ rest) s u = record { unique = u; balanced = omega arith }
  run-Accounts ((env, mailbox (some cmd)) ∷ rest) s u =
      let a = handle-Accounts cmd (record s { env = env }) u in
      let b = run-Accounts rest _ a.unique in
      record { unique = b.unique; balanced = omega (arith, a.balanced, b.balanced) }
  run-Accounts ((env, branch_failure branch) ∷ rest) s u =
      let a = reap_branch-Accounts branch.id (record s { env = env }) u in
      let b = run-Accounts rest _ a.unique in
      record { unique = b.unique; balanced = omega (arith, a.balanced, b.balanced) }
  run-Accounts ((env, sweep_tick) ∷ rest) s u =
      let a = sweep_expired-Accounts (record s { env = env }) u in
      let b = run-Accounts rest _ a.unique in
      record { unique = b.unique; balanced = omega (arith, a.balanced, b.balanced) }

-- From the start, whatever the schedule, the times and the pipeline's answers: a reply channel is parked
-- on as many connections as it came in commands that are not answered yet, so that a channel that came
-- once is either parked on one connection or has been given exactly one reply. The ids stay distinct.
pub run-init_balanced :
    {E : Type 0} (rt : Runtime E) (env : E) (config : CoordinatorConfig) (sched : List (E × Wakeup))
    → HasUniqueKeys (run rt sched (init env config)).connections
      × ((ch : ℕ)
          → parked ch (run rt sched (init env config)).connections
              + sent ch (run rt sched (init env config)).log
            ≡ received ch sched)
unfolding init total
run-init_balanced rt env config sched = (
  (run-Accounts rt 0 sched (init env config) tt).unique,
  λ ch. omega (arith, (run-Accounts rt ch sched (init env config) tt).balanced),
)

-- After a Reset that follows any schedule no connection is left, the watchdog has forgotten all
-- failures, and every channel ever received has been given a reply for each time that it came.
pub run-reset_answers_all :
    {E : Type 0} (rt : Runtime E) (env : E) (config : CoordinatorConfig) (sched : List (E × Wakeup))
    (reply : ℕ)
    → let s = handle rt (reset reply) (run rt sched (init env config)) in
      (s.connections ≡ [])
      × (s.watchdog.consecutive_failures ≡ 0)
      × (s.watchdog.last_failure ≡ none)
      × ((ch : ℕ) → sent ch s.log ≡ received ch sched + is ch reply)
unfolding handle reset_signal record_success
run-reset_answers_all rt env config sched reply =
    let s = run rt sched (init env config) in
    let empty = reset_all-connections s in
    (
      empty,
      refl,
      refl,
      λ ch. omega (arith, (run-init_balanced rt env config sched).1 ch, reset_all-sent ch s),
    )
