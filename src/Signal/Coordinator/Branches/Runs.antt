-- ===== src/Signal/Coordinator/Branches/Runs.antt =====
-- The map of src/signal/coordinator.rs and the pipeline's answers over whole runs.
use srt_whep.Prelude.{
  ℕ, ◌+◌, String, Bool, true, false, ◌≡◌, refl, none, some, List, [], ◌∷◌, arith, inl, inr, ◌||◌,
  Option-cases, eq_iff,
}
use srt_whep.Prelude.HashMap.{lookup, lookup-insert}
use srt_whep.Domain.{SdpOffer, SdpAnswer}
use srt_whep.Signal.Messages.{
  Command, create_connection, offer_received, answer_received, remove_connection, list_connections,
  reset,
}
use srt_whep.Signal.Coordinator.Config.{CoordinatorConfig}
use srt_whep.Signal.Coordinator.State.{
  Runtime, awaiting_offer, awaiting_answer, established, Coordinator, init,
}
use srt_whep.Signal.Coordinator.Handlers.{
  add_branch_bounded, on_create, on_offer, on_answer, on_remove, expire_all, sweep_expired,
  reap_branch, handle,
}
use srt_whep.Signal.Coordinator.Loop.{Wakeup, mailbox, branch_failure, sweep_tick, wake, run}
use srt_whep.Signal.Coordinator.Legs.{create_cases, offer_cases, answer_cases}
use srt_whep.Signal.Coordinator.Changes.{at}
use srt_whep.Signal.Coordinator.Replies.{add_branch_bounded-connections}
use srt_whep.Signal.Coordinator.Branches.{
  attached, after_add, fate, agrees, Agree, moved, kept, known, put_back,
}
use srt_whep.Signal.Coordinator.Branches.Ends.{
  expired-Agree, reaped-Agree, added-fate, undone_addition, attached_addition, deleted-Agree,
  lost-Agree,
}

module _ {E : Type 0} (rt : Runtime E) where
  on_create-Agree :
      (id : String) (reply : ℕ) (s : Coordinator E) → Agree s → Agree (on_create rt id reply s)
  on_create-Agree id reply s a =
      create_cases rt Agree id reply s (λ state found. record { each = a.each })
        (λ e fresh failed.
          let after =
            after_add (rt.add_branch s.config.teardown_timeout id s.env).0 (fate id s.log) in
          moved id none after a
            (λ j.
              rw (add_branch_bounded-connections rt 0 id s) (ground (arith, fresh, eq_iff id j)))
            (λ j. ground (arith, added-fate rt id j s, eq_iff id j))
            (undone_addition rt id s e (ground (arith, a.each id, fresh)) failed))
        (λ fresh added.
          let s' = (add_branch_bounded rt id s).1 in
          let parked = awaiting_offer reply (rt.now s'.env + s'.config.offer_timeout) in
          moved id (some parked) attached a
            (λ j.
              rw (add_branch_bounded-connections rt 0 id s)
                (lookup-insert id j parked s.connections))
            (λ j.
              ground (arith, added-fate rt id j s, attached_addition rt id s added, eq_iff id j))
            refl)

  on_offer-Agree :
      (id : String) (sdp : SdpOffer) (reply : ℕ) (s : Coordinator E)
      → Agree s
      → Agree (on_offer rt id sdp reply s)
  on_offer-Agree id sdp reply s a =
      offer_cases rt Agree id sdp reply s (λ none_there. record { each = a.each })
        (λ state found other.
          kept id (some state) a (put_back id s state) (λ j. refl) (known id s state state a found))
        (λ w d found arrives.
          let moved_on = awaiting_answer reply (rt.now s.env + s.config.answer_timeout) in
          kept id (some moved_on) a (put_back id s moved_on) (λ j. refl)
            (known id s (awaiting_offer w d) moved_on a found))
        (λ w d found lost. lost-Agree rt id s _ a refl (λ j. refl))

  on_answer-Agree :
      (id : String) (sdp : SdpAnswer) (reply : ℕ) (s : Coordinator E)
      → Agree s
      → Agree (on_answer rt id sdp reply s)
  on_answer-Agree id sdp reply s a =
      answer_cases rt Agree id sdp reply s (λ none_there. record { each = a.each })
        (λ state found other.
          kept id (some state) a (put_back id s state) (λ j. refl) (known id s state state a found))
        (λ w d found arrives.
          let moved_on = established (rt.now s.env) in
          kept id (some moved_on) a (put_back id s moved_on) (λ j. refl)
            (known id s (awaiting_answer w d) moved_on a found))
        (λ w d found lost. lost-Agree rt id s _ a refl (λ j. refl))

  expire_all-Agree : (ids : List String) (s : Coordinator E) → Agree s → Agree (expire_all rt ids s)
  unfolding expire_all
  expire_all-Agree [] s a = a
  expire_all-Agree (id ∷ ids) s a = expire_all-Agree ids _ (expired-Agree rt id s a)

  reap_branch-Agree : (id : String) (s : Coordinator E) → Agree s → Agree (reap_branch rt id s)
  unfolding reap_branch
  reap_branch-Agree id s a = elim (Option-cases (lookup id s.connections)) [
    | inl e ↦ rw (e, reap_branch) a
    | inr (state, e) ↦ rw (e, reap_branch) (reaped-Agree rt id s a)
  ]

  abbrev is_reset : Command → Bool
  is_reset (reset reply) = true
  is_reset (create_connection id reply) = false
  is_reset (offer_received id sdp reply) = false
  is_reset (answer_received id sdp reply) = false
  is_reset (remove_connection id reply) = false
  is_reset (list_connections reply) = false

  handle-Agree :
      (cmd : Command) (s : Coordinator E) → is_reset cmd ≡ false → Agree s → Agree (handle rt cmd s)
  unfolding handle on_remove
  handle-Agree (create_connection id reply) s h a = on_create-Agree id reply s a
  handle-Agree (offer_received id sdp reply) s h a = on_offer-Agree id sdp reply s a
  handle-Agree (answer_received id sdp reply) s h a = on_answer-Agree id sdp reply s a
  handle-Agree (remove_connection id reply) s h a =
      let b = deleted-Agree rt id s a in record { each = b.each }
  handle-Agree (list_connections reply) s h a = record { each = a.each }
  handle-Agree (reset reply) s h a = cc

  -- The schedule has a Reset among its commands.
  abbrev pub has_reset : List (E × Wakeup) → Bool
  has_reset [] = false
  has_reset ((env, mailbox (some cmd)) ∷ rest) = is_reset cmd || has_reset rest
  has_reset ((env, mailbox none) ∷ rest) = has_reset rest
  has_reset ((env, branch_failure branch) ∷ rest) = has_reset rest
  has_reset ((env, sweep_tick) ∷ rest) = has_reset rest

  run-Agree :
      (sched : List (E × Wakeup)) (s : Coordinator E)
      → has_reset sched ≡ false
      → Agree s
      → Agree (run rt sched s)
  unfolding run wake sweep_expired
  run-Agree [] s h a = a
  run-Agree ((env, mailbox none) ∷ rest) s h a = record { each = a.each }
  run-Agree ((env, mailbox (some cmd)) ∷ rest) s h a =
      run-Agree rest _ (ground arith)
        (handle-Agree cmd (record s { env = env }) (ground arith) (record { each = a.each }))
  run-Agree ((env, branch_failure branch) ∷ rest) s h a =
      run-Agree rest _ h
        (reap_branch-Agree branch.id (record s { env = env }) (record { each = a.each }))
  run-Agree ((env, sweep_tick) ∷ rest) s h a =
      run-Agree rest _ h (expire_all-Agree _ (record s { env = env }) (record { each = a.each }))

-- From the start, for every schedule without a Reset, and whatever the pipeline answers: a connection
-- that is in the map has no branch that the pipeline has reported removed or never attached, and an id
-- that is not in the map has no branch that was reported attached and not since removed, failed or put in
-- doubt by a timeout or a restart.
pub run-init_agrees :
    {E : Type 0} (rt : Runtime E) (env : E) (config : CoordinatorConfig) (sched : List (E × Wakeup))
    → has_reset rt sched ≡ false
    → (id : String)
    → let s = run rt sched (init env config) in agrees (at id s) (fate id s.log) ≡ true
unfolding init lookup
run-init_agrees rt env config sched h id =
    (run-Agree rt sched (init env config) h (record { each = λ j. refl })).each id
