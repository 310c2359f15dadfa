-- ===== src/Signal/Coordinator/Operations.antt =====
-- What each operation of src/signal/coordinator.rs may do to the map of connections.
use mathlib.Core.Path.{subst}
use srt_whep.Prelude.{
  ℕ, String, true, false, ◌≡◌, refl, ap, ◌∙◌, none, some, List, arith, inl, inr, Option-cases,
  str_eq, eq_iff,
}
use srt_whep.Prelude.Results.{Result}
use srt_whep.Prelude.HashMap.{lookup, erase, insert, lookup-erase, lookup-insert, erase_absent}
use srt_whep.Domain.{SdpOffer, SdpAnswer}
use srt_whep.Signal.Errors.{SignalError}
use srt_whep.Signal.Coordinator.State.{Runtime, ConnectionState, unit_reply, Coordinator, emit}
use srt_whep.Signal.Coordinator.Policy.{
  WaiterNotice, deleted, expired, peer_gone, reaped, gone, expired_leg,
}
use srt_whep.Signal.Watchdog.{record_failure}
use srt_whep.Signal.Coordinator.Connection.{notify}
use srt_whep.Signal.Coordinator.Terminate.{remove_branch_bounded, feed_watchdog, terminate}
use srt_whep.Signal.Coordinator.Handlers.{
  take_out, add_branch_bounded, on_create, on_offer, on_answer, on_remove, reap_branch,
}
use srt_whep.Signal.Coordinator.Cases.{
  feed_cases, deleted_cases, expired_cases, reaped_cases, peer_gone_cases,
}
use srt_whep.Signal.Coordinator.Legs.{create_cases, offer_cases, answer_cases}
use srt_whep.Signal.Coordinator.Accounts.{notify-connections, reset_all-connections}
use srt_whep.Signal.Coordinator.Endings.{remove_branch_bounded-connections, erased}
use srt_whep.Signal.Coordinator.Replies.{add_branch_bounded-connections}
use srt_whep.Signal.Coordinator.Changes.{
  Change, Moves, all, answered, at, created, ended, notify-restarts, offered, one,
  reset_all-restarts, restarts, stays, Trips,
}

module _ {E : Type 0} (rt : Runtime E) where
  pub remove_branch_bounded-restarts :
      (id : String) (s : Coordinator E)
      → restarts (remove_branch_bounded rt id s).1.log ≡ restarts s.log
  unfolding remove_branch_bounded
  remove_branch_bounded-restarts id s = ground arith

  pub remove_branch_bounded-watchdog :
      (id : String) (s : Coordinator E) → (remove_branch_bounded rt id s).1.watchdog ≡ s.watchdog
  unfolding remove_branch_bounded
  remove_branch_bounded-watchdog id s = ground arith

  pub notify-watchdog :
      (state : ConnectionState) (n : WaiterNotice) (id : String) (s : Coordinator E)
      → (notify state n id s).watchdog ≡ s.watchdog
  unfolding notify
  notify-watchdog state n id s = ground arith

  add_branch_bounded-restarts :
      (id : String) (s : Coordinator E)
      → restarts (add_branch_bounded rt id s).1.log ≡ restarts s.log
  unfolding add_branch_bounded
  add_branch_bounded-restarts id s = ground arith

  -- An entry that was taken out and told: gone, unless the watchdog ends all.
  ends :
      {id : String} {s s' : Coordinator E} {state : ConnectionState}
      → at id s ≡ some state
      → s'.connections ≡ erase id s.connections
      → restarts s'.log ≡ restarts s.log
      → Change id s s'
  ends {id} {s} {s'} found c r =
      one none (rw found ended) (λ j. rw c (lookup-erase id j s.connections)) r

  abbrev pub fed : Coordinator E → Coordinator E
  fed s = record s { watchdog = (record_failure (rt.now s.env) s.watchdog).1 }

  fed_ends :
      {id : String} {s : Coordinator E} {state : ConnectionState} (s' : Coordinator E)
      → at id s ≡ some state
      → s'.connections ≡ erase id s.connections
      → restarts s'.log ≡ restarts s.log
      → s'.watchdog ≡ s.watchdog
      → Change id s (feed_watchdog rt true s')
  fed_ends {id} {s} s' found c r dog =
      feed_cases rt (Change id s) s'
        (λ tripped.
          all (subst Trips dog (rt.now s'.env, tripped)) (reset_all-connections _)
            (omega (arith, reset_all-restarts (fed s'), r)))
        (λ _. ends found c r)

  -- Nothing moves.
  idle :
      {id : String} {s s' : Coordinator E}
      → s'.connections ≡ s.connections
      → restarts s'.log ≡ restarts s.log
      → Change id s s'
  idle {id} {s} {s'} c r = one (at id s) stays (λ j. rw c (ground (arith, eq_iff id j))) r

  missing :
      {id : String} {s s' : Coordinator E}
      → at id s ≡ none
      → s'.connections ≡ erase id s.connections
      → restarts s'.log ≡ restarts s.log
      → Change id s s'
  missing {id} {s} {s'} absent c r =
      one none (rw absent stays) (λ j. rw c (lookup-erase id j s.connections)) r

  -- The entry is put anew, in another state or in the same.
  puts :
      {id : String} {s s' : Coordinator E} (state : ConnectionState)
      (m : List (String × ConnectionState))
      → Moves (at id s) (some state)
      → s'.connections ≡ insert id state m
      → ((j : String) → str_eq id j ≡ false → lookup j m ≡ at j s)
      → restarts s'.log ≡ restarts s.log
      → Change id s s'
  puts {id} {s} {s'} state m step c others r =
      one (some state) step (λ j. rw c (ground (arith, lookup-insert id j state m, others j))) r

  erase_others :
      (id : String) (s : Coordinator E) (j : String)
      → str_eq id j ≡ false
      → lookup j (erase id s.connections) ≡ at j s
  erase_others id s j e = ground (arith, lookup-erase id j s.connections)

  pub detached :
      (id : String) (s : Coordinator E)
      → (remove_branch_bounded rt id s).1.connections ≡ s.connections
  detached id s = remove_branch_bounded-connections rt 0 id s

  then_reply :
      {id : String} {s s' : Coordinator E} {reply : ℕ} {r : Result (Unit {0}) SignalError}
      → Change id s s'
      → Change id s (emit (unit_reply reply r) s')
  then_reply (one o m l r) = one o m l r
  then_reply (all t c r) = all t c r

  pub deleted-Change : (id : String) (s : Coordinator E) → Change id s (terminate rt id deleted s).1
  deleted-Change id s =
      deleted_cases rt (λ r. Change id s r.1) id s (λ absent. missing absent refl refl)
        (λ state e found refused.
          puts state _ (rw found stays) refl
            (λ j other. rw (detached id (take_out id s)) (erase_others id s j other))
            (remove_branch_bounded-restarts id (take_out id s)))
        (λ state found done.
          ends found (notify-connections state gone id _ ∙ detached id (take_out id s))
            (notify-restarts state gone id _ ∙ remove_branch_bounded-restarts id (take_out id s)))

  pub expired-Change : (id : String) (s : Coordinator E) → Change id s (terminate rt id expired s).1
  expired-Change id s =
      expired_cases rt (λ r. Change id s r.1) id s (λ absent. missing absent refl refl)
        (λ state found.
          fed_ends _ found (detached id _ ∙ notify-connections state expired_leg id (take_out id s))
            (remove_branch_bounded-restarts id _
              ∙ notify-restarts state expired_leg id (take_out id s))
            (remove_branch_bounded-watchdog id _
              ∙ notify-watchdog state expired_leg id (take_out id s)))

  pub reaped-Change : (id : String) (s : Coordinator E) → Change id s (terminate rt id reaped s).1
  reaped-Change id s =
      reaped_cases rt (λ r. Change id s r.1) id s (λ absent. missing absent refl refl)
        (λ state found.
          ends found (detached id _ ∙ notify-connections state gone id (take_out id s))
            (remove_branch_bounded-restarts id _ ∙ notify-restarts state gone id (take_out id s)))

  -- The handler took the entry out, and its peer is gone.
  peer_gone-Change :
      (id : String) (s s' : Coordinator E) (state : ConnectionState)
      → at id s ≡ some state
      → s'.connections ≡ erase id s.connections
      → restarts s'.log ≡ restarts s.log
      → s'.watchdog ≡ s.watchdog
      → Change id s (terminate rt id peer_gone s').1
  peer_gone-Change id s s' state found c r dog =
      let absent : at id s' ≡ none = rw c (erased rt 0 id s) in
      peer_gone_cases rt (λ r. Change id s r.1) id s' absent
        (fed_ends _ found (detached id (take_out id s') ∙ erase_absent id s'.connections absent ∙ c)
          (remove_branch_bounded-restarts id (take_out id s') ∙ r)
          (remove_branch_bounded-watchdog id (take_out id s') ∙ dog))

  pub on_create-Change :
      (id : String) (reply : ℕ) (s : Coordinator E) → Change id s (on_create rt id reply s)
  on_create-Change id reply s =
      create_cases rt (Change id s) id reply s (λ state found. idle refl refl)
        (λ e absent refused.
          idle (add_branch_bounded-connections rt 0 id s) (add_branch_bounded-restarts id s))
        (λ absent added.
          puts _ _ (rw absent created) refl
            (λ j other. rw (add_branch_bounded-connections rt 0 id s) refl)
            (add_branch_bounded-restarts id s))

  pub on_offer-Change :
      (id : String) (sdp : SdpOffer) (reply : ℕ) (s : Coordinator E)
      → Change id s (on_offer rt id sdp reply s)
  on_offer-Change id sdp reply s =
      offer_cases rt (Change id s) id sdp reply s (λ absent. idle refl refl)
        (λ state found other. puts state _ (rw found stays) refl (erase_others id s) refl)
        (λ w d found arrives. puts _ _ (rw found offered) refl (erase_others id s) refl)
        (λ w d found lost. peer_gone-Change id s _ _ found refl refl refl)

  pub on_answer-Change :
      (id : String) (sdp : SdpAnswer) (reply : ℕ) (s : Coordinator E)
      → Change id s (on_answer rt id sdp reply s)
  on_answer-Change id sdp reply s =
      answer_cases rt (Change id s) id sdp reply s (λ absent. idle refl refl)
        (λ state found other. puts state _ (rw found stays) refl (erase_others id s) refl)
        (λ w d found arrives. puts _ _ (rw found answered) refl (erase_others id s) refl)
        (λ w d found lost. peer_gone-Change id s _ _ found refl refl refl)

  pub on_remove-Change :
      (id : String) (reply : ℕ) (s : Coordinator E) → Change id s (on_remove rt id reply s)
  unfolding on_remove
  on_remove-Change id reply s = then_reply (deleted-Change id s)

  -- The failure of one branch does not feed the watchdog.
  pub reap_branch-others :
      (id j : String) (s : Coordinator E)
      → str_eq id j ≡ false
      → (at j (reap_branch rt id s) ≡ at j s)
        × (restarts (reap_branch rt id s).log ≡ restarts s.log)
  unfolding reap_branch
  reap_branch-others id j s other = elim (Option-cases (lookup id s.connections)) [
    | inl e ↦ rw (e, reap_branch) (refl, refl)
    | inr (state, e) ↦
        rw (e, reap_branch)
          (reaped_cases rt (λ r. (at j r.1 ≡ at j s) × (restarts r.1.log ≡ restarts s.log)) id s
            (λ absent. (erase_others id s j other, refl))
            (λ found_state found. (
              ap (lookup j) (detached id _ ∙ notify-connections found_state gone id (take_out id s))
                  ∙ erase_others id s j other,
              remove_branch_bounded-restarts id _
                  ∙ notify-restarts found_state gone id (take_out id s),
            )))
  ]

  pub reap_branch-Change : (id : String) (s : Coordinator E) → Change id s (reap_branch rt id s)
  unfolding reap_branch
  reap_branch-Change id s = elim (Option-cases (lookup id s.connections)) [
    | inl e ↦ rw (e, reap_branch) (idle refl refl)
    | inr (state, e) ↦ rw (e, reap_branch) (reaped-Change id s)
  ]
