-- ===== src/Signal/Coordinator/Legs.antt =====
-- The branches of the handlers of src/signal/coordinator.rs, as rules that prove a property of the
-- result by proving it on every branch.
use srt_whep.Prelude.{
  ℕ, ◌+◌, String, Bool, true, false, ◌≡◌, refl, none, some, inl, inr, arith, Option-cases,
  Bool-cases,
}
use srt_whep.Prelude.Results.{ok, err, Result-cases}
use srt_whep.Prelude.HashMap.{lookup}
use srt_whep.Domain.{SdpOffer, SdpAnswer}
use srt_whep.Signal.Errors.{SignalError}
use srt_whep.Signal.Watchdog.{record_success}
use srt_whep.Signal.Coordinator.State.{
  Runtime, ConnectionState, awaiting_offer, awaiting_answer, established, offer_reply, answer_reply,
  unit_reply, Coordinator, emit,
}
use srt_whep.Signal.Coordinator.Policy.{peer_gone}
use srt_whep.Signal.Coordinator.Terminate.{terminate}
use srt_whep.Signal.Coordinator.Connection.{deliver_offer, deliver_answer}
use srt_whep.Signal.Coordinator.Handlers.{
  put, take_out, add_branch_bounded, admit, on_create, offer_to, on_offer, answer_to, on_answer,
}

-- The leg that a connection is on.
abbrev pub awaits_offer : ConnectionState → Bool
awaits_offer (awaiting_offer whep_reply d) = true
awaits_offer (awaiting_answer whip_reply d) = false
awaits_offer (established since) = false

abbrev pub awaits_answer : ConnectionState → Bool
awaits_answer (awaiting_offer whep_reply d) = false
awaits_answer (awaiting_answer whip_reply d) = true
awaits_answer (established since) = false

module _ {E : Type 0} (rt : Runtime E) where
  -- `create_connection`: a known id, a branch that cannot be added, or a new connection.
  pub create_cases {ℓ} :
      (P : Coordinator E → Type ℓ) (id : String) (reply : ℕ) (s : Coordinator E)
      → ((state : ConnectionState)
          → lookup id s.connections ≡ some state
          → P (emit (offer_reply reply (err (SignalError.wrong_state id))) s))
      → ((e : SignalError)
          → lookup id s.connections ≡ none
          → (add_branch_bounded rt id s).0 ≡ err e
          → P (emit (offer_reply reply (err e)) (add_branch_bounded rt id s).1))
      → (lookup id s.connections ≡ none
          → (add_branch_bounded rt id s).0 ≡ ok tt
          → let s' = (add_branch_bounded rt id s).1 in
            P (put id (awaiting_offer reply (rt.now s'.env + s'.config.offer_timeout)) s'))
      → P (on_create rt id reply s)
  unfolding on_create admit
  create_cases P id reply s known refused added = elim (Option-cases (lookup id s.connections)) [
    | inr (state, e) ↦ rw (e, on_create) (known state e)
    | inl e ↦ elim (Result-cases (add_branch_bounded rt id s).0) [
      | inl (_, r) ↦ rw (e, on_create) (rw (r, admit) (added e r))
      | inr (x, r) ↦ rw (e, on_create) (rw (r, admit) (refused x e r))
    ]
  ]

  offer_to_wrong :
      (state : ConnectionState) (id : String) (sdp : SdpOffer) (reply : ℕ) (s : Coordinator E)
      → awaits_offer state ≡ false
      → offer_to rt state id sdp reply s
        ≡ emit (answer_reply reply (err (SignalError.wrong_state id))) (put id state s)
  unfolding offer_to deliver_offer
  offer_to_wrong state id sdp reply s h = ground arith

  offer_to_there :
      (w d : ℕ) (id : String) (sdp : SdpOffer) (reply : ℕ) (s : Coordinator E)
      → rt.is_closed w s.env ≡ false
      → let s' = emit (offer_reply w (ok sdp)) s in
        offer_to rt (awaiting_offer w d) id sdp reply s
        ≡ put id (awaiting_answer reply (rt.now s'.env + s'.config.answer_timeout)) s'
  unfolding offer_to deliver_offer
  offer_to_there w d id sdp reply s h = ground arith

  offer_to_gone :
      (w d : ℕ) (id : String) (sdp : SdpOffer) (reply : ℕ) (s : Coordinator E)
      → rt.is_closed w s.env ≡ true
      → let s' = emit (offer_reply w (ok sdp)) s in
        offer_to rt (awaiting_offer w d) id sdp reply s
        ≡ (terminate rt id peer_gone (emit (answer_reply reply (err (SignalError.gone id))) s')).1
  unfolding offer_to deliver_offer
  offer_to_gone w d id sdp reply s h = ground arith

  -- `offer_received`: an unknown id, a connection on another leg, or a waiter that is there or gone.
  pub offer_cases {ℓ} :
      (P : Coordinator E → Type ℓ) (id : String) (sdp : SdpOffer) (reply : ℕ) (s : Coordinator E)
      → (lookup id s.connections ≡ none
          → P (emit (answer_reply reply (err (SignalError.not_found id))) s))
      → ((state : ConnectionState)
          → lookup id s.connections ≡ some state
          → awaits_offer state ≡ false
          → P (
              emit
                (answer_reply reply (err (SignalError.wrong_state id)))
                (put id state (take_out id s))))
      → ((w d : ℕ)
          → lookup id s.connections ≡ some (awaiting_offer w d)
          → rt.is_closed w s.env ≡ false
          → let s' = emit (offer_reply w (ok sdp)) (take_out id s) in
            P (put id (awaiting_answer reply (rt.now s'.env + s'.config.answer_timeout)) s'))
      → ((w d : ℕ)
          → lookup id s.connections ≡ some (awaiting_offer w d)
          → rt.is_closed w s.env ≡ true
          → let s' = emit (offer_reply w (ok sdp)) (take_out id s) in
            P
              (terminate rt id peer_gone
                (emit (answer_reply reply (err (SignalError.gone id))) s')).1)
      → P (on_offer rt id sdp reply s)
  unfolding on_offer
  offer_cases P id sdp reply s unknown wrong there gone_waiter =
      elim (Option-cases (lookup id s.connections)) [
        | inl e ↦ rw (e, on_offer) (unknown e)
        | inr (state, e) ↦ rw (e, on_offer) (leg state e)
      ]
    where
      parked :
          (w d : ℕ)
          → lookup id s.connections ≡ some (awaiting_offer w d)
          → P (offer_to rt (awaiting_offer w d) id sdp reply (take_out id s))
      parked w d e = elim (Bool-cases (rt.is_closed w s.env)) [
        | inl c ↦ rw (offer_to_gone w d id sdp reply (take_out id s) c) (gone_waiter w d e c)
        | inr c ↦ rw (offer_to_there w d id sdp reply (take_out id s) c) (there w d e c)
      ]

      leg :
          (state : ConnectionState)
          → lookup id s.connections ≡ some state
          → P (offer_to rt state id sdp reply (take_out id s))
      leg (awaiting_offer w d) e = parked w d e
      leg (awaiting_answer w d) e =
          rw (offer_to_wrong (awaiting_answer w d) id sdp reply (take_out id s) refl)
            (wrong _ e refl)
      leg (established t) e =
          rw (offer_to_wrong (established t) id sdp reply (take_out id s) refl) (wrong _ e refl)

  answer_to_wrong :
      (state : ConnectionState) (id : String) (sdp : SdpAnswer) (reply : ℕ) (s : Coordinator E)
      → awaits_answer state ≡ false
      → answer_to rt state id sdp reply s
        ≡ emit (unit_reply reply (err (SignalError.wrong_state id))) (put id state s)
  unfolding answer_to deliver_answer
  answer_to_wrong state id sdp reply s h = ground arith

  answer_to_there :
      (w d : ℕ) (id : String) (sdp : SdpAnswer) (reply : ℕ) (s : Coordinator E)
      → rt.is_closed w s.env ≡ false
      → let s' = emit (answer_reply w (ok sdp)) s in
        answer_to rt (awaiting_answer w d) id sdp reply s
        ≡ emit (unit_reply reply (ok tt)) (
            put id
              (established (rt.now s'.env))
              (record s' { watchdog = record_success s'.watchdog }))
  unfolding answer_to deliver_answer
  answer_to_there w d id sdp reply s h = ground arith

  answer_to_gone :
      (w d : ℕ) (id : String) (sdp : SdpAnswer) (reply : ℕ) (s : Coordinator E)
      → rt.is_closed w s.env ≡ true
      → let s' = emit (answer_reply w (ok sdp)) s in
        answer_to rt (awaiting_answer w d) id sdp reply s
        ≡ (terminate rt id peer_gone (emit (unit_reply reply (err (SignalError.gone id))) s')).1
  unfolding answer_to deliver_answer
  answer_to_gone w d id sdp reply s h = ground arith

  -- `answer_received`: an unknown id, a connection on another leg, or a waiter that is there or gone.
  pub answer_cases {ℓ} :
      (P : Coordinator E → Type ℓ) (id : String) (sdp : SdpAnswer) (reply : ℕ) (s : Coordinator E)
      → (lookup id s.connections ≡ none
          → P (emit (unit_reply reply (err (SignalError.not_found id))) s))
      → ((state : ConnectionState)
          → lookup id s.connections ≡ some state
          → awaits_answer state ≡ false
          → P (
              emit
                (unit_reply reply (err (SignalError.wrong_state id)))
                (put id state (take_out id s))))
      → ((w d : ℕ)
          → lookup id s.connections ≡ some (awaiting_answer w d)
          → rt.is_closed w s.env ≡ false
          → let s' = emit (answer_reply w (ok sdp)) (take_out id s) in
            P (
              emit (unit_reply reply (ok tt)) (
                put id
                  (established (rt.now s'.env))
                  (record s' { watchdog = record_success s'.watchdog }))))
      → ((w d : ℕ)
          → lookup id s.connections ≡ some (awaiting_answer w d)
          → rt.is_closed w s.env ≡ true
          → let s' = emit (answer_reply w (ok sdp)) (take_out id s) in
            P
              (terminate rt id peer_gone
                (emit (unit_reply reply (err (SignalError.gone id))) s')).1)
      → P (on_answer rt id sdp reply s)
  unfolding on_answer
  answer_cases P id sdp reply s unknown wrong there gone_waiter =
      elim (Option-cases (lookup id s.connections)) [
        | inl e ↦ rw (e, on_answer) (unknown e)
        | inr (state, e) ↦ rw (e, on_answer) (leg state e)
      ]
    where
      parked :
          (w d : ℕ)
          → lookup id s.connections ≡ some (awaiting_answer w d)
          → P (answer_to rt (awaiting_answer w d) id sdp reply (take_out id s))
      parked w d e = elim (Bool-cases (rt.is_closed w s.env)) [
        | inl c ↦ rw (answer_to_gone w d id sdp reply (take_out id s) c) (gone_waiter w d e c)
        | inr c ↦ rw (answer_to_there w d id sdp reply (take_out id s) c) (there w d e c)
      ]

      leg :
          (state : ConnectionState)
          → lookup id s.connections ≡ some state
          → P (answer_to rt state id sdp reply (take_out id s))
      leg (awaiting_offer w d) e =
          rw (answer_to_wrong (awaiting_offer w d) id sdp reply (take_out id s) refl)
            (wrong _ e refl)
      leg (awaiting_answer w d) e = parked w d e
      leg (established t) e =
          rw (answer_to_wrong (established t) id sdp reply (take_out id s) refl) (wrong _ e refl)
