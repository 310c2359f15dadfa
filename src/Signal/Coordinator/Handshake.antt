-- ===== src/Signal/Coordinator/Handshake.antt =====
-- The handshake of src/signal/coordinator.rs from the first POST to the answer.
use srt_whep.Prelude.{
  ℕ, ◌+◌, String, false, ◌≡◌, refl, ap, ◌∙◌, none, some, List, ◌∷◌, arith, eq_iff,
}
use srt_whep.Prelude.Results.{ok}
use srt_whep.Prelude.HashMap.{lookup, insert, lookup-insert}
use srt_whep.Domain.{SdpOffer, SdpAnswer}
use srt_whep.Signal.Messages.{create_connection, offer_received, answer_received}
use srt_whep.Signal.Watchdog.{record_success}
use srt_whep.Signal.Coordinator.State.{
  Runtime, ConnectionState, awaiting_offer, awaiting_answer, established, Effect, offer_reply,
  answer_reply, unit_reply, Coordinator, emit,
}
use srt_whep.Signal.Coordinator.Connection.{deliver_offer, deliver_answer}
use srt_whep.Signal.Coordinator.Handlers.{
  take_out, put, add_branch_bounded, admit, on_create, offer_to, on_offer, answer_to, on_answer,
  handle,
}
use srt_whep.Signal.Coordinator.Changes.{at}

inserted :
    (id : String) (state : ConnectionState) (m : List (String × ConnectionState))
    → lookup id (insert id state m) ≡ some state
inserted id state m = ground (arith, lookup-insert id id state m, eq_iff id id)

module _ {E : Type 0} (rt : Runtime E) where
  create_added :
      (id : String) (reply : ℕ) (s : Coordinator E)
      → at id s ≡ none
      → (add_branch_bounded rt id s).0 ≡ ok tt
      → let s' = (add_branch_bounded rt id s).1 in
        on_create rt id reply s
        ≡ put id (awaiting_offer reply (rt.now s'.env + s'.config.offer_timeout)) s'
  unfolding on_create admit
  create_added id reply s absent added = ground arith

  offer_delivered :
      (id : String) (sdp : SdpOffer) (reply w d : ℕ) (s : Coordinator E)
      → at id s ≡ some (awaiting_offer w d)
      → rt.is_closed w s.env ≡ false
      → on_offer rt id sdp reply s
        ≡ put id
            (awaiting_answer reply (rt.now s.env + s.config.answer_timeout))
            (emit (offer_reply w (ok sdp)) (take_out id s))
  unfolding on_offer offer_to deliver_offer
  offer_delivered id sdp reply w d s found listens = ground arith

  answer_delivered :
      (id : String) (sdp : SdpAnswer) (reply w d : ℕ) (s : Coordinator E)
      → at id s ≡ some (awaiting_answer w d)
      → rt.is_closed w s.env ≡ false
      → on_answer rt id sdp reply s
        ≡ emit (unit_reply reply (ok tt)) (
            put id
              (established (rt.now s.env))
              (record (emit (answer_reply w (ok sdp)) (take_out id s)) {
                watchdog = record_success s.watchdog;
              }))
  unfolding on_answer answer_to deliver_answer
  answer_delivered id sdp reply w d s found listens = ground arith

-- The states after the viewer's POST, after the whipsink's offer and after the viewer's answer; the
-- outside world moves on between them.
module _ {E : Type 0} (rt : Runtime E) (id : String) (offer : SdpOffer) (answer : SdpAnswer)
    (post whip patch : ℕ) (s : Coordinator E) (env₁ env₂ : E) where
  abbrev pub posted : Coordinator E
  posted = handle rt (create_connection id post) s

  abbrev pub offered_to : Coordinator E
  offered_to = handle rt (offer_received id offer whip) (record posted { env = env₁ })

  abbrev pub answered_by : Coordinator E
  answered_by = handle rt (answer_received id answer patch) (record offered_to { env = env₂ })

  -- If the id is new, its branch can be added, and both waiting requests are still there, then the
  -- handshake ends established: the viewer's POST receives the whipsink's offer, the whipsink's POST the
  -- viewer's answer, and the viewer's PATCH success, each once and in this order; on the way the
  -- connection has the deadlines of the configuration, and the watchdog forgets its failures.
  pub handshake :
      at id s ≡ none
      → (add_branch_bounded rt id s).0 ≡ ok tt
      → rt.is_closed post env₁ ≡ false
      → rt.is_closed whip env₂ ≡ false
      → let added = (add_branch_bounded rt id s).1 in
        (at id posted ≡ some (awaiting_offer post (rt.now added.env + added.config.offer_timeout)))
        × (at id offered_to
            ≡ some (awaiting_answer whip (rt.now env₁ + posted.config.answer_timeout)))
        × (at id answered_by ≡ some (established (rt.now env₂)))
        × (answered_by.log
            ≡ unit_reply patch (ok tt)
              ∷ answer_reply whip (ok answer)
              ∷ offer_reply post (ok offer)
              ∷ added.log)
        × (answered_by.watchdog ≡ record_success offered_to.watchdog)
  unfolding handle
  handshake absent ready listens₁ listens₂ =
      let e₁ = create_added rt id post s absent ready in
      let f₁ : at id posted
          ≡ some (awaiting_offer post (rt.now added.env + added.config.offer_timeout)) =
        rw e₁ (inserted id _ added.connections) in
      let e₂ = offer_delivered rt id offer whip post _ (record posted { env = env₁ }) f₁ listens₁ in
      let f₂ : at id offered_to
          ≡ some (awaiting_answer whip (rt.now env₁ + posted.config.answer_timeout)) =
        rw e₂ (inserted id _ _) in
      let e₃ =
        answer_delivered rt id answer patch whip _ (record offered_to { env = env₂ }) f₂ listens₂ in
      (
        f₁,
        f₂,
        rw e₃ (inserted id _ _),
        ap log e₃
            ∙ ap (λ l. unit_reply patch (ok tt) ∷ answer_reply whip (ok answer) ∷ l)
                (ap log e₂ ∙ ap (◌∷◌ (offer_reply post (ok offer))) (ap log e₁)),
        rw e₃ refl,
      )
    where
      added : Coordinator E
      added = (add_branch_bounded rt id s).1

      log : Coordinator E → List Effect
      log x = x.log
