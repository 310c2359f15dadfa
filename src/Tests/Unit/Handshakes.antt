-- ===== src/Tests/Unit/Handshakes.antt =====
-- The unit tests of src/signal/coordinator.rs on handshakes that go through, time out or lose a peer.
use srt_whep.Prelude.{ℕ, String, true, false, ◌≡◌, refl, some, [], ◌∷◌}
use srt_whep.Prelude.Results.{ok, err}
use srt_whep.Domain.{offer_is_sendonly, answer_is_sendonly}
use srt_whep.Signal.Errors.{SignalError}
use srt_whep.Signal.Messages.{create_connection, offer_received, answer_received, reset}
use srt_whep.Signal.Coordinator.Config.{default_config}
use srt_whep.Signal.Coordinator.Changes.{restarts}
use srt_whep.Tests.Unit.Session.{
  computes, offer, answer, ready_pipeline, Session, spawn_actor, does, abort, ticks, establish,
  list_ids, added, removed, offer_on, answer_on, unit_on,
}

abbrev actor : Session
actor = spawn_actor ready_pipeline

abbrev HappyPathCreateOfferAnswer : Type 0
HappyPathCreateOfferAnswer =
    let s = establish "a" 1 2 3 actor in
    (added (does (create_connection "a" 1) actor) ≡ "a" ∷ [])
    × (offer_on 1 s ≡ some (ok offer))
    × (offer_is_sendonly offer ≡ true)
    × (unit_on 3 s ≡ some (ok tt))
    × (answer_on 2 s ≡ some (ok answer))
    × (answer_is_sendonly answer ≡ false)
    × (removed s ≡ [])
    × (restarts s.log ≡ 0)

happy_path : HappyPathCreateOfferAnswer
unfolding computes
happy_path = (refl, refl, refl, refl, refl, refl, refl, refl)

abbrev OfferTimeoutFailsOnlyThatConnection : Type 0
OfferTimeoutFailsOnlyThatConnection =
    let s = ticks 5 (does (create_connection "a" 1) actor) in
    (offer_on 1 s ≡ some (err (SignalError.timeout "SDP offer")))
    × (removed s ≡ "a" ∷ [])
    × (restarts s.log ≡ 0)

offer_timeout : OfferTimeoutFailsOnlyThatConnection
unfolding computes
offer_timeout = (refl, refl, refl)

abbrev AnswerTimeoutFailsTheWhipWaiter : Type 0
AnswerTimeoutFailsTheWhipWaiter =
    let s = does (offer_received "a" offer 2) (does (create_connection "a" 1) actor) in
    (offer_on 1 s ≡ some (ok offer))
    × (answer_on 2 (ticks 5 s) ≡ some (err (SignalError.timeout "SDP answer")))
    × (removed (ticks 5 s) ≡ "a" ∷ [])

answer_timeout : AnswerTimeoutFailsTheWhipWaiter
unfolding computes
answer_timeout = (refl, refl, refl)

abbrev AbandonedWhepClientIsReapedByTheSweep : Type 0
AbandonedWhepClientIsReapedByTheSweep =
    let s = ticks 6 (abort 1 (does (create_connection "a" 1) actor)) in
    (added s ≡ "a" ∷ []) × (removed s ≡ "a" ∷ [])

abandoned_client : AbandonedWhepClientIsReapedByTheSweep
unfolding computes
abandoned_client = (refl, refl)

-- The viewer is gone before the whipsink's offer arrives.
abbrev vanish : String → ℕ → ℕ → Session → Session
vanish id whep whip s =
    does (offer_received id offer whip) (abort whep (does (create_connection id whep) s))

abbrev VanishedWhepClientFailsTheHandshakeAndFeedsTheWatchdog : Type 0
VanishedWhepClientFailsTheHandshakeAndFeedsTheWatchdog =
    let s0 = vanish "conn-0" 1 2 actor in
    let s1 = vanish "conn-1" 3 4 s0 in
    let s2 = vanish "conn-2" 5 6 s1 in
    (answer_on 2 s0 ≡ some (err (SignalError.gone "conn-0")))
    × (removed s0 ≡ "conn-0" ∷ [])
    × (answer_on 4 s1 ≡ some (err (SignalError.gone "conn-1")))
    × (removed s1 ≡ "conn-0" ∷ "conn-1" ∷ [])
    × (answer_on 6 s2 ≡ some (err (SignalError.gone "conn-2")))
    × (removed s2 ≡ "conn-0" ∷ "conn-1" ∷ "conn-2" ∷ [])
    × (restarts s2.log ≡ 1)

vanished_client : VanishedWhepClientFailsTheHandshakeAndFeedsTheWatchdog
unfolding computes
vanished_client = (refl, refl, refl, refl, refl, refl, refl)

abbrev VanishedWhipWaiterFailsTheAnswerDelivery : Type 0
VanishedWhipWaiterFailsTheAnswerDelivery =
    let s = does (offer_received "a" offer 2) (does (create_connection "a" 1) actor) in
    let s' = does (answer_received "a" answer 3) (abort 2 s) in
    (offer_on 1 s ≡ some (ok offer))
    × (unit_on 3 s' ≡ some (err (SignalError.gone "a")))
    × (removed s' ≡ "a" ∷ [])
    × (list_ids s' ≡ [])
    × (restarts s'.log ≡ 0)

vanished_waiter : VanishedWhipWaiterFailsTheAnswerDelivery
unfolding computes
vanished_waiter = (refl, refl, refl, refl, refl)

-- A handshake that nobody goes on with, to its timeout.
abbrev times_out : String → ℕ → Session → Session
times_out id whep s = ticks 5 (does (create_connection id whep) s)

abbrev WatchdogTripsAfterThreeConsecutiveFailures : Type 0
WatchdogTripsAfterThreeConsecutiveFailures =
    let s = times_out "conn-2" 3 (times_out "conn-1" 2 (times_out "conn-0" 1 actor)) in
    (offer_on 1 s ≡ some (err (SignalError.timeout "SDP offer")))
    × (offer_on 2 s ≡ some (err (SignalError.timeout "SDP offer")))
    × (offer_on 3 s ≡ some (err (SignalError.timeout "SDP offer")))
    × (restarts s.log ≡ 1)

watchdog_trips : WatchdogTripsAfterThreeConsecutiveFailures
unfolding computes
watchdog_trips = (refl, refl, refl, refl)

abbrev SuccessBetweenFailuresPreventsTheTrip : Type 0
SuccessBetweenFailuresPreventsTheTrip =
    let s = establish "ok" 3 4 5 (times_out "fail-1" 2 (times_out "fail-0" 1 actor)) in
    (offer_on 3 s ≡ some (ok offer))
    × (unit_on 5 s ≡ some (ok tt))
    × (answer_on 4 s ≡ some (ok answer))
    × (restarts (times_out "fail-3" 7 (times_out "fail-2" 6 s)).log ≡ 0)

success_between : SuccessBetweenFailuresPreventsTheTrip
unfolding computes
success_between = (refl, refl, refl, refl)

abbrev ResetClearsTheWatchdogCounter : Type 0
ResetClearsTheWatchdogCounter =
    let s = does (reset 3) (times_out "fail-1" 2 (times_out "fail-0" 1 actor)) in
    (unit_on 3 s ≡ some (ok tt))
    × (restarts (times_out "fail-3" 5 (times_out "fail-2" 4 s)).log ≡ 0)

reset_clears : ResetClearsTheWatchdogCounter
unfolding computes
reset_clears = (refl, refl)

-- The test of src/signal/mod.rs, with the default configuration.
abbrev HandleDrivesAFullHandshake : Type 0
HandleDrivesAFullHandshake =
    let s = establish "a" 1 2 3 (record actor { config = default_config }) in
    (unit_on 3 s ≡ some (ok tt))
    × (offer_on 1 s ≡ some (ok offer))
    × (offer_is_sendonly offer ≡ true)
    × (answer_on 2 s ≡ some (ok answer))
    × (answer_is_sendonly answer ≡ false)

full_handshake : HandleDrivesAFullHandshake
unfolding computes
full_handshake = (refl, refl, refl, refl, refl)
