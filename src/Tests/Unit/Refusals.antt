-- ===== src/Tests/Unit/Refusals.antt =====
-- The unit tests of src/signal/coordinator.rs on commands that are refused, on teardowns that fail, and on
-- the methods of its connection states.
use srt_whep.Prelude.{true, ◌≡◌, refl, some, List, [], ◌∷◌}
use srt_whep.Prelude.Results.{ok, err}
use srt_whep.Stream.Errors.{PipelineError}
use srt_whep.Stream.TestPipeline
use srt_whep.Stream.Naming.{BranchId}
use srt_whep.Stream.TestPipeline.{
  default_pipeline, fail_next_add_branch, fail_next_remove_branch, block_remove_branch,
  block_add_branch,
}
use srt_whep.Signal.Errors.{SignalError, status_code, error_response}
use srt_whep.Signal.Messages.{
  create_connection, offer_received, answer_received, remove_connection, list_connections, reset,
}
use srt_whep.Signal.World.{world}
use srt_whep.Signal.Coordinator.State.{awaiting_offer, awaiting_answer, established}
use srt_whep.Signal.Coordinator.Connection.{
  fail_waiter, delivered, wrong_leg, deliver_offer, deliver_answer,
}
use srt_whep.Signal.Coordinator.Handlers.{reap_branch}
use srt_whep.Signal.Coordinator.Changes.{restarts}
use srt_whep.Tests.Unit.Session.{
  computes, offer, answer, ready_pipeline, Session, spawn_actor, does, on_pipeline, establish,
  list_ids, added, removed, offer_on, answer_on, unit_on, list_on,
}

abbrev actor : Session
actor = spawn_actor ready_pipeline

-- The error answers 503 with a Retry-After.
abbrev IsRetryable : SignalError → Type 0
IsRetryable e = (status_code e ≡ 503) × ((error_response e).headers ≡ ("Retry-After", "3") ∷ [])

abbrev TransientPipelineFailureStaysRetryable : Type 0
TransientPipelineFailureStaysRetryable =
    let pipeline =
      fail_next_add_branch (PipelineError.transient "state lock timed out") ready_pipeline in
    let s = does (create_connection "a" 1) (spawn_actor pipeline) in
    let e = SignalError.pipeline_busy "state lock timed out" in
    (offer_on 1 s ≡ some (err e)) × IsRetryable e

transient_failure : TransientPipelineFailureStaysRetryable
unfolding computes
transient_failure = (refl, (refl, refl))

abbrev NotReadyPipelineRejectsCreation : Type 0
NotReadyPipelineRejectsCreation =
    let s = does (create_connection "a" 1) (spawn_actor default_pipeline) in
    (offer_on 1 s ≡ some (err SignalError.not_ready)) × (added s ≡ [])

not_ready : NotReadyPipelineRejectsCreation
unfolding computes
not_ready = (refl, refl)

abbrev UnknownIdIsNotFoundForEveryCommand : Type 0
UnknownIdIsNotFoundForEveryCommand =
    let s1 = does (offer_received "ghost" offer 1) actor in
    let s2 = does (answer_received "ghost" answer 2) s1 in
    let s3 = does (remove_connection "ghost" 3) s2 in
    (answer_on 1 s1 ≡ some (err (SignalError.not_found "ghost")))
    × (unit_on 2 s2 ≡ some (err (SignalError.not_found "ghost")))
    × (unit_on 3 s3 ≡ some (err (SignalError.not_found "ghost")))

unknown_id : UnknownIdIsNotFoundForEveryCommand
unfolding computes
unknown_id = (refl, refl, refl)

abbrev WrongStateCommandsAreRejectedWithoutCorruption : Type 0
WrongStateCommandsAreRejectedWithoutCorruption =
    let s1 = does (create_connection "a" 1) actor in
    let s2 = does (create_connection "a" 2) s1 in
    let s3 = does (answer_received "a" answer 3) s2 in
    let s4 = does (offer_received "a" offer 4) s3 in
    let s5 = does (answer_received "a" answer 5) s4 in
    (offer_on 2 s2 ≡ some (err (SignalError.wrong_state "a")))
    × (unit_on 3 s3 ≡ some (err (SignalError.wrong_state "a")))
    × (offer_on 1 s4 ≡ some (ok offer))
    × (unit_on 5 s5 ≡ some (ok tt))
    × (answer_on 4 s5 ≡ some (ok answer))
    × (added s5 ≡ "a" ∷ [])

wrong_state : WrongStateCommandsAreRejectedWithoutCorruption
unfolding computes
wrong_state = (refl, refl, refl, refl, refl, refl)

abbrev ResetFailsAllWaitersAndClearsState : Type 0
ResetFailsAllWaitersAndClearsState =
    let s = does (reset 2) (does (create_connection "a" 1) actor) in
    (unit_on 2 s ≡ some (ok tt))
    × (offer_on 1 s ≡ some (err SignalError.unavailable))
    × (list_ids s ≡ [])

reset_fails : ResetFailsAllWaitersAndClearsState
unfolding computes
reset_fails = (refl, refl, refl)

abbrev ListReportsIdsAndStateNames : Type 0
ListReportsIdsAndStateNames =
    let s = does (list_connections 2) (does (create_connection "a" 1) actor) in
    list_on 2 s ≡ some (ok (record { id = "a"; state = "awaiting_offer" } ∷ []))

list_reports : ListReportsIdsAndStateNames
unfolding computes
list_reports = refl

abbrev FailedAddRegistersNothingAndNeedsNoCoordinatorCleanup : Type 0
FailedAddRegistersNothingAndNeedsNoCoordinatorCleanup =
    let pipeline = fail_next_add_branch (PipelineError.fatal "attach blew up") ready_pipeline in
    let s = does (create_connection "a" 1) (spawn_actor pipeline) in
    (offer_on 1 s ≡ some (err (SignalError.pipeline "attach blew up")))
    × (removed s ≡ [])
    × (list_ids s ≡ [])

failed_add : FailedAddRegistersNothingAndNeedsNoCoordinatorCleanup
unfolding computes
failed_add = (refl, refl, refl)

abbrev FailedDeleteKeepsTheConnectionRetryable : Type 0
FailedDeleteKeepsTheConnectionRetryable =
    let s =
      on_pipeline (fail_next_remove_branch (PipelineError.transient "lock timed out"))
        (establish "a" 1 2 3 actor) in
    let s1 = does (remove_connection "a" 4) s in
    let s2 = does (remove_connection "a" 5) s1 in
    (unit_on 4 s1 ≡ some (err (SignalError.pipeline_busy "lock timed out")))
    × (list_ids s1 ≡ "a" ∷ [])
    × (unit_on 5 s2 ≡ some (ok tt))
    × (removed s2 ≡ "a" ∷ [])
    × (list_ids s2 ≡ [])

failed_delete : FailedDeleteKeepsTheConnectionRetryable
unfolding computes
failed_delete = (refl, refl, refl, refl, refl)

-- The actor drains the channel of failed branches.
abbrev drains : List BranchId → Session → Session
drains [] s = s
drains (branch ∷ rest) s = drains rest (reap_branch world branch.id s)

abbrev EstablishedConnectionIsReapedOnBranchFailure : Type 0
EstablishedConnectionIsReapedOnBranchFailure =
    let pipeline =
      TestPipeline.set_ready true
        (TestPipeline.new (record { capacity = 64; queued = []; is_open = true })) in
    let s =
      on_pipeline (TestPipeline.fail_branch "a") (establish "a" 1 2 3 (spawn_actor pipeline)) in
    let s' = drains s.env.pipeline.branch_failures.queued s in
    (removed s' ≡ "a" ∷ []) × (list_ids s' ≡ []) × (restarts s'.log ≡ 0)

reaped_connection : EstablishedConnectionIsReapedOnBranchFailure
unfolding computes
reaped_connection = (refl, refl, refl)

abbrev WedgedTeardownDoesNotStallTheActor : Type 0
WedgedTeardownDoesNotStallTheActor =
    let s =
      does (remove_connection "a" 4)
        (on_pipeline block_remove_branch (establish "a" 1 2 3 actor)) in
    (unit_on 4 s ≡ some (err (SignalError.pipeline_busy "branch teardown timed out")))
    × (list_ids s ≡ "a" ∷ [])

wedged_teardown : WedgedTeardownDoesNotStallTheActor
unfolding computes
wedged_teardown = (refl, refl)

abbrev WedgedAddBranchCleanupTimesOutToARetryableError : Type 0
WedgedAddBranchCleanupTimesOutToARetryableError =
    let s = does (create_connection "a" 1) (spawn_actor (block_add_branch ready_pipeline)) in
    let e = SignalError.pipeline_busy "branch attach/cleanup timed out" in
    (offer_on 1 s ≡ some (err e)) × IsRetryable e

wedged_add : WedgedAddBranchCleanupTimesOutToARetryableError
unfolding computes
wedged_add = (refl, (refl, refl))

abbrev FailWaiterNotifiesTheAwaitingOfferWaiter : Type 0
FailWaiterNotifiesTheAwaitingOfferWaiter =
    offer_on 1 (fail_waiter (awaiting_offer 1 0) SignalError.unavailable actor)
    ≡ some (err SignalError.unavailable)

offer_waiter : FailWaiterNotifiesTheAwaitingOfferWaiter
unfolding computes
offer_waiter = refl

abbrev FailWaiterNotifiesTheAwaitingAnswerWaiter : Type 0
FailWaiterNotifiesTheAwaitingAnswerWaiter =
    answer_on 1 (fail_waiter (awaiting_answer 1 0) (SignalError.gone "a") actor)
    ≡ some (err (SignalError.gone "a"))

answer_waiter : FailWaiterNotifiesTheAwaitingAnswerWaiter
unfolding computes
answer_waiter = refl

abbrev TransitionTableAcceptsOnlyLegalEvents : Type 0
TransitionTableAcceptsOnlyLegalEvents =
    ((deliver_offer world (awaiting_offer 1 0) offer actor).0 ≡ delivered)
    × ((deliver_answer world (awaiting_offer 1 0) answer actor).0 ≡ wrong_leg (awaiting_offer 1 0))
    × ((deliver_answer world (awaiting_answer 1 0) answer actor).0 ≡ delivered)
    × ((deliver_offer world (awaiting_answer 1 0) offer actor).0 ≡ wrong_leg (awaiting_answer 1 0))
    × ((deliver_offer world (established 0) offer actor).0 ≡ wrong_leg (established 0))
    × ((deliver_answer world (established 0) answer actor).0 ≡ wrong_leg (established 0))

transition_table : TransitionTableAcceptsOnlyLegalEvents
unfolding computes
transition_table = (refl, refl, refl, refl, refl, refl)
