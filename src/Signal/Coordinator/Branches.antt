-- ===== src/Signal/Coordinator/Branches.antt =====
-- The map of src/signal/coordinator.rs against the branches of the pipeline, as far as its answers tell.
pub mod Ends
pub mod Runs
use srt_whep.Prelude.{
  ℕ, ◌+◌, String, Bool, true, false, ◌≡◌, refl, sym, ap, ◌∙◌, ◌≢◌, Option, none, some, List, [],
  ◌∷◌, arith, inl, inr, ◌||◌, Option-cases, if◌then◌else◌, str_eq, eq_iff,
}
use srt_whep.Prelude.Results.{Result, ok, err, Result-cases}
use srt_whep.Prelude.HashMap.{lookup, erase, insert, lookup-erase, lookup-insert, erase_absent}
use srt_whep.Stream.Naming.{BranchId}
use srt_whep.Stream.Errors.{PipelineError}
use srt_whep.Domain.{SdpOffer, SdpAnswer}
use srt_whep.Signal.Errors.{SignalError, from_pipeline}
use srt_whep.Signal.Watchdog.{record_failure}
use srt_whep.Signal.Messages.{
  Command, create_connection, offer_received, answer_received, remove_connection, list_connections,
  reset,
}
use srt_whep.Signal.Coordinator.Config.{CoordinatorConfig}
use srt_whep.Signal.Coordinator.State.{
  Runtime, ConnectionState, awaiting_offer, awaiting_answer, established, Effect, branch_added,
  branch_removed, restart_requested, Coordinator, emit, init,
}
use srt_whep.Signal.Coordinator.Policy.{
  WaiterNotice, deleted, expired, peer_gone, reaped, gone, expired_leg,
}
use srt_whep.Signal.Coordinator.Connection.{notify}
use srt_whep.Signal.Coordinator.Terminate.{
  remove_branch_bounded, feed_watchdog, terminate, reset_all,
}
use srt_whep.Signal.Coordinator.Handlers.{
  put, take_out, add_branch_bounded, on_create, on_offer, on_answer, on_remove, expire_all,
  sweep_expired, reap_branch, handle,
}
use srt_whep.Signal.Coordinator.Loop.{Wakeup, mailbox, branch_failure, sweep_tick, wake, run}
use srt_whep.Signal.Coordinator.Cases.{
  feed_cases, deleted_cases, expired_cases, reaped_cases, peer_gone_cases,
}
use srt_whep.Signal.Coordinator.Legs.{create_cases, offer_cases, answer_cases}
use srt_whep.Signal.Coordinator.Accounts.{notify-connections, reset_all-connections}
use srt_whep.Signal.Coordinator.Endings.{erased}
use srt_whep.Signal.Coordinator.Changes.{at}
use srt_whep.Signal.Coordinator.Operations.{detached}
use srt_whep.Signal.Coordinator.Replies.{add_branch_bounded-connections}

-- What the answers of the pipeline tell of one branch. It is in doubt after a call that timed out, a
-- removal that failed, and from the moment that a restart of the pipeline is asked for.
pub data Fate : Type 0 where
  absent attached doubtful : Fate

abbrev pub after_add : Option (Result (Unit {0}) PipelineError) → Fate → Fate
after_add (some (ok _)) f = attached
after_add (some (err _)) f = f
after_add none f = doubtful

abbrev pub after_remove : Option (Result (Unit {0}) PipelineError) → Fate
after_remove (some (ok _)) = absent
after_remove (some (err _)) = doubtful
after_remove none = doubtful

abbrev pub fate : String → List Effect → Fate
fate id [] = absent
fate id (branch_added j r ∷ log) = if str_eq j id then after_add r (fate id log) else fate id log
fate id (branch_removed j r ∷ log) = if str_eq j id then after_remove r else fate id log
fate id (restart_requested ∷ log) = doubtful
fate id (e ∷ log) = fate id log

-- A connection in the map has no branch known to be absent, and one that is not has none known to be
-- attached.
abbrev pub agrees : Option ConnectionState → Fate → Bool
agrees none attached = false
agrees none f = true
agrees (some state) absent = false
agrees (some state) f = true

pub removed_agrees :
    (r : Option (Result (Unit {0}) PipelineError)) → agrees none (after_remove r) ≡ true
removed_agrees none = refl
removed_agrees (some (ok _)) = refl
removed_agrees (some (err _)) = refl

module _ {E : Type 0} where
  pub record Agree (s : Coordinator E) : Type 0 where
    pub each : (j : String) → agrees (at j s) (fate j s.log) ≡ true

  pub notify-fate :
      (state : ConnectionState) (n : WaiterNotice) (id j : String) (s : Coordinator E)
      → fate j (notify state n id s).log ≡ fate j s.log
  unfolding notify
  notify-fate state n id j s = ground arith

  -- One connection and its branch have changed, and agree.
  pub moved :
      {s s' : Coordinator E} (id : String) (o : Option ConnectionState) (f : Fate)
      → Agree s
      → ((j : String) → at j s' ≡ (if str_eq id j then o else at j s))
      → ((j : String) → fate j s'.log ≡ (if str_eq id j then f else fate j s.log))
      → agrees o f ≡ true
      → Agree s'
  moved id o f a c l h = record { each = λ j. ground (arith, a.each j, c j, l j, h) }

  -- The connection's branch has not changed.
  pub kept :
      {s s' : Coordinator E} (id : String) (o : Option ConnectionState)
      → Agree s
      → ((j : String) → at j s' ≡ (if str_eq id j then o else at j s))
      → ((j : String) → fate j s'.log ≡ fate j s.log)
      → agrees o (fate id s.log) ≡ true
      → Agree s'
  kept {s} id o a c l h = moved id o (fate id s.log) a c (λ j. ground (arith, l j, eq_iff id j)) h

  pub known :
      (id : String) (s : Coordinator E) (state state' : ConnectionState)
      → Agree s
      → at id s ≡ some state
      → agrees (some state') (fate id s.log) ≡ true
  known id s state state' a found = ground (arith, a.each id, found)

  pub put_back :
      (id : String) (s : Coordinator E) (state : ConnectionState) (j : String)
      → lookup j (insert id state (erase id s.connections))
        ≡ (if str_eq id j then some state else at j s)
  put_back id s state j =
      ground
        (arith, lookup-insert id j state (erase id s.connections), lookup-erase id j s.connections)
