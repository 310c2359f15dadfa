-- ===== src/Signal/Coordinator/Terminate.antt =====
-- `terminate` of src/signal/coordinator.rs, the one place where a connection ends, and its helpers.
use srt_whep.Prelude.{String, Bool, true, false, Option, none, some, List, [], ◌∷◌, if◌then◌else◌}
use srt_whep.Prelude.Results.{Result, ok, err, map_err}
use srt_whep.Prelude.HashMap.{lookup, erase, insert}
use srt_whep.Signal.Errors.{SignalError, from_pipeline}
use srt_whep.Signal.Watchdog.{record_failure}
use srt_whep.Signal.Coordinator.State.{
  Runtime, ConnectionState, branch_removed, restart_requested, Coordinator, emit,
}
use srt_whep.Signal.Coordinator.Connection.{notify}
use srt_whep.Signal.Coordinator.Policy.{
  TerminateReason, reject, skip, proceed, WaiterNotice, Teardown, required, best_effort, keep,
  TerminationPolicy, policy,
}

module _ {E : Type 0} where
  -- The loop of `reset_all` over the drained map.
  unfoldable pub notify_all :
      WaiterNotice → List (String × ConnectionState) → Coordinator E → Coordinator E
  notify_all notice [] s = s
  notify_all notice ((id, state) ∷ rest) s = notify_all notice rest (notify state notice id s)

  -- `Coordinator::reset_all`
  unfoldable pub reset_all : Coordinator E → Coordinator E
  unfolding policy
  reset_all s =
      notify_all (policy TerminateReason.reset).waiter s.connections (record s { connections = [] })

  -- `if let Some(state) = state { state.notify(policy.waiter, &id) }`
  unfoldable pub notify_entry :
      Option ConnectionState → WaiterNotice → String → Coordinator E → Coordinator E
  notify_entry none notice id s = s
  notify_entry (some state) notice id s = notify state notice id s

  -- `if let Some(state) = state { self.connections.insert(id, state) }`
  unfoldable pub restore_entry : Option ConnectionState → String → Coordinator E → Coordinator E
  restore_entry none id s = s
  restore_entry (some state) id s = record s { connections = insert id state s.connections }

module _ {E : Type 0} (rt : Runtime E) where
  -- `Coordinator::remove_branch_bounded`
  unfoldable pub remove_branch_bounded :
      String → Coordinator E → Result (Unit {0}) SignalError × Coordinator E
  remove_branch_bounded id s =
      let (outcome, env) = rt.remove_branch (s.config.teardown_timeout) id s.env in
      let s' = emit (branch_removed id outcome) (record s { env = env }) in
      elim outcome [
        | some res ↦ (map_err res from_pipeline, s')
        | none ↦ (err (SignalError.pipeline_busy "branch teardown timed out"), s')
      ]

  -- The `match policy.teardown` of `terminate`, the entry already taken out of the map.
  unfoldable pub tear_down :
      Teardown
      → WaiterNotice
      → String
      → Option ConnectionState
      → Coordinator E
      → Result (Unit {0}) SignalError × Coordinator E
  tear_down required notice id state s =
      let (res, s') = remove_branch_bounded id s in
      elim res [
        | err e ↦ (err e, restore_entry state id s')
        | ok _ ↦ (ok tt, notify_entry state notice id s')
      ]
  tear_down best_effort notice id state s =
      (ok tt, (remove_branch_bounded id (notify_entry state notice id s)).1)
  tear_down keep notice id state s = (ok tt, notify_entry state notice id s)

  -- `if policy.feeds_watchdog && self.watchdog.record_failure() { .. }`
  unfoldable pub feed_watchdog : Bool → Coordinator E → Coordinator E
  feed_watchdog false s = s
  feed_watchdog true s =
      let (tripped, dog) = record_failure (rt.now s.env) s.watchdog in
      let s' = record s { watchdog = dog } in
      if tripped then emit restart_requested (reset_all s') else s'

  -- `terminate` past its first `match`: the teardown, whose error ends it, then the watchdog.
  unfoldable pub finish :
      TerminationPolicy
      → String
      → Option ConnectionState
      → Coordinator E
      → Result (Unit {0}) SignalError × Coordinator E
  finish p id state s =
      let (res, s') = tear_down p.teardown p.waiter id state s in
      elim res [ err e ↦ (err e, s') | ok _ ↦ (ok tt, feed_watchdog p.feeds_watchdog s') ]

  -- The first `match` of `terminate`, on the entry removed and `on_missing`.
  unfoldable pub terminate_entry :
      TerminationPolicy
      → String
      → Option ConnectionState
      → Coordinator E
      → Result (Unit {0}) SignalError × Coordinator E
  terminate_entry p id (some state) s = finish p id (some state) s
  terminate_entry p id none s = elim (p.on_missing) [
    | reject ↦ (err (SignalError.not_found id), s)
    | skip ↦ (ok tt, s)
    | proceed ↦ finish p id none s
  ]

  -- `Coordinator::terminate`
  unfoldable pub terminate :
      String → TerminateReason → Coordinator E → Result (Unit {0}) SignalError × Coordinator E
  terminate id reason s =
      terminate_entry (policy reason) id (lookup id s.connections)
        (record s { connections = erase id s.connections })
