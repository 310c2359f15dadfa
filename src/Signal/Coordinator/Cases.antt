-- ===== src/Signal/Coordinator/Cases.antt =====
-- The branches of each operation of src/signal/coordinator.rs, as rules that prove a property of the
-- result by proving it on every branch.
use srt_whep.Prelude.{
  String, true, false, ◌≡◌, none, some, inl, inr, arith, Option-cases, Bool-cases,
}
use srt_whep.Prelude.Results.{Result, ok, err, Result-cases}
use srt_whep.Prelude.HashMap.{lookup}
use srt_whep.Signal.Errors.{SignalError}
use srt_whep.Signal.Watchdog.{record_failure}
use srt_whep.Signal.Coordinator.State.{
  Runtime, ConnectionState, restart_requested, Coordinator, emit,
}
use srt_whep.Signal.Coordinator.Policy.{
  deleted, expired, peer_gone, reaped, gone, expired_leg, policy,
}
use srt_whep.Signal.Coordinator.Terminate.{
  reset_all, notify_entry, restore_entry, remove_branch_bounded, tear_down, feed_watchdog, finish,
  terminate_entry, terminate,
}
use srt_whep.Signal.Coordinator.Connection.{notify}
use srt_whep.Signal.Coordinator.Handlers.{put, take_out}

module _ {E : Type 0} (rt : Runtime E) where
  -- The watchdog is fed: it trips, or it counts.
  pub feed_cases {ℓ} :
      (P : Coordinator E → Type ℓ) (s : Coordinator E)
      → ((record_failure (rt.now s.env) s.watchdog).0 ≡ true
          → P (
              emit restart_requested
                (reset_all (record s { watchdog = (record_failure (rt.now s.env) s.watchdog).1 }))))
      → ((record_failure (rt.now s.env) s.watchdog).0 ≡ false
          → P (record s { watchdog = (record_failure (rt.now s.env) s.watchdog).1 }))
      → P (feed_watchdog rt true s)
  unfolding feed_watchdog
  feed_cases P s tripped counted = elim (Bool-cases (record_failure (rt.now s.env) s.watchdog).0) [
    | inl e ↦ rw (e, feed_watchdog) (tripped e)
    | inr e ↦ rw (e, feed_watchdog) (counted e)
  ]

  -- `terminate` for a DELETE: unknown, refused by the pipeline and restored, or gone.
  pub deleted_unknown :
      (id : String) (s : Coordinator E)
      → lookup id s.connections ≡ none
      → terminate rt id deleted s ≡ (err (SignalError.not_found id), take_out id s)
  unfolding terminate terminate_entry policy
  deleted_unknown id s h = ground arith

  pub deleted_refused :
      (id : String) (s : Coordinator E) (state : ConnectionState) (e : SignalError)
      → lookup id s.connections ≡ some state
      → (remove_branch_bounded rt id (take_out id s)).0 ≡ err e
      → terminate rt id deleted s
        ≡ (err e, put id state (remove_branch_bounded rt id (take_out id s)).1)
  unfolding terminate terminate_entry finish tear_down restore_entry policy
  deleted_refused id s state e h r = ground arith

  pub deleted_done :
      (id : String) (s : Coordinator E) (state : ConnectionState)
      → lookup id s.connections ≡ some state
      → (remove_branch_bounded rt id (take_out id s)).0 ≡ ok tt
      → terminate rt id deleted s
        ≡ (ok tt, notify state gone id (remove_branch_bounded rt id (take_out id s)).1)
  unfolding terminate terminate_entry finish tear_down notify_entry feed_watchdog policy
  deleted_done id s state h r = ground arith

  pub deleted_cases {ℓ} :
      (P : Result (Unit {0}) SignalError × Coordinator E → Type ℓ) (id : String) (s : Coordinator E)
      → (lookup id s.connections ≡ none → P (err (SignalError.not_found id), take_out id s))
      → ((state : ConnectionState) (e : SignalError)
          → lookup id s.connections ≡ some state
          → (remove_branch_bounded rt id (take_out id s)).0 ≡ err e
          → P (err e, put id state (remove_branch_bounded rt id (take_out id s)).1))
      → ((state : ConnectionState)
          → lookup id s.connections ≡ some state
          → (remove_branch_bounded rt id (take_out id s)).0 ≡ ok tt
          → P (ok tt, notify state gone id (remove_branch_bounded rt id (take_out id s)).1))
      → P (terminate rt id deleted s)
  deleted_cases P id s unknown refused done = elim (Option-cases (lookup id s.connections)) [
    | inl e ↦ rw (deleted_unknown id s e) (unknown e)
    | inr (state, e) ↦ elim (Result-cases (remove_branch_bounded rt id (take_out id s)).0) [
      | inl (_, r) ↦ rw (deleted_done id s state e r) (done state e r)
      | inr (x, r) ↦ rw (deleted_refused id s state x e r) (refused state x e r)
    ]
  ]

  -- `terminate` for an expiry: already gone, or told, detached and counted.
  pub expired_cases {ℓ} :
      (P : Result (Unit {0}) SignalError × Coordinator E → Type ℓ) (id : String) (s : Coordinator E)
      → (lookup id s.connections ≡ none → P (ok tt, take_out id s))
      → ((state : ConnectionState)
          → lookup id s.connections ≡ some state
          → P (
            ok tt,
            feed_watchdog rt true
                (remove_branch_bounded rt id (notify state expired_leg id (take_out id s))).1,
          ))
      → P (terminate rt id expired s)
  unfolding terminate terminate_entry finish tear_down notify_entry policy
  expired_cases P id s missing present = elim (Option-cases (lookup id s.connections)) [
    | inl e ↦ rw (e, terminate, terminate_entry) (missing e)
    | inr (state, e) ↦ rw (e, terminate, terminate_entry) (present state e)
  ]

  -- `terminate` for a branch that failed: already gone, or told and detached.
  pub reaped_cases {ℓ} :
      (P : Result (Unit {0}) SignalError × Coordinator E → Type ℓ) (id : String) (s : Coordinator E)
      → (lookup id s.connections ≡ none → P (ok tt, take_out id s))
      → ((state : ConnectionState)
          → lookup id s.connections ≡ some state
          → P (ok tt, (remove_branch_bounded rt id (notify state gone id (take_out id s))).1))
      → P (terminate rt id reaped s)
  unfolding terminate terminate_entry finish tear_down notify_entry policy feed_watchdog
  reaped_cases P id s missing present = elim (Option-cases (lookup id s.connections)) [
    | inl e ↦ rw (e, terminate, terminate_entry) (missing e)
    | inr (state, e) ↦ rw (e, terminate, terminate_entry) (present state e)
  ]

  -- `terminate` for a peer that is gone, as the handlers call it: the entry is out already.
  pub peer_gone_cases {ℓ} :
      (P : Result (Unit {0}) SignalError × Coordinator E → Type ℓ) (id : String) (s : Coordinator E)
      → lookup id s.connections ≡ none
      → P (ok tt, feed_watchdog rt true (remove_branch_bounded rt id (take_out id s)).1)
      → P (terminate rt id peer_gone s)
  unfolding terminate terminate_entry finish tear_down notify_entry policy
  peer_gone_cases P id s e p = rw (e, terminate, terminate_entry) p
