-- ===== src/Signal/Coordinator/Endings.antt =====
-- The accounts of reply channels when a connection of src/signal/coordinator.rs ends.
use srt_whep.Prelude.{ℕ, ◌+◌, String, true, ◌≡◌, none, some, arith}
use srt_whep.Prelude.HashMap.{
  lookup, HasUniqueKeys, total-erase, lookup-erase_self, erase-HasUniqueKeys, erase_absent,
}
use srt_whep.Signal.Coordinator.State.{Runtime, ConnectionState, Coordinator}
use srt_whep.Signal.Coordinator.Cases.{
  feed_cases, deleted_cases, expired_cases, reaped_cases, peer_gone_cases,
}
use srt_whep.Signal.Coordinator.Handlers.{take_out}
use srt_whep.Signal.Coordinator.Connection.{notify}
use srt_whep.Signal.Coordinator.Policy.{
  WaiterNotice, deleted, expired, peer_gone, reaped, gone, expired_leg,
}
use srt_whep.Signal.Coordinator.Terminate.{remove_branch_bounded, feed_watchdog, terminate}
use srt_whep.Signal.Coordinator.Accounts.{
  Accounts, Accounts-trans, holds, put-Accounts, reset_all-Accounts, sent, told-Accounts,
}

module _ {E : Type 0} (rt : Runtime E) (ch : ℕ) where
  pub remove_branch_bounded-connections :
      (id : String) (s : Coordinator E)
      → (remove_branch_bounded rt id s).1.connections ≡ s.connections
  unfolding remove_branch_bounded
  remove_branch_bounded-connections id s = ground arith

  remove_branch_bounded-sent :
      (id : String) (s : Coordinator E)
      → sent ch (remove_branch_bounded rt id s).1.log ≡ sent ch s.log
  unfolding remove_branch_bounded
  remove_branch_bounded-sent id s = ground arith

  pub remove_branch_bounded-Accounts :
      (id : String) (s : Coordinator E)
      → HasUniqueKeys s.connections
      → Accounts ch 0 s (remove_branch_bounded rt id s).1
  remove_branch_bounded-Accounts id s u =
      let same = remove_branch_bounded-connections id s in
      record {
        unique = rw same u;
        balanced = rw same (omega (arith, remove_branch_bounded-sent id s));
      }

  pub feed_watchdog-Accounts :
      (s : Coordinator E) → HasUniqueKeys s.connections → Accounts ch 0 s (feed_watchdog rt true s)
  feed_watchdog-Accounts s u =
      feed_cases rt (Accounts ch 0 s) s
        (λ _.
          let a = reset_all-Accounts ch _ in
          record { unique = a.unique; balanced = omega (arith, a.balanced) })
        (λ _. record { unique = u; balanced = omega arith })

  -- Taking an entry out leaves its waiter, if it has one, to be answered.
  pub missing-Accounts :
      (id : String) (s : Coordinator E)
      → HasUniqueKeys s.connections
      → lookup id s.connections ≡ none
      → Accounts ch 0 s (take_out id s)
  missing-Accounts id s u e = record {
    unique = erase-HasUniqueKeys id s.connections u;
    balanced = rw (erase_absent id s.connections e) (omega arith);
  }

  pub taken-Accounts :
      (id : String) (s s' : Coordinator E) (state : ConnectionState)
      → HasUniqueKeys s.connections
      → lookup id s.connections ≡ some state
      → {extra : ℕ} → Accounts ch (holds ch state + extra) (take_out id s) s'
      → Accounts ch extra s s'
  taken-Accounts id s s' state u e a = record {
    unique = a.unique;
    balanced = omega (arith, a.balanced, rw e at (total-erase (holds ch) id s.connections u));
  }

  pub erased : (id : String) (s : Coordinator E) → lookup id (take_out id s).connections ≡ none
  erased id s = lookup-erase_self id s.connections

  -- What each kind of end does, from a state whose entry was taken out.
  pub detached-Accounts :
      {extra : ℕ} (id : String) (s s' : Coordinator E)
      → Accounts ch extra s s'
      → Accounts ch extra s (remove_branch_bounded rt id s').1
  detached-Accounts id s s' a =
      Accounts-trans ch a (remove_branch_bounded-Accounts id s' a.unique) (omega arith)

  pub fed-Accounts :
      {extra : ℕ} (s s' : Coordinator E)
      → Accounts ch extra s s'
      → Accounts ch extra s (feed_watchdog rt true s')
  fed-Accounts s s' a = Accounts-trans ch a (feed_watchdog-Accounts s' a.unique) (omega arith)

  pub told_out-Accounts :
      (state : ConnectionState) (n : WaiterNotice) (id : String) (s : Coordinator E)
      → HasUniqueKeys s.connections
      → Accounts ch (holds ch state + 0) (take_out id s) (notify state n id (take_out id s))
  told_out-Accounts state n id s u =
      let a =
        told-Accounts ch state n id (take_out id s) (erase-HasUniqueKeys id s.connections u) in
      record { unique = a.unique; balanced = omega (arith, a.balanced) }

  pub deleted-Accounts :
      (id : String) (s : Coordinator E)
      → HasUniqueKeys s.connections
      → Accounts ch 0 s (terminate rt id deleted s).1
  deleted-Accounts id s u =
      let a =
        remove_branch_bounded-Accounts id (take_out id s)
          (erase-HasUniqueKeys id s.connections u) in
      deleted_cases rt (λ r. Accounts ch 0 s r.1) id s (missing-Accounts id s u)
        (λ state e found refused. taken-Accounts id s _ state u found (
          Accounts-trans ch a
            (put-Accounts ch state id _ a.unique
              (rw (remove_branch_bounded-connections id (take_out id s)) (erased id s)))
            (omega arith)))
        (λ state found done.
          taken-Accounts id s _ state u found
            (Accounts-trans ch a (told-Accounts ch state gone id _ a.unique) (omega arith)))

  pub expired-Accounts :
      (id : String) (s : Coordinator E)
      → HasUniqueKeys s.connections
      → Accounts ch 0 s (terminate rt id expired s).1
  expired-Accounts id s u =
      expired_cases rt (λ r. Accounts ch 0 s r.1) id s (missing-Accounts id s u)
        (λ state found. taken-Accounts id s _ state u found (
          fed-Accounts _ _ (detached-Accounts id _ _ (told_out-Accounts state expired_leg id s u))))

  pub reaped-Accounts :
      (id : String) (s : Coordinator E)
      → HasUniqueKeys s.connections
      → Accounts ch 0 s (terminate rt id reaped s).1
  reaped-Accounts id s u =
      reaped_cases rt (λ r. Accounts ch 0 s r.1) id s (missing-Accounts id s u)
        (λ state found.
          taken-Accounts id s _ state u found
            (detached-Accounts id _ _ (told_out-Accounts state gone id s u)))

  pub peer_gone-Accounts :
      (id : String) (s : Coordinator E)
      → HasUniqueKeys s.connections
      → lookup id s.connections ≡ none
      → Accounts ch 0 s (terminate rt id peer_gone s).1
  peer_gone-Accounts id s u e =
      peer_gone_cases rt (λ r. Accounts ch 0 s r.1) id s e
        (fed-Accounts _ _ (detached-Accounts id _ _ (missing-Accounts id s u e)))
