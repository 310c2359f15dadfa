-- ===== src/Signal/Coordinator/Loop.antt =====
-- The `select!` loop of `Coordinator::run` in src/signal/coordinator.rs.
use srt_whep.Prelude.{Option, none, some, List, [], ◌∷◌}
use srt_whep.Stream.Naming.{BranchId}
use srt_whep.Signal.Messages.{Command}
use srt_whep.Signal.Coordinator.State.{Runtime, Coordinator}
use srt_whep.Signal.Coordinator.Handlers.{handle, reap_branch, sweep_expired}

-- What wakes the loop: the mailbox, where `none` says that every handle was dropped, the reaper's
-- channel, or the sweep's interval.
pub data Wakeup : Type 0 where
  mailbox : Option Command → Wakeup
  branch_failure : BranchId → Wakeup
  sweep_tick : Wakeup

module _ {E : Type 0} (rt : Runtime E) where
  -- One round of the loop; `none` is the `break`.
  unfoldable pub wake : Wakeup → Coordinator E → Option (Coordinator E)
  wake (mailbox (some cmd)) s = some (handle rt cmd s)
  wake (mailbox none) s = none
  wake (branch_failure branch) s = some (reap_branch rt (branch.id) s)
  wake sweep_tick s = some (sweep_expired rt s)

  -- The rounds for a schedule of wake-ups, each with the outside world as it is by then.
  unfoldable pub run : List (E × Wakeup) → Coordinator E → Coordinator E
  run [] s = s
  run ((env, w) ∷ rest) s = elim (wake w (record s { env = env })) [
    | none ↦ s
    | some s' ↦ run rest s'
  ]
