-- ===== src/Tests/Clock.antt =====
-- The coordinator of src/signal/coordinator.rs over `TestPipeline` and a clock: the deadlines that
-- are left after a sweep.
use srt_whep.Prelude.{ℕ, ◌≤◌, refl, none, some, List, [], ◌∷◌, arith, Option}
use srt_whep.Prelude.HashMap.{lookup, erase, insert}
use srt_whep.Prelude.Results.{Result}
use srt_whep.Domain.{SdpOffer}
use srt_whep.Stream.Errors.{PipelineError}
use srt_whep.Stream.TestPipeline
use srt_whep.Stream.TestPipeline.{TestPipeline}
use srt_whep.Signal.Messages.{create_connection, offer_received}
use srt_whep.Signal.World.{World, bounded, world, at_start}
use srt_whep.Signal.Coordinator.Config.{default_config}
use srt_whep.Signal.Coordinator.State.{Coordinator, init}
use srt_whep.Signal.Coordinator.Connection.{deliver_offer, deadline}
use srt_whep.Signal.Coordinator.Handlers.{
  handle, on_create, admit, add_branch_bounded, on_offer, offer_to, sweep_expired, expired_ids,
}
use srt_whep.Signal.Coordinator.Loop.{Wakeup, mailbox, wake, run}
use srt_whep.Signal.Coordinator.Changes.{at}
use srt_whep.Signal.Coordinator.Timing.{IsMonotonic}
use srt_whep.Signal.Coordinator.Deadlines.{InWindow, Forward, done, goes, sweep_expired-run}

bounded_forth :
    (limit : ℕ) (w : World) (o : Option (Result (Unit {0}) PipelineError) × TestPipeline)
    → w.clock ≤ (bounded limit w o).1.clock
bounded_forth limit w (none, p) = omega arith
bounded_forth limit w (some r, p) = omega arith

world-IsMonotonic : IsMonotonic world
world-IsMonotonic = record {
  adds = λ limit id w. bounded_forth limit w (TestPipeline.add_branch id w.pipeline);
  removes = λ limit id w. bounded_forth limit w (TestPipeline.remove_branch id w.pipeline);
}

computes : Unit {0}
unfolding init handle on_create admit add_branch_bounded on_offer offer_to deliver_offer deadline
    expired_ids lookup erase insert wake run TestPipeline.add_branch TestPipeline.set_ready
computes = tt

abbrev later : ℕ → World
later t = record at_start { clock = t }

abbrev offer : SdpOffer
offer = record { sdp = record { text = "v=0 a=sendonly" } }

-- Two viewers join; the whipsink of one delivers its offer.
abbrev two_viewers : List (World × Wakeup)
two_viewers =
    (later 0, mailbox (some (create_connection "a" 1)))
    ∷ (later 10, mailbox (some (create_connection "b" 2)))
    ∷ (later 4000, mailbox (some (offer_received "a" offer 3)))
    ∷ []

abbrev begun : Coordinator World
begun = init at_start default_config

forward : Forward world two_viewers begun
unfolding computes
forward = goes (omega arith) refl (goes (omega arith) refl (goes (omega arith) refl done))

abbrev waiting : Coordinator World
waiting = record (run world two_viewers begun) { env = later 10010 }

in_order : (run world two_viewers begun).env.clock ≤ 10010
unfolding computes
in_order = omega arith

sweep_expired-run_example :
    InWindow world 10010 (sweep_expired world waiting) (at "a" (sweep_expired world waiting))
sweep_expired-run_example =
    sweep_expired-run world world-IsMonotonic at_start default_config two_viewers forward
      (later 10010) in_order "a"
