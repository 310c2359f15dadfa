-- ===== src/Signal/World.antt =====
-- A concrete outside world for the coordinator of src/signal/coordinator.rs: the program's own
-- `TestPipeline`, a clock, and the reply channels whose requests have gone. A pipeline call that never
-- resolves is cut off at the limit, and the clock then stands that much later.
use srt_whep.Prelude.{ℕ, ◌+◌, Bool, true, false, Option, none, some, List, [], ◌∷◌, ◌==◌, ◌||◌}
use srt_whep.Prelude.Results.{Result}
use srt_whep.Stream.Errors.{PipelineError}
use srt_whep.Stream.TestPipeline
use srt_whep.Stream.TestPipeline.{TestPipeline, default_pipeline}
use srt_whep.Signal.Coordinator.State.{Runtime}

pub record World : Type 0 where
  pub pipeline : TestPipeline
  pub clock : ℕ
  pub dropped : List ℕ

abbrev holds : ℕ → List ℕ → Bool
holds ch [] = false
holds ch (c ∷ cs) = c == ch || holds ch cs

abbrev pub bounded :
    ℕ
    → World
    → Option (Result (Unit {0}) PipelineError) × TestPipeline
    → Option (Result (Unit {0}) PipelineError) × World
bounded limit w (none, p) = (none, record w { pipeline = p; clock = w.clock + limit })
bounded limit w (some r, p) = (some r, record w { pipeline = p })

abbrev pub world : Runtime World
world = record {
  now = λ w. w.clock;
  is_closed = λ ch w. holds ch w.dropped;
  add_branch = λ limit id w. bounded limit w (TestPipeline.add_branch id w.pipeline);
  remove_branch = λ limit id w. bounded limit w (TestPipeline.remove_branch id w.pipeline);
}

abbrev pub at_start : World
at_start = record {
  pipeline = TestPipeline.set_ready true default_pipeline;
  clock = 0;
  dropped = [];
}
