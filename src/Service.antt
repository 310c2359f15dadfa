-- ===== src/Service.antt =====
-- The coordinator of src/signal/coordinator.rs on the pipeline of src/stream/gst_pipeline.rs, as
-- src/signal/mod.rs spawns it, between two restarts of the pipeline.
pub mod Effects
pub mod Tidy
pub mod Rounds
pub mod Quiet
pub mod System
pub mod Cycles
use srt_whep.Prelude.{ℕ, String, Bool, some}
use srt_whep.Prelude.Results.{Result}
use srt_whep.Stream.Gst.{Gst}
use srt_whep.Stream.GstPipeline.Control.{PipelineWrapper, add_branch, remove_branch}
use srt_whep.Signal.Coordinator.State.{Runtime}

-- The coordinator's view of the pipeline when no call of it takes longer than its limit.
abbrev pub service :
    {E H : Type 0}
    → Gst E H
    → (E → Result (Unit {0}) String)
    → PipelineWrapper H
    → (E → ℕ)
    → (ℕ → E → Bool)
    → Runtime E
service g lock s now is_closed = record {
  now = now;
  is_closed = is_closed;
  add_branch = λ limit id w. let (r, w') = add_branch g lock s id w in (some r, w');
  remove_branch = λ limit id w. let (r, w') = remove_branch g lock s id w in (some r, w');
}
