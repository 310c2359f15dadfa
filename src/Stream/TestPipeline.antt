-- ===== src/Stream/TestPipeline.antt =====
-- `TestPipeline` of src/stream/pipeline.rs, the recording fake that the program ships. A call that
-- never resolves is `none`.
use srt_whep.Prelude.{
  ℕ, ◌+◌, String, Bool, true, false, Option, none, some, List, [], ◌∷◌, ◌++◌, not, ◌&&◌, ltb,
  length, if◌then◌else◌,
}
use srt_whep.Prelude.Results.{Result, ok, err}
use srt_whep.Stream.Errors.{PipelineError, not_ready}
use srt_whep.Stream.Naming.{BranchId}
pub mod Runs

pub record TestPipelineState : Type 0 where
  pub ready : Bool
  pub added : List String
  pub removed : List String
  pub quit_count : ℕ
  pub init_count : ℕ
  pub run_count : ℕ
  pub end_count : ℕ
  pub cleanup_count : ℕ
  pub next_run_error : Option String
  pub block_remove_branch : Bool
  pub block_add_branch : Bool

-- A bounded `mpsc` channel of failed branches, as its sender sees it.
pub record Channel : Type 0 where
  pub capacity : ℕ
  pub queued : List BranchId
  pub is_open : Bool

-- `try_send`, whose refusal is not looked at: a full or closed channel drops the report.
unfoldable pub try_send : BranchId → Channel → Channel
try_send branch c =
    if c.is_open && ltb (length c.queued) c.capacity
    then record c { queued = c.queued ++ branch ∷ [] }
    else c

-- The gate is tokio's `Notify`: it keeps one permit.
pub record TestPipeline : Type 0 where
  pub state : TestPipelineState
  pub run_gate : Bool
  pub add_branch_error : Option PipelineError
  pub remove_branch_error : Option PipelineError
  pub branch_failures : Channel

abbrev pub default_pipeline : TestPipeline
default_pipeline = record {
  state = record {
    ready = false;
    added = [];
    removed = [];
    quit_count = 0;
    init_count = 0;
    run_count = 0;
    end_count = 0;
    cleanup_count = 0;
    next_run_error = none;
    block_remove_branch = false;
    block_add_branch = false;
  };
  run_gate = false;
  add_branch_error = none;
  remove_branch_error = none;
  branch_failures = record { capacity = 1; queued = []; is_open = false };
}

-- `TestPipeline::new`
abbrev pub new : Channel → TestPipeline
new branch_failures = record default_pipeline { branch_failures = branch_failures }

abbrev Call : Type 0
Call = Option (Result (Unit {0}) PipelineError) × TestPipeline

unfoldable pub set_ready : Bool → TestPipeline → TestPipeline
set_ready value p = record p { state = record (p.state) { ready = value } }

unfoldable pub fail_next_add_branch : PipelineError → TestPipeline → TestPipeline
fail_next_add_branch e p = record p { add_branch_error = some e }

unfoldable pub fail_next_remove_branch : PipelineError → TestPipeline → TestPipeline
fail_next_remove_branch e p = record p { remove_branch_error = some e }

unfoldable pub block_remove_branch : TestPipeline → TestPipeline
block_remove_branch p = record p { state = record (p.state) { block_remove_branch = true } }

unfoldable pub block_add_branch : TestPipeline → TestPipeline
block_add_branch p = record p { state = record (p.state) { block_add_branch = true } }

unfoldable pub ready : TestPipeline → Result Bool PipelineError
ready p = ok p.state.ready

unfoldable pub add_branch :
    String → TestPipeline → Option (Result (Unit {0}) PipelineError) × TestPipeline
add_branch id p = elim (p.add_branch_error) [
  | some e ↦ (some (err e), record p { add_branch_error = none })
  | none ↦
      if not p.state.ready
      then (some (err not_ready), p)
      else if p.state.block_add_branch
      then (none, p)
      else (
        some (ok tt),
        record p { state = record (p.state) { added = p.state.added ++ id ∷ [] } },
      )
]

unfoldable pub remove_branch :
    String → TestPipeline → Option (Result (Unit {0}) PipelineError) × TestPipeline
remove_branch id p = elim (p.remove_branch_error) [
  | some e ↦ (some (err e), record p { remove_branch_error = none })
  | none ↦ if p.state.block_remove_branch then (none, p) else (
    some (ok tt),
    record p { state = record (p.state) { removed = p.state.removed ++ id ∷ [] } },
  )
]

unfoldable pub fail_branch : String → TestPipeline → TestPipeline
fail_branch id p = record p { branch_failures = try_send (record { id = id }) (p.branch_failures) }

-- `run_gate.notify_one()`
abbrev release : TestPipeline → TestPipeline
release p = record p { run_gate = true }

unfoldable pub finish_run : TestPipeline → TestPipeline
finish_run p = release p

unfoldable pub fail_run : String → TestPipeline → TestPipeline
fail_run msg p = release (record p { state = record (p.state) { next_run_error = some msg } })

unfoldable pub init : TestPipeline → Result (Unit {0}) String × TestPipeline
init p = (ok tt, record p { state = record (p.state) { init_count = p.state.init_count + 1 } })

-- `run` up to its wait at the gate.
unfoldable pub start_run : TestPipeline → TestPipeline
start_run p = record p { state = record (p.state) { run_count = p.state.run_count + 1 } }

-- The rest of `run`, which is parked while the gate is shut; a permit opens it once.
unfoldable pub resume_run : TestPipeline → Option (Result (Unit {0}) String) × TestPipeline
resume_run p =
    let released = record p {
      run_gate = false;
      state = record (p.state) { next_run_error = none };
    } in
    if p.run_gate
    then elim (p.state.next_run_error) [
      | some msg ↦ (some (err msg), released)
      | none ↦ (some (ok tt), released)
    ]
    else (none, p)

unfoldable pub end : TestPipeline → Result (Unit {0}) String × TestPipeline
end p =
    (ok tt, release (record p { state = record (p.state) { end_count = p.state.end_count + 1 } }))

unfoldable pub clean_up : TestPipeline → Result (Unit {0}) String × TestPipeline
clean_up p =
    (ok tt, record p { state = record (p.state) { cleanup_count = p.state.cleanup_count + 1 } })

unfoldable pub quit : TestPipeline → Result (Unit {0}) PipelineError × TestPipeline
quit p =
    (ok tt, release (record p { state = record (p.state) { quit_count = p.state.quit_count + 1 } }))
