-- ===== src/Stream/Bus.antt =====
-- src/stream/bus.rs: what a message on the pipeline's bus means for the pipeline.
pub mod Containment
use srt_whep.Prelude.{String, Option, none, some}
use srt_whep.Stream.Naming.{BranchId, branch_id_from_name}

-- An element with the bins that hold it, as `name()` and `parent()` show them.
pub data Object : Type 0 where
  top : String → Object
  within : String → Object → Object

-- The `MessageView`s that the classifier tells apart; an error has a source or none.
pub data Message : Type 0 where
  eos : Message
  error : Option Object → Message
  other : Message

pub data BusAction : Type 0 where
  quit : BusAction
  reap_branch : BranchId → BusAction
  ignore : BusAction

-- The `while let` loop: from the source upward, to the first name of a branch.
pub walk : Object → BusAction
walk (top name) = elim (branch_id_from_name name) [
  | some id ↦ reap_branch (record { id = id })
  | none ↦ quit
]
walk (within name parent) = elim (branch_id_from_name name) [
  | some id ↦ reap_branch (record { id = id })
  | none ↦ walk parent
]

unfoldable pub classify_bus_message : Message → BusAction
unfolding walk
classify_bus_message eos = quit
classify_bus_message (error none) = quit
classify_bus_message (error (some source)) = walk source
classify_bus_message other = ignore
