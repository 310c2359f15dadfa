-- ===== src/Stream/Bus/Containment.antt =====
-- ADR 0002 of src/stream/bus.rs: an error inside a branch costs that branch, any other the pipeline.
use srt_whep.Prelude.{String, ◌≡◌, refl, ◌⊎◌, inl, inr, ◌↔◌, none, some, arith, Option-cases}
use srt_whep.Stream.Naming.{branch_id_from_name}
use srt_whep.Stream.Naming.Classification.{IsBranchElement, branch_id_from_name_iff}
use srt_whep.Stream.Bus.{
  Object, top, within, Message, eos, error, other, quit, reap_branch, walk, classify_bus_message,
}

-- The name belongs to no branch at all.
abbrev pub IsCore : String → Type 0
IsCore name = (id : String) → ¬ IsBranchElement id name

-- The innermost element of a branch at or above an object is one of the branch `id`.
pub data OwnedBy (id : String) : Object → Type 0 where
  at_top : {name : String} → IsBranchElement id name → OwnedBy id (top name)
  at : {name : String} {parent : Object} → IsBranchElement id name → OwnedBy id (within name parent)
  above :
      {name : String} {parent : Object}
      → IsCore name
      → OwnedBy id parent
      → OwnedBy id (within name parent)

-- No name at or above an object belongs to a branch.
abbrev pub IsOutside : Object → Type 0
IsOutside (top name) = IsCore name
IsOutside (within name parent) = IsCore name × IsOutside parent

IsCore-of_none : (name : String) → branch_id_from_name name ≡ none → IsCore name
IsCore-of_none name e id h = cc (e, (branch_id_from_name_iff name id).1 h)

none_of_IsCore : (name : String) → IsCore name → branch_id_from_name name ≡ none
none_of_IsCore name h = elim (Option-cases (branch_id_from_name name)) [
  | inl e ↦ e
  | inr (id, e) ↦ absurd (h id ((branch_id_from_name_iff name id).0 e))
]

walk_complete :
    (id : String) (o : Object) → OwnedBy id o → walk o ≡ reap_branch (record { id = id })
unfolding walk
walk_complete id _ (at_top {name} h) = rw ((branch_id_from_name_iff name id).1 h, walk) refl
walk_complete id _ (at {name} h) = rw ((branch_id_from_name_iff name id).1 h, walk) refl
walk_complete id _ (above {name} {parent} h below) =
    rw (none_of_IsCore name h, walk) (walk_complete id parent below)

walk_sound : (id : String) (o : Object) → walk o ≡ reap_branch (record { id = id }) → OwnedBy id o
unfolding walk
walk_sound id (top name) e = at_top ((branch_id_from_name_iff name id).0 (ground arith))
walk_sound id (within name parent) e = elim (Option-cases (branch_id_from_name name)) [
  | inl none_here ↦ above (IsCore-of_none name none_here) (walk_sound id parent (ground arith))
  | inr (other_id, some_here) ↦ at ((branch_id_from_name_iff name id).0 (ground arith))
]

walk-quit_iff : (o : Object) → (walk o ≡ quit) ↔ IsOutside o
unfolding walk
walk-quit_iff (top name) =
    (λ e. IsCore-of_none name (ground arith), λ h. rw (none_of_IsCore name h, walk) refl)
walk-quit_iff (within name parent) = (
  λ e. (IsCore-of_none name (ground arith), (walk-quit_iff parent).0 (ground arith)),
  λ h. rw (none_of_IsCore name h.0, walk) ((walk-quit_iff parent).1 h.1),
)

reap_source :
    (m : Message) (id : String)
    → classify_bus_message m ≡ reap_branch (record { id = id })
    → (o : Object) × (m ≡ error (some o)) × OwnedBy id o
unfolding classify_bus_message
reap_source (error (some o)) id e = (o, refl, walk_sound id o e)
reap_source m id e = cc

-- The bus watch asks to reap a branch if and only if the message is an error whose source lies in that
-- branch, the innermost branch element at or above the source deciding.
pub reap_branch_iff :
    (m : Message) (id : String)
    → (classify_bus_message m ≡ reap_branch (record { id = id }))
      ↔ ((o : Object) × (m ≡ error (some o)) × OwnedBy id o)
unfolding classify_bus_message
reap_branch_iff m id = (reap_source m id, λ h. rw h.1 (walk_complete id h.0 h.2))

-- What stops the pipeline: the end of the stream, an error without a source, or one from outside all
-- branches.
abbrev pub IsFatal : Message → Type 0
IsFatal m = (m ≡ eos) ⊎ (m ≡ error none) ⊎ ((o : Object) × (m ≡ error (some o)) × IsOutside o)

quit_source : (m : Message) → classify_bus_message m ≡ quit → IsFatal m
unfolding classify_bus_message
quit_source eos e = inl refl
quit_source (error none) e = inr (inl refl)
quit_source (error (some o)) e = inr (inr (o, refl, (walk-quit_iff o).0 e))
quit_source other e = cc

source_quit : (m : Message) → IsFatal m → classify_bus_message m ≡ quit
unfolding classify_bus_message
source_quit m (inl e) = rw e
source_quit m (inr (inl e)) = rw e
source_quit m (inr (inr (o, e, h))) = rw e ((walk-quit_iff o).1 h)

-- The pipeline is stopped if and only if the message is the end of the stream, an error without a
-- source, or an error with no element of any branch at or above its source.
pub quit_iff : (m : Message) → (classify_bus_message m ≡ quit) ↔ IsFatal m
quit_iff m = (quit_source m, source_quit m)
