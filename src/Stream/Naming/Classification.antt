-- ===== src/Stream/Naming/Classification.antt =====
-- The names of src/stream/naming.rs and their classifier are inverse to one another.
use Prim.Native.String.{◌++◌}
use srt_whep.Prelude.{
  String, true, ◌≡◌, refl, ◌⊎◌, inl, inr, ◌↔◌, none, some, [], ◌∷◌, arith, Option-cases, All,
}
use srt_whep.Prelude.Text.{
  strip_prefix, strip_prefix-append, strip_prefix-eq_some, differ, strip_prefix-differ,
}
use srt_whep.Stream.Naming.{
  demux, video_queue, audio_queue, output_tee_video, output_tee_audio, srt_source, whip_sink_stem,
  video_decoder_stem, video_queue_name, audio_queue_name, whip_sink_name, video_decoder_name,
  strip_stem, branch_id_from_name,
}

-- The four elements that a viewer's branch may put in the pipeline.
abbrev pub IsBranchElement : String → String → Type 0
IsBranchElement id name =
    (name ≡ whip_sink_name id)
    ⊎ (name ≡ video_queue_name id)
    ⊎ (name ≡ audio_queue_name id)
    ⊎ (name ≡ video_decoder_name id)

strip_stem-append : (stem id : String) → strip_stem (stem ++ ("-" ++ id)) stem ≡ some id
strip_stem-append stem id =
    rw (strip_prefix-append stem ("-" ++ id), strip_stem) (strip_prefix-append "-" id)

strip_stem-eq_some :
    (name stem : String) {id : String} → strip_stem name stem ≡ some id → name ≡ stem ++ ("-" ++ id)
strip_stem-eq_some name stem {id} h = elim (Option-cases (strip_prefix name stem)) [
  | inl e ↦ ground (arith, e)
  | inr (rest, e) ↦
      ground (arith, strip_prefix-eq_some name stem e, strip_prefix-eq_some rest "-" {r = id})
]

strip_stem-differ :
    (stem other id : String)
    → differ stem other ≡ true
    → strip_stem (stem ++ ("-" ++ id)) other ≡ none
strip_stem-differ stem other id h =
    rw (strip_prefix-differ stem ("-" ++ id) other h, strip_stem) refl

-- The classifier finds the id of every element of a branch.
branch_id_of_element :
    (id name : String) → IsBranchElement id name → branch_id_from_name name ≡ some id
unfolding branch_id_from_name whip_sink_name video_queue_name audio_queue_name video_decoder_name
branch_id_of_element id name (inl e) = ground (arith, strip_stem-append whip_sink_stem id)
branch_id_of_element id name (inr (inl e)) =
    ground (
      arith,
      strip_stem-append video_queue id,
      strip_stem-differ video_queue whip_sink_stem id refl,
    )
branch_id_of_element id name (inr (inr (inl e))) = ground (
  arith,
  strip_stem-append audio_queue id,
  strip_stem-differ audio_queue whip_sink_stem id refl,
  strip_stem-differ audio_queue video_queue id refl,
)
branch_id_of_element id name (inr (inr (inr e))) = ground (
  arith,
  strip_stem-append video_decoder_stem id,
  strip_stem-differ video_decoder_stem whip_sink_stem id refl,
  strip_stem-differ video_decoder_stem video_queue id refl,
  strip_stem-differ video_decoder_stem audio_queue id refl,
)

-- What the classifier finds is an element of that branch.
element_of_branch_id :
    (id name : String) → branch_id_from_name name ≡ some id → IsBranchElement id name
unfolding branch_id_from_name whip_sink_name video_queue_name audio_queue_name video_decoder_name
element_of_branch_id id name h = ground (
  arith,
  strip_stem-eq_some name whip_sink_stem {id = id},
  strip_stem-eq_some name video_queue {id = id},
  strip_stem-eq_some name audio_queue {id = id},
  strip_stem-eq_some name video_decoder_stem {id = id},
)

-- `branch_id_from_name` answers an id if and only if the name is one of the four that a branch with
-- that id derives, so an element's name belongs to one branch at most.
pub branch_id_from_name_iff :
    (name id : String) → (branch_id_from_name name ≡ some id) ↔ IsBranchElement id name
branch_id_from_name_iff name id = (element_of_branch_id id name, branch_id_of_element id name)

-- Each core element's name is no branch's, so an error of a core element is never contained.
pub core_names_unclassified :
    All
      (λ name. branch_id_from_name name ≡ none)
      (demux ∷ video_queue ∷ audio_queue ∷ output_tee_video ∷ output_tee_audio ∷ srt_source ∷ [])
unfolding branch_id_from_name strip_prefix
core_names_unclassified = (refl, (refl, (refl, (refl, (refl, (refl, tt))))))

-- A name that starts unlike each stem is no branch's.
pub differ-unclassified :
    (p s : String)
    → differ p whip_sink_stem ≡ true
    → differ p video_queue ≡ true
    → differ p audio_queue ≡ true
    → differ p video_decoder_stem ≡ true
    → branch_id_from_name (p ++ s) ≡ none
unfolding branch_id_from_name
differ-unclassified p s a b c d = ground (
  arith,
  strip_prefix-differ p s whip_sink_stem a,
  strip_prefix-differ p s video_queue b,
  strip_prefix-differ p s audio_queue c,
  strip_prefix-differ p s video_decoder_stem d,
)
