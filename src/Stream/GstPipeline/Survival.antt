-- ===== src/Stream/GstPipeline/Survival.antt =====
-- Sequences of `add_branch` and `remove_branch` of src/stream/gst_pipeline.rs, failed ones included,
-- against the elements that no branch owns.
use srt_whep.Prelude.{
  String, ◌≡◌, refl, ◌∙◌, inl, inr, false, none, some, arith, Bool-cases, Option-cases, List, [],
  ◌∷◌, str_eq,
}
use srt_whep.Prelude.Results.{Result, Result-cases}
use srt_whep.Prelude.Calls.{Call}
use srt_whep.Stream.GstPipeline.Spares.{Spares, bind-Spares}
use srt_whep.Stream.Errors.{PipelineError}
use srt_whep.Stream.Naming.{
  branch_id_from_name, whip_sink_name, video_queue_name, audio_queue_name, video_decoder_name,
}
use srt_whep.Stream.Naming.Classification.{branch_id_from_name_iff}
use srt_whep.Stream.Naming.Given.{IsGiven, for_sink, for_video, for_audio, for_decoder}
use srt_whep.Stream.Gst.{Gst, IsLawful}
use srt_whep.Stream.Branch.{
  remove_element_from_pipeline, release_pad, unlink_from_tee, remove_queue,
  remove_branch_from_pipeline, remove_by_name, detach,
}
use srt_whep.Stream.Branch.Detach.{
  is_of_branch, is_of_branch-IsBranchElement, removed-Clears, by_name-release_pad, element-Clears,
}
use srt_whep.Stream.Branch.Attach.{attach-Extends}
use srt_whep.Stream.GstPipeline.Control.{PipelineWrapper, add_branch, remove_branch}
use srt_whep.Stream.GstPipeline.Atomicity.{
  Ending, refused, undone_by_detach, done, add_branch-Ending,
}

module _ {E H : Type 0} (g : Gst E H) (L : IsLawful g) (p : H) (k : String)
    (given : IsGiven k) where
  removed-spared :
      (n : String) (own : IsGiven n) (e : H) (w : E)
      → g.by_name p n w ≡ some e
      → str_eq n k ≡ false
      → g.by_name p k (remove_element_from_pipeline g p e w).1 ≡ g.by_name p k w
  removed-spared n own e w found other =
      ground (arith, (removed-Clears g L p n own e w found).1 k given, other)

  unlinked-spared :
      (n : String) (own : IsGiven n) (e pad : H) (w : E)
      → g.by_name p n w ≡ some e
      → str_eq n k ≡ false
      → g.by_name p k (unlink_from_tee g p e pad w).1 ≡ g.by_name p k w
  unfolding unlink_from_tee release_pad
  unlinked-spared n own e pad w found other = elim (Option-cases (g.peer pad w)) [
    | inl absent ↦ ground (arith, absent)
    | inr (src, peer) ↦ elim (Option-cases (g.parent_element src w)) [
      | inl absent ↦ ground (arith, peer, absent)
      | inr (tee, parent) ↦
          let w' = (release_pad g p tee src w).1 in
          let same : unlink_from_tee g p e pad w ≡ remove_element_from_pipeline g p e w' =
            ground (arith, peer, parent) in
          rw same (
            removed-spared n own e w' (by_name-release_pad g L p tee src n own w ∙ found) other
            ∙ by_name-release_pad g L p tee src k given w)
    ]
  ]

  queue-spared :
      (n : String) (own : IsGiven n) (e : H) (w : E)
      → g.by_name p n w ≡ some e
      → str_eq n k ≡ false
      → g.by_name p k (remove_queue g p n e w).1 ≡ g.by_name p k w
  unfolding remove_queue
  queue-spared n own e w found other = elim (Option-cases (g.sink_pad e w)) [
    | inl absent ↦ ground (arith, absent)
    | inr (pad, sink) ↦ elim (Bool-cases (g.is_linked pad w)) [
      | inl linked ↦
          let same : remove_queue g p n e w ≡ unlink_from_tee g p e pad w =
            ground (arith, sink, linked) in
          rw same (unlinked-spared n own e pad w found other)
      | inr loose ↦
          let same : remove_queue g p n e w ≡ remove_element_from_pipeline g p e w =
            ground (arith, sink, loose) in
          rw same (removed-spared n own e w found other)
    ]
  ]

  branch-spared :
      (n : String) (own : IsGiven n) (w : E)
      → str_eq n k ≡ false
      → g.by_name p k (remove_branch_from_pipeline g p n w).1 ≡ g.by_name p k w
  unfolding remove_branch_from_pipeline
  branch-spared n own w other = elim (Option-cases (g.by_name p n w)) [
    | inl absent ↦ ground (arith, absent)
    | inr (e, found) ↦
        let same : remove_branch_from_pipeline g p n w ≡ remove_queue g p n e w =
          ground (arith, found) in
        rw same (queue-spared n own e w found other)
  ]

  branch-Spares :
      (n : String) (own : IsGiven n)
      → str_eq n k ≡ false
      → Spares g p k (remove_branch_from_pipeline g p n)
  branch-Spares n own other = record { from = λ w. branch-spared n own w other }

  element-Spares :
      (n : String) (own : IsGiven n) → str_eq n k ≡ false → Spares g p k (remove_by_name g p n)
  element-Spares n own other = record {
    from = λ w. ground (arith, (element-Clears g L p n own w).1 k given, other);
  }

  detach-Spares : (id : String) → is_of_branch id k ≡ false → Spares g p k (detach g p id)
  unfolding detach
  detach-Spares id other =
      let video : str_eq (video_queue_name id) k ≡ false = ground (arith, other) in
      let audio : str_eq (audio_queue_name id) k ≡ false = ground (arith, other) in
      let decoder : str_eq (video_decoder_name id) k ≡ false = ground (arith, other) in
      let sink : str_eq (whip_sink_name id) k ≡ false = ground (arith, other) in
      bind-Spares g p k _ _ (branch-Spares (video_queue_name id) (for_video id) video) λ a.
        bind-Spares g p k _ _ (branch-Spares (audio_queue_name id) (for_audio id) audio) λ b.
          bind-Spares g p k _ _ (element-Spares (video_decoder_name id) (for_decoder id) decoder)
            λ c. element-Spares (whip_sink_name id) (for_sink id) sink

  core-other : (id : String) → branch_id_from_name k ≡ none → is_of_branch id k ≡ false
  core-other id core = elim (Bool-cases (is_of_branch id k)) [
    | inr other ↦ other
    | inl own ↦ cc ((branch_id_from_name_iff k id).1 (is_of_branch-IsBranchElement id k own), core)
  ]

-- A call of the coordinator on the pipeline.
pub data Operation : Type 0 where
  add : String → Operation
  remove : String → Operation

module _ {E H : Type 0} (g : Gst E H) (lock : E → Result (Unit {0}) String)
    (s : PipelineWrapper H) where
  abbrev pub apply : Operation → Call E PipelineError (Unit {0})
  apply (add id) = add_branch g lock s id
  apply (remove id) = remove_branch g lock s id

  -- One operation after the other, whatever each answers.
  unfoldable pub run_all : List Operation → E → E
  run_all [] w = w
  run_all (o ∷ os) w = run_all os (apply o w).1

  module _ (L : IsLawful g) (p : H) (at_p : s.pipeline ≡ some p) (k : String) (given : IsGiven k)
      (core : branch_id_from_name k ≡ none) where
    ended-spared :
        {id : String} {w : E} {o : Result (Unit {0}) PipelineError × E}
        → Ending g lock s p id w o
        → g.by_name p k o.1 ≡ g.by_name p k w
    ended-spared (refused e) = refl
    ended-spared {id} {w} (undone_by_detach e r) =
        (detach-Spares g L p k given id (core-other g L p k given id core)).from _
        ∙ ((attach-Extends g L p id s.args.port s.args.decode_video).from w).others k given
            (core-other g L p k given id core)
    ended-spared {id} {w} (done r ready) =
        ((attach-Extends g L p id s.args.port s.args.decode_video).from w).others k given
          (core-other g L p k given id core)

    apply-spared : (o : Operation) (w : E) → g.by_name p k (apply o w).1 ≡ g.by_name p k w
    unfolding remove_branch
    apply-spared (add id) w = ended-spared (add_branch-Ending g lock s p id w at_p)
    apply-spared (remove id) w = elim (Result-cases (lock w)) [
      | inr (x, e) ↦ ground (arith, e)
      | inl (u, e) ↦
          let same : (remove_branch g lock s id w).1 ≡ (detach g p id w).1 =
            ground (arith, e, at_p) in
          rw same ((detach-Spares g L p k given id (core-other g L p k given id core)).from w)
    ]

    -- An element whose name the program gives, and to no branch, is found as before after any sequence of
    -- adding and removing branches, whichever of these fail and at whatever step.
    pub run_all-core :
        (os : List Operation) (w : E) → g.by_name p k (run_all os w) ≡ g.by_name p k w
    unfolding run_all
    run_all-core [] w = refl
    run_all-core (o ∷ os) w = run_all-core os (apply o w).1 ∙ apply-spared o w
