-- ===== src/Stream/GstPipeline/Atomicity.antt =====
-- `add_branch` and `remove_branch` of src/stream/gst_pipeline.rs over the attach and detach of
-- src/stream/branch.rs.
use mathlib.Core.Path.{subst}
use srt_whep.Prelude.{
  String, ◌≡◌, refl, sym, ap, ◌∙◌, inl, inr, Bool, true, false, none, some, arith, Bool-cases,
  Option-cases, eq_refl,
}
use srt_whep.Prelude.Results.{Result, ok, err, Result-cases}
use srt_whep.Stream.Errors.{PipelineError, from_timed_lock}
use srt_whep.Stream.Naming.{demux, whip_sink_name, video_queue_name, audio_queue_name}
use srt_whep.Stream.Args.{Args}
use srt_whep.Stream.Naming.Given.{IsGiven}
use srt_whep.Stream.Gst.{Gst, IsLawful}
use srt_whep.Stream.Branch.{any_pad, attach, detach}
use srt_whep.Stream.Branch.Detach.{HoldsQueue, is_of_branch, detach_lem}
use srt_whep.Stream.Branch.Attach.{attach-Extends}
use srt_whep.Stream.Branch.Attached.{Has, attach_lem}
use srt_whep.Stream.GstPipeline.{input_ready}
use srt_whep.Stream.GstPipeline.Readiness.{input_ready-IsLinkable}
use srt_whep.Stream.GstPipeline.Control.{
  PipelineWrapper, view, settle, add_to, add_branch, remove_branch,
}

module _ {E H : Type 0} (g : Gst E H) (L : IsLawful g) where
  -- No element of this branch is in the pipeline.
  abbrev pub IsNew : H → String → E → Type 0
  IsNew p id w = (k : String) → is_of_branch id k ≡ true → g.by_name p k w ≡ none

  -- The same elements under the names that the program gives.
  abbrev pub Same : H → E → E → Type 0
  Same p w w' = (k : String) → IsGiven k → g.by_name p k w' ≡ g.by_name p k w

  new-HoldsQueue :
      (p : H) (id n : String) (w : E)
      → IsNew p id w
      → is_of_branch id n ≡ true
      → HoldsQueue g L p n w
  new-HoldsQueue p id n w fresh own e found = cc (fresh n own, found)

  video_own : (id : String) → is_of_branch id (video_queue_name id) ≡ true
  video_own id = ground (arith, eq_refl (video_queue_name id))

  audio_own : (id : String) → is_of_branch id (audio_queue_name id) ≡ true
  audio_own id = ground (arith, eq_refl (audio_queue_name id))

  -- Detaching after any attach of a new branch brings the pipeline back to what it was.
  pub undone :
      (p : H) (args : Args) (id : String) (w : E)
      → IsNew p id w
      → let w' = (attach g p args.port args.decode_video id w).1 in
        ((detach g p id w').0 ≡ ok tt) × Same p w (detach g p id w').1
  undone p args id w fresh =
      let w' = (attach g p args.port args.decode_video id w).1 in
      let grown = (attach-Extends g L p id args.port args.decode_video).from w in
      let (fine, left) =
        detach_lem g L p id w' (grown.video (new-HoldsQueue p id _ w fresh (video_own id)))
          (grown.audio (new-HoldsQueue p id _ w fresh (audio_own id))) in
      (
        fine,
        λ k given. elim (Bool-cases (is_of_branch id k)) [
          | inl own ↦ ground (arith, left k given, own, fresh k)
          | inr other ↦ ground (arith, left k given, other, grown.others k given)
        ],
      )

module _ {E H : Type 0} (g : Gst E H) (lock : E → Result (Unit {0}) String) (s : PipelineWrapper H)
    (p : H) (id : String) (w : E) where
  abbrev attached : Result (Unit {0}) String × E
  attached = attach g p s.args.port s.args.decode_video id w

  -- How `add_branch` ends.
  pub data Ending : Result (Unit {0}) PipelineError × E → Type 0 where
    refused : (e : PipelineError) → Ending (err e, w)
    undone_by_detach :
        (e : String)
        → (attached).0 ≡ err e
        → Ending (err (PipelineError.fatal e), (detach g p id (attached).1).1)
    done : (attached).0 ≡ ok tt → input_ready (view g p w) ≡ ok true → Ending (ok tt, (attached).1)

  settle-Ending :
      (r : Result (Unit {0}) String)
      → (attached).0 ≡ r
      → input_ready (view g p w) ≡ ok true
      → Ending (settle g lock p id r (attached).1)
  unfolding settle
  settle-Ending (ok tt) e ready = done e ready
  settle-Ending (err x) e ready = undone_by_detach x e

  add_to-Ending :
      (r : Result Bool PipelineError)
      → input_ready (view g p w) ≡ r
      → Ending (add_to g lock p s.args id w)
  unfolding add_to
  add_to-Ending (err x) e = rw (e, add_to) (refused x)
  add_to-Ending (ok false) e = rw (e, add_to) (refused _)
  add_to-Ending (ok true) e = rw (e, add_to) (settle-Ending (attached).0 refl e)

  pub add_branch-Ending : s.pipeline ≡ some p → Ending (add_branch g lock s id w)
  unfolding add_branch
  add_branch-Ending at_p = elim (Result-cases (lock w)) [
    | inr (x, e) ↦
        let same : add_branch g lock s id w ≡ (err (from_timed_lock x), w) = ground (arith, e) in
        subst Ending (sym same) (refused (from_timed_lock x))
    | inl (u, e) ↦
        let same : add_branch g lock s id w ≡ add_to g lock p s.args id w =
          ground (arith, e, at_p) in
        subst Ending (sym same) (add_to-Ending (input_ready (view g p w)) refl)
  ]

  module _ (L : IsLawful g) (at_p : s.pipeline ≡ some p) (fresh : IsNew g L p id w) where
    failed-Same :
        {o : Result (Unit {0}) PipelineError × E}
        → Ending o
        → (e : PipelineError) → o.0 ≡ err e
        → Same g L p w o.1
    failed-Same (refused x) e h = λ k given. refl
    failed-Same (undone_by_detach x r) e h = (undone g L p s.args id w fresh).1
    failed-Same (done r ready) e h = cc

    -- If no element of the branch was in the pipeline before, a failed `add_branch` leaves what is found
    -- under every name that the program gives as it was, at whatever step the attach failed.
    pub add_branch-Same :
        (e : PipelineError)
        → (add_branch g lock s id w).0 ≡ err e
        → Same g L p w (add_branch g lock s id w).1
    add_branch-Same = failed-Same (add_branch-Ending at_p)

    -- What is found under the demuxer's name is a tsdemux.
    abbrev pub HasDemuxer : Type 0
    HasDemuxer = (source : H) → g.by_name p demux w ≡ some source → g.factory source ≡ "tsdemux"

    abbrev pub Complete : E → Type 0
    Complete w' =
        Has g L p (whip_sink_name id) w'
        × (any_pad "video" (view g p w).demux_pads ≡ true → Has g L p (video_queue_name id) w')
        × (any_pad "audio" (view g p w).demux_pads ≡ true → Has g L p (audio_queue_name id) w')
        × ((k : String)
            → IsGiven k
            → is_of_branch id k ≡ false
            → g.by_name p k w' ≡ g.by_name p k w)

    done-Complete :
        {o : Result (Unit {0}) PipelineError × E}
        → HasDemuxer
        → Ending o
        → o.0 ≡ ok tt
        → Complete o.1
    done-Complete d (refused x) h = cc
    done-Complete d (undone_by_detach x r) h = cc
    done-Complete d (done r ready) h = elim (Option-cases (g.by_name p demux w)) [
      | inl absent ↦ cc ((input_ready-IsLinkable (view g p w)).0 ready).0
      | inr (source, found) ↦
          let pads : (view g p w).demux_pads ≡ g.pads source w = ground (arith, found) in
          let (sink, video, audio) =
            attach_lem g L p s.args.port s.args.decode_video id source w found (d source found) r in
          (
            sink,
            λ v. (video (ap (any_pad "video") (sym pads) ∙ v)).0,
            λ a. audio (ap (any_pad "audio") (sym pads) ∙ a),
            ((attach-Extends g L p id s.args.port s.args.decode_video).from w).others,
          )
    ]

    -- If the demuxer is a tsdemux and no element of the branch was in the pipeline before, a successful
    -- `add_branch` leaves the whipsink in it and a queue for each media that the demuxer has a pad of,
    -- and what is found under every name that the program gives elsewhere as it was.
    pub add_branch-Complete :
        HasDemuxer → (add_branch g lock s id w).0 ≡ ok tt → Complete (add_branch g lock s id w).1
    add_branch-Complete d = done-Complete d (add_branch-Ending at_p)

    removed-Same :
        {o : Result (Unit {0}) PipelineError × E}
        → Ending o
        → o.0 ≡ ok tt
        → lock o.1 ≡ ok tt
        → ((remove_branch g lock s id o.1).0 ≡ ok tt)
          × Same g L p w (remove_branch g lock s id o.1).1
    unfolding remove_branch
    removed-Same (refused x) h l = cc
    removed-Same (undone_by_detach x r) h l = cc
    removed-Same (done r ready) h l =
        let (fine, same) = undone g L p s.args id w fresh in
        let e : remove_branch g lock s id (attached).1 ≡ (ok tt, (detach g p id (attached).1).1) =
          ground (arith, l, at_p, fine) in
        rw e (refl, same)

    -- If no element of the branch was in the pipeline before, removing the branch after it has been added,
    -- where the lock is got in time, succeeds and leaves what is found under every name that the program
    -- gives as it was before the adding.
    pub remove_branch-add_branch :
        (add_branch g lock s id w).0 ≡ ok tt
        → lock (add_branch g lock s id w).1 ≡ ok tt
        → let w' = (add_branch g lock s id w).1 in
          ((remove_branch g lock s id w').0 ≡ ok tt) × Same g L p w (remove_branch g lock s id w').1
    remove_branch-add_branch = removed-Same (add_branch-Ending at_p)
