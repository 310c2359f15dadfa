-- ===== src/Service/Effects.antt =====
-- What one call of src/stream/gst_pipeline.rs does to the branches of all viewers, when the lock is got.
use srt_whep.Prelude.{
  String, false, ◌≡◌, refl, sym, ap, ◌∙◌, some, arith, inl, inr, Bool-cases, str_eq, eq_iff,
}
use srt_whep.Prelude.Results.{Result, ok, err}
use srt_whep.Stream.Errors.{PipelineError}
use srt_whep.Stream.Naming.{video_queue_name, audio_queue_name}
use srt_whep.Stream.Naming.Given.{IsGiven, for_video, for_audio}
use srt_whep.Stream.Gst.{Gst, IsLawful}
use srt_whep.Stream.Branch.{attach, detach}
use srt_whep.Stream.Branch.Detach.{
  HoldsQueue, is_of_branch, is_of_branch-other, of_branch-IsGiven, detach_lem,
}
use srt_whep.Stream.Branch.Attach.{Grown, attach-Extends}
use srt_whep.Stream.GstPipeline.Control.{PipelineWrapper, add_branch, remove_branch}
use srt_whep.Stream.GstPipeline.Atomicity.{
  IsNew, Same, Ending, refused, undone_by_detach, done, add_branch-Ending, undone,
}

module _ {E H : Type 0} (g : Gst E H) (L : IsLawful g) (p : H) where
  -- What stands under the names of branch queues are queues.
  pub record HasQueues (w : E) : Type 0 where
    pub video : (id : String) → HoldsQueue g L p (video_queue_name id) w
    pub audio : (id : String) → HoldsQueue g L p (audio_queue_name id) w

  module _ (lock : E → Result (Unit {0}) String) (s : PipelineWrapper H)
      (at_p : s.pipeline ≡ some p) (free : (w : E) → lock w ≡ ok tt) where
    -- One branch goes: it leaves nothing, and the rest stays.
    pub record Cleared (id : String) (w w' : E) : Type 0 where
      pub gone : IsNew g L p id w'
      pub others :
          (k : String) → IsGiven k → is_of_branch id k ≡ false → g.by_name p k w' ≡ g.by_name p k w
      pub queues : HasQueues w'

    pub removed-Cleared :
        (id : String) (w : E)
        → HasQueues w
        → ((remove_branch g lock s id w).0 ≡ ok tt) × Cleared id w (remove_branch g lock s id w).1
    unfolding remove_branch
    removed-Cleared id w q =
        let (fine, left) = detach_lem g L p id w (q.video id) (q.audio id) in
        let same : remove_branch g lock s id w ≡ (ok tt, (detach g p id w).1) =
          ground (arith, free w, at_p, fine) in
        rw same (
          refl,
          record {
            gone = λ k own. ground (arith, left k (of_branch-IsGiven id k own), own);
            others = λ k given other. ground (arith, left k given, other);
            queues = record {
              video = λ j e found.
                  q.video j e (ground (arith, left (video_queue_name j) (for_video j), found));
              audio = λ j e found.
                  q.audio j e (ground (arith, left (audio_queue_name j) (for_audio j), found));
            };
          },
        )

    -- A branch comes, or not: the rest stays, and if it does not come nothing of it is left.
    pub record Added (id : String) (w : E) (o : Result (Unit {0}) PipelineError × E) : Type 0 where
      pub others :
          (k : String) → IsGiven k → is_of_branch id k ≡ false → g.by_name p k o.1 ≡ g.by_name p k w
      pub queues : HasQueues o.1
      pub failed : (e : PipelineError) → o.0 ≡ err e → IsNew g L p id o.1

    Same-Added :
        (id : String) (w : E) (e : PipelineError) (w' : E)
        → HasQueues w
        → IsNew g L p id w
        → Same g L p w w'
        → Added id w (err e, w')
    Same-Added id w e w' q new same = record {
      others = λ k given other. same k given;
      queues = record {
        video = λ j x found. q.video j x (sym (same (video_queue_name j) (for_video j)) ∙ found);
        audio = λ j x found. q.audio j x (sym (same (audio_queue_name j) (for_audio j)) ∙ found);
      };
      failed = λ x h k own. same k (of_branch-IsGiven id k own) ∙ new k own;
    }

    attached_queues :
        (id : String) (w : E)
        → HasQueues w
        → HasQueues (attach g p s.args.port s.args.decode_video id w).1
    attached_queues id w q =
        let grown = (attach-Extends g L p id s.args.port s.args.decode_video).from w in
        record { video = λ j. video_of j grown; audio = λ j. audio_of j grown }
      where
        video_of :
            (j : String)
            → Grown g L p id w (attach g p s.args.port s.args.decode_video id w).1
            → HoldsQueue g L p
                (video_queue_name j)
                (attach g p s.args.port s.args.decode_video id w).1
        video_of j grown x found = elim (Bool-cases (str_eq id j)) [
          | inl same ↦
              let e : id ≡ j = (eq_iff id j).0 same in
              grown.video (q.video id) x (
                ap
                  (λ i.
                    g.by_name p (video_queue_name i)
                      (attach g p s.args.port s.args.decode_video id w).1)
                  e
                ∙ found)
          | inr other ↦
              let apart =
                is_of_branch-other id j (video_queue_name j) (λ e. cc ((eq_iff id j).1 e, other))
                  (inr (inl refl)) in
              q.video j x (sym (grown.others (video_queue_name j) (for_video j) apart) ∙ found)
        ]

        audio_of :
            (j : String)
            → Grown g L p id w (attach g p s.args.port s.args.decode_video id w).1
            → HoldsQueue g L p
                (audio_queue_name j)
                (attach g p s.args.port s.args.decode_video id w).1
        audio_of j grown x found = elim (Bool-cases (str_eq id j)) [
          | inl same ↦
              let e : id ≡ j = (eq_iff id j).0 same in
              grown.audio (q.audio id) x (
                ap
                  (λ i.
                    g.by_name p (audio_queue_name i)
                      (attach g p s.args.port s.args.decode_video id w).1)
                  e
                ∙ found)
          | inr other ↦
              let apart =
                is_of_branch-other id j (audio_queue_name j) (λ e. cc ((eq_iff id j).1 e, other))
                  (inr (inr (inl refl))) in
              q.audio j x (sym (grown.others (audio_queue_name j) (for_audio j) apart) ∙ found)
        ]

    ended-Added :
        {id : String} {w : E} {o : Result (Unit {0}) PipelineError × E}
        → HasQueues w
        → IsNew g L p id w
        → Ending g lock s p id w o
        → Added id w o
    ended-Added {id} {w} q new (refused e) = Same-Added id w e w q new (λ k given. refl)
    ended-Added {id} {w} q new (undone_by_detach e r) =
        Same-Added id w _ _ q new (undone g L p s.args id w new).1
    ended-Added {id} {w} q new (done r ready) = record {
      others = ((attach-Extends g L p id s.args.port s.args.decode_video).from w).others;
      queues = attached_queues id w q;
      failed = λ e h. cc;
    }

    pub add_branch-Added :
        (id : String) (w : E)
        → HasQueues w
        → IsNew g L p id w
        → Added id w (add_branch g lock s id w)
    add_branch-Added id w q new = ended-Added q new (add_branch-Ending g lock s p id w at_p)
