-- ===== src/Service/Quiet.antt =====
-- The calls of src/stream/gst_pipeline.rs that are not for a viewer, against viewers' elements.
use srt_whep.Prelude.{String, true, ◌≡◌, refl, sym, ◌∙◌, some, arith, inl, inr, Option-cases}
use srt_whep.Prelude.Results.{Result, ok}
use srt_whep.Stream.Naming.{branch_id_from_name, video_queue_name, audio_queue_name}
use srt_whep.Stream.Naming.Classification.{branch_id_from_name_iff}
use srt_whep.Stream.Naming.Given.{IsGiven, for_branch}
use srt_whep.Stream.Gst.{Gst, IsLawful}
use srt_whep.Stream.Branch.Detach.{is_of_branch, is_of_branch-IsBranchElement}
use srt_whep.Stream.GstPipeline.Control.{PipelineWrapper}
use srt_whep.Stream.GstPipeline.Fresh.{Bare}
use srt_whep.Stream.GstPipeline.Lifecycle.{start_run, end, clean_up, quit_run}
use srt_whep.Signal.Coordinator.State.{Coordinator}
use srt_whep.Service.Tidy.{Tidy}

own_video : (id : String) → branch_id_from_name (video_queue_name id) ≡ some id
own_video id = (branch_id_from_name_iff (video_queue_name id) id).1 (inr (inl refl))

own_audio : (id : String) → branch_id_from_name (audio_queue_name id) ≡ some id
own_audio id = (branch_id_from_name_iff (audio_queue_name id) id).1 (inr (inr (inl refl)))

own_name : (id k : String) → is_of_branch id k ≡ true → branch_id_from_name k ≡ some id
own_name id k own = (branch_id_from_name_iff k id).1 (is_of_branch-IsBranchElement id k own)

module _ {E H : Type 0} (g : Gst E H) (L : IsLawful g) where
  -- A pipeline without any viewer's element agrees with every map.
  pub Bare-Tidy : (p : H) (c : Coordinator E) → Bare g L p c.env → Tidy g L p c
  Bare-Tidy p c bare = record {
    queues = record {
      video = λ id e found. cc (bare.from (video_queue_name id) id (own_video id), found);
      audio = λ id e found. cc (bare.from (audio_queue_name id) id (own_audio id), found);
    };
    unconnected = λ j h k own. bare.from k j (own_name j k own);
  }

  -- No element with a viewer's name comes or goes.
  pub record Calm (p : H) (w w' : E) : Type 0 where
    pub from :
        (k id : String) → branch_id_from_name k ≡ some id → g.by_name p k w' ≡ g.by_name p k w

  pub Calm-Tidy :
      (p : H) (c : Coordinator E) (w : E)
      → Calm p c.env w
      → Tidy g L p c
      → Tidy g L p (record c { env = w })
  Calm-Tidy p c w calm a = record {
    queues = record {
      video = λ id e found.
          a.queues.video id e (sym (calm.from (video_queue_name id) id (own_video id)) ∙ found);
      audio = λ id e found.
          a.queues.audio id e (sym (calm.from (audio_queue_name id) id (own_audio id)) ∙ found);
    };
    unconnected = λ j h k own. calm.from k j (own_name j k own) ∙ a.unconnected j h k own;
  }

  module _ (lock : E → Result (Unit {0}) String) (free : (w : E) → lock w ≡ ok tt) where
    pub clean_up_ok : (wr : PipelineWrapper H) (w : E) → (clean_up g lock (wr, w)).0 ≡ ok tt
    unfolding clean_up
    clean_up_ok wr w = elim (Option-cases (wr.pipeline)) [
      | inl absent ↦ ground (arith, free w, absent)
      | inr (p, there) ↦ ground (arith, free w, there)
    ]

    -- The same pipeline, with the same viewers' elements.
    abbrev pub Quiet : PipelineWrapper H → E → PipelineWrapper H × E → Type 0
    Quiet wr w o = (o.0.pipeline ≡ wr.pipeline) × ((p : H) → wr.pipeline ≡ some p → Calm p w o.1)

    same-Quiet :
        (wr wr' : PipelineWrapper H) (w w' : E)
        → wr'.pipeline ≡ wr.pipeline
        → ((p : H) (k : String) → IsGiven k → g.by_name p k w' ≡ g.by_name p k w)
        → Quiet wr w (wr', w')
    same-Quiet wr wr' w w' e h =
        (e, λ p there. record { from = λ k id own. h p k (for_branch own) })

    pub end_calm : (wr : PipelineWrapper H) (w : E) → Quiet wr w (end g lock (wr, w)).1
    unfolding end
    end_calm wr w = elim (Option-cases (wr.pipeline)) [
      | inl absent ↦
          let same : (end g lock (wr, w)).1 ≡ (wr, w) = ground (arith, free w, absent) in
          rw same (same-Quiet wr wr w w refl (λ p k given. refl))
      | inr (p, there) ↦
          let same : (end g lock (wr, w)).1 ≡ (wr, (g.send_eos p w).1) =
            ground (arith, free w, there) in
          rw same (same-Quiet wr wr w _ refl (λ q k given. L.by_name-send_eos p q k given w))
    ]

    pub quit_calm : (wr : PipelineWrapper H) (w : E) → Quiet wr w (quit_run g lock (wr, w)).1
    unfolding quit_run
    quit_calm wr w = elim (Option-cases (wr.main_loop)) [
      | inl absent ↦
          let same : (quit_run g lock (wr, w)).1 ≡ (wr, w) = ground (arith, free w, absent) in
          rw same (same-Quiet wr wr w w refl (λ p k given. refl))
      | inr (l, there) ↦
          let same : (quit_run g lock (wr, w)).1 ≡ (wr, g.quit_main_loop l w) =
            ground (arith, free w, there) in
          rw same (same-Quiet wr wr w _ refl (λ q k given. L.by_name-quit_main_loop l q k given w))
    ]

    pub start_calm : (wr : PipelineWrapper H) (w : E) → Quiet wr w (start_run g lock (wr, w)).1
    unfolding start_run
    start_calm wr w = elim (Option-cases (wr.pipeline)) [
      | inl absent ↦
          let same : (start_run g lock (wr, w)).1 ≡ (wr, w) = ground (arith, free w, absent) in
          rw same (same-Quiet wr wr w w refl (λ p k given. refl))
      | inr (p, there) ↦
          let (l, w') = g.new_main_loop w in
          let same : (start_run g lock (wr, w)).1 ≡ (record wr { main_loop = some l }, w') =
            ground (arith, free w, there) in
          rw same (
            same-Quiet wr (record wr { main_loop = some l }) w w' refl
              (λ q k given. L.by_name-new_main_loop q k given w))
    ]
