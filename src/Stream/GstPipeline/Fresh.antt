-- ===== src/Stream/GstPipeline/Fresh.antt =====
-- Viewers' elements in src/stream/gst_pipeline.rs apart from the calls for viewers: a set-up
-- and the callbacks name no element as a viewer's would be.
use mathlib.Core.Path.{subst}
use srt_whep.Prelude.{
  String, ◌≡◌, refl, sym, ap, if_intro, ◌&&◌, ◌∙◌, inl, inr, none, some, true, List, [], ◌∷◌, All,
}
use srt_whep.Prelude.Text.{differ, strip_prefix}
use srt_whep.Prelude.Results.{ok}
use srt_whep.Prelude.Calls.{Call, ◌>>=◌, return}
use srt_whep.Stream.Naming.{
  demux, video_queue, audio_queue, srt_source, whip_sink_stem, video_decoder_stem,
  branch_id_from_name,
}
use srt_whep.Stream.Naming.Classification.{differ-unclassified}
use srt_whep.Stream.Naming.Given.{for_branch}
use srt_whep.Stream.Gst.{Gst, IsLawful, Value, In, first, later, playing}
use srt_whep.Stream.GstPipeline.Spares.{Spares, bind-Spares, bind-Spares_known}
use srt_whep.Stream.GstPipeline.Lifecycle.{
  create, discover_input, create_custom_queue, connect, build, equip, run_discoverer, is_caller,
}
use srt_whep.Stream.Args.{Args}
use srt_whep.Stream.Branch.Attached.{bind-ok}

module _ {E H : Type 0} (g : Gst E H) (L : IsLawful g) where
  -- An element that no viewer's branch has.
  abbrev pub IsCore : H → Type 0
  IsCore e = branch_id_from_name (g.name e) ≡ none

  each_IsCore : (l : List H) → All IsCore l → (e : H) → In e l → IsCore e
  each_IsCore [] h e m = elim m [ ]
  each_IsCore (x ∷ l) (core, rest) e first = core
  each_IsCore (x ∷ l) (core, rest) e (later m) = each_IsCore l rest e m

  module _ (p : H) (k id : String) (own : branch_id_from_name k ≡ some id) where
    -- A call that makes a core element.
    pub record Makes (m : Call E String H) : Type 0 where
      pub spares : Spares g p k m
      pub core : (w : E) (e : H) → (m w).0 ≡ ok e → IsCore e

    pub named :
        (f n : String) (ps : List (String × Value))
        → branch_id_from_name n ≡ none
        → Makes (g.make f (some n) ps)
    named f n ps core = record {
      spares = record { from = λ w. L.by_name-make f (some n) ps p k (for_branch own) w };
      core = λ w e h. ap branch_id_from_name (L.make_names f n ps w e h).0 ∙ core;
    }

    pub unnamed :
        (f : String) (ps : List (String × Value))
        → differ f whip_sink_stem ≡ true
        → differ f video_queue ≡ true
        → differ f audio_queue ≡ true
        → differ f video_decoder_stem ≡ true
        → Makes (g.make f none ps)
    unnamed f ps a b c d = record {
      spares = record { from = λ w. L.by_name-make f none ps p k (for_branch own) w };
      core = λ w e h.
          let (rest, name) = L.make_unnamed f ps w e h in
          ap branch_id_from_name name ∙ differ-unclassified f rest a b c d;
    }

    pub then_Spares :
        {B : Type 0} {m : Call E String H} {f : H → Call E String B}
        → Makes m
        → ((e : H) → IsCore e → Spares g p k (f e))
        → Spares g p k (m >>= f)
    then_Spares {B} {m} {f} makes rest =
        bind-Spares_known g p k IsCore m f makes.core makes.spares rest

    pub add_many-Spares : (l : List H) → All IsCore l → Spares g p k (g.add_many p l)
    add_many-Spares l h = record {
      from = λ w. elim (L.by_name-add_many l p k (for_branch own) w) [
        | inl same ↦ same
        | inr (e, m, name, found, free) ↦
            cc (sym (ap branch_id_from_name name) ∙ each_IsCore l h e m, own)
      ];
    }

    pub link_many-Spares : (l : List H) → Spares g p k (g.link_many l)
    link_many-Spares l = record { from = λ w. L.by_name-link_many l p k (for_branch own) w }

    discover-Spares : (args : Args) → Spares g p k (discover_input g args)
    unfolding discover_input run_discoverer
    discover-Spares args = record {
      from = λ w.
          if_intro (λ w'. g.by_name p k w' ≡ g.by_name p k w)
            (is_caller args.srt_mode && args.run_discoverer)
            (L.by_name-discover args.discoverer_timeout_sec _ p k (for_branch own) w) refl;
    }

    connect-Spares :
        (src tee whep sq find dem vq aq sink : H)
        → All IsCore (src ∷ tee ∷ whep ∷ sq ∷ find ∷ dem ∷ vq ∷ aq ∷ sink ∷ [])
        → Spares g p k (connect g p src tee whep sq find dem vq aq sink)
    unfolding connect
    connect-Spares src tee whep sq find dem vq aq sink h =
        bind-Spares g p k _ _ (add_many-Spares _ h) λ u.
          bind-Spares g p k _ _ (link_many-Spares _) λ a.
            bind-Spares g p k _ _ (link_many-Spares _) λ b.
              bind-Spares g p k _ _ (link_many-Spares _) λ c.
                bind-Spares g p k (g.set_state p playing) (λ u. return p)
                  (record { from = λ w. L.by_name-set_state p playing p k (for_branch own) w })
                  λ d. record { from = λ w. refl }

    equip-Spares : (args : Args) → Spares g p k (equip g args p)
    unfolding equip create_custom_queue branch_id_from_name strip_prefix
    equip-Spares args = bind-Spares g p k _ _ (discover-Spares args) λ u.
        then_Spares (named "srtsrc" srt_source _ refl) λ src a.
          then_Spares (named "tee" "input_tee" _ refl) λ tee b.
            then_Spares (named "queue" "whep-queue" _ refl) λ whep c.
              then_Spares (named "typefind" "typefind" _ refl) λ find d.
                then_Spares (named "tsdemux" demux _ refl) λ dem e.
                  then_Spares (named "queue" video_queue _ refl) λ vq f.
                    then_Spares (named "queue" audio_queue _ refl) λ aq h.
                      then_Spares (named "queue" "srt-queue" _ refl) λ sq i.
                        then_Spares (unnamed "srtsink" _ refl refl refl refl) λ sink j.
                          connect-Spares src tee whep sq find dem vq aq sink
                            (a, (b, (c, (i, (d, (e, (f, (h, (j, tt)))))))))

  -- A chain that can answer this handle only.
  record Yields (p : H) (m : Call E String H) : Type 0 where
    from : (w : E) (q : H) → (m w).0 ≡ ok q → q ≡ p

  bind-Yields :
      {A : Type 0} (p : H) (m : Call E String A) (f : A → Call E String H)
      → ((a : A) → Yields p (f a))
      → Yields p (m >>= f)
  bind-Yields p m f h = record {
    from = λ w q e. let (a, fine, rest, same) = bind-ok m f w q e in (h a).from (m w).1 q rest;
  }

  return-Yields : (p : H) → Yields p (return p)
  return-Yields p = record { from = λ w q e. cc }

  connect-Yields :
      (p src tee whep sq find dem vq aq sink : H)
      → Yields p (connect g p src tee whep sq find dem vq aq sink)
  unfolding connect
  connect-Yields p src tee whep sq find dem vq aq sink = bind-Yields p (g.add_many p _) _ λ u.
      bind-Yields p (g.link_many _) _ λ a. bind-Yields p (g.link_many _) _ λ b.
        bind-Yields p (g.link_many _) _
          λ c. bind-Yields p (g.set_state p playing) (λ d. return p) λ d. return-Yields p

  equip-Yields : (args : Args) (p : H) → Yields p (equip g args p)
  unfolding equip create_custom_queue
  equip-Yields args p = bind-Yields p (discover_input g args) _ λ u.
      bind-Yields p (g.make "srtsrc" (some srt_source) _) _ λ src.
        bind-Yields p (g.make "tee" (some "input_tee") []) _ λ tee.
          bind-Yields p (create_custom_queue g "whep-queue" "0" "0" "no") _ λ whep.
            bind-Yields p (g.make "typefind" (some "typefind") []) _ λ find.
              bind-Yields p (g.make "tsdemux" (some demux) _) _ λ dem.
                bind-Yields p (create_custom_queue g video_queue "0" "0" "no") _ λ vq.
                  bind-Yields p (create_custom_queue g audio_queue "0" "0" "no") _ λ aq.
                    bind-Yields p (create_custom_queue g "srt-queue" "0" "0" "downstream") _ λ sq.
                      bind-Yields p (g.make "srtsink" none _) _
                        λ sink. connect-Yields p src tee whep sq find dem vq aq sink

  -- No element is found under a viewer's name.
  pub record Bare (p : H) (w : E) : Type 0 where
    pub from : (k id : String) → branch_id_from_name k ≡ some id → g.by_name p k w ≡ none

  pub build-Bare :
      (args : Args) (w : E) (p : H) → (build g args w).0 ≡ ok p → Bare p (build g args w).1
  unfolding build create
  build-Bare args w p h = record {
    from = λ k id own.
        let (q, w') = g.new_pipeline w in
        let same : p ≡ q = (equip-Yields args q).from w' p h in
        subst (λ r. g.by_name r k (equip g args q w').1 ≡ none) (sym same)
          ((equip-Spares q k id own args).from w' ∙ L.new_pipeline_empty k w);
  }
