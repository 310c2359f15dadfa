-- ===== src/Stream/GstPipeline/Announced.antt =====
-- The callbacks of src/stream/gst_pipeline.rs and viewers' elements: pads that are announced bring no
-- element that a viewer's branch would have, and take none away.
use mathlib.Core.Path.{subst}
use srt_whep.Prelude.{
  String, Bool, true, false, ◌≡◌, refl, ◌∙◌, inl, inr, none, some, arith, List, [], ◌∷◌, All,
  Bool-cases, Option-cases, if_intro,
}
use srt_whep.Prelude.Text.{starts_with, strip_prefix}
use srt_whep.Prelude.Results.{Result-cases}
use srt_whep.Prelude.Calls.{return}
use srt_whep.Stream.Naming.{output_tee_video, output_tee_audio, branch_id_from_name}
use srt_whep.Stream.Naming.Given.{for_branch}
use srt_whep.Stream.Gst.{Gst, IsLawful}
use srt_whep.Stream.Branch.{sync_all, find}
use srt_whep.Stream.Egress.{video_parser, start_chain, video_chain, audio_chain, build_egress_chain}
use srt_whep.Stream.GstPipeline.Spares.{Spares, bind-Spares}
use srt_whep.Stream.GstPipeline.Fresh.{
  IsCore, Makes, named, unnamed, then_Spares, add_many-Spares, link_many-Spares,
}
use srt_whep.Stream.GstPipeline.Callbacks.{
  link_each, no_more_pads, sink_of, insert_into, insert_sink, pad_added,
}

module _ {E H : Type 0} (g : Gst E H) (L : IsLawful g) (p : H) (k id : String)
    (own : branch_id_from_name k ≡ some id) where
  sync_all-Spares : (l : List H) → Spares g p k (sync_all g p l)
  unfolding sync_all
  sync_all-Spares [] = record { from = λ w. refl }
  sync_all-Spares (e ∷ l) =
      bind-Spares g p k _ _ (record { from = λ w. L.by_name-sync e p k (for_branch own) w })
        λ u. sync_all-Spares l

  start_chain-Spares :
      (queue : H) (l : List H) → All (IsCore g L) l → Spares g p k (start_chain g p queue l)
  unfolding start_chain
  start_chain-Spares queue l h =
      bind-Spares g p k _ _ (add_many-Spares g L p k id own l h)
        λ u. bind-Spares g p k _ _ (link_many-Spares g L p k id own _) λ a. sync_all-Spares _

  video_chain-Spares :
      {parser : String} (queue : H)
      → Makes g L p k id own (g.make parser none [])
      → Spares g p k (video_chain g p parser queue)
  unfolding video_chain branch_id_from_name strip_prefix
  video_chain-Spares queue parses = then_Spares g L p k id own parses λ parse a.
      then_Spares g L p k id own (named g L p k id own "tee" output_tee_video _ refl) λ tee b.
        then_Spares g L p k id own (unnamed g L p k id own "fakesink" _ refl refl refl refl)
          λ sink c. start_chain-Spares queue _ (a, (b, (c, tt)))

  audio_chain-Spares : (queue : H) → Spares g p k (audio_chain g p queue)
  unfolding audio_chain branch_id_from_name strip_prefix
  audio_chain-Spares queue =
      then_Spares g L p k id own (unnamed g L p k id own "aacparse" _ refl refl refl refl) λ x₁ a.
        then_Spares g L p k id own (unnamed g L p k id own "avdec_aac" _ refl refl refl refl)
          λ x₂ b.
            then_Spares g L p k id own (unnamed g L p k id own "audioconvert" _ refl refl refl refl)
              λ x₃ c.
                then_Spares g L p k id own
                  (unnamed g L p k id own "audioresample" _ refl refl refl refl)
                  λ x₄ d.
                    then_Spares g L p k id own
                      (unnamed g L p k id own "opusenc" _ refl refl refl refl)
                      λ x₅ e.
                        then_Spares g L p k id own
                          (named g L p k id own "tee" output_tee_audio _ refl)
                          λ tee f.
                            then_Spares g L p k id own
                              (unnamed g L p k id own "fakesink" _ refl refl refl refl)
                              λ sink h.
                                start_chain-Spares queue _ (a, (b, (c, (d, (e, (f, (h, tt)))))))

  parser-Makes :
      (media_type parser : String)
      → video_parser media_type ≡ some parser
      → Makes g L p k id own (g.make parser none [])
  unfolding video_parser
  parser-Makes media_type parser h = elim (Bool-cases (starts_with media_type "video/x-h264")) [
    | inl holds ↦
        let same : "h264parse" ≡ parser = ground (arith, holds, h) in
        subst (λ f. Makes g L p k id own (g.make f none [])) same
          (unnamed g L p k id own "h264parse" _ refl refl refl refl)
    | inr fails ↦ elim (Bool-cases (starts_with media_type "video/x-h265")) [
      | inl holds ↦
          let same : "h265parse" ≡ parser = ground (arith, fails, holds, h) in
          subst (λ f. Makes g L p k id own (g.make f none [])) same
            (unnamed g L p k id own "h265parse" _ refl refl refl refl)
      | inr neither ↦
          let absent : video_parser media_type ≡ none = ground (arith, fails, neither) in
          cc (absent, h)
    ]
  ]

  build_egress_chain-spared :
      (media_type : String) (video audio : H) (w : E)
      → g.by_name p k (build_egress_chain g p media_type video audio w).1 ≡ g.by_name p k w
  unfolding build_egress_chain
  build_egress_chain-spared media_type video audio w =
      elim (Option-cases (video_parser media_type)) [
        | inr (parser, known) ↦
            let same : build_egress_chain g p media_type video audio w
                ≡ video_chain g p parser video w =
              ground (arith, known) in
            rw same ((video_chain-Spares video (parser-Makes media_type parser known)).from w)
        | inl unknown ↦ elim (Bool-cases (starts_with media_type "audio")) [
          | inl holds ↦
              let same : build_egress_chain g p media_type video audio w ≡ audio_chain g p audio w =
                ground (arith, unknown, holds) in
              rw same ((audio_chain-Spares audio).from w)
          | inr fails ↦ ground (arith, unknown, fails)
        ]
      ]

  link_each-spared :
      (video audio : H) (pads : List H) (w : E)
      → g.by_name p k (link_each g p video audio pads w).1 ≡ g.by_name p k w
  unfolding link_each
  link_each-spared video audio [] w = refl
  link_each-spared video audio (pad ∷ pads) w = elim (Option-cases (g.media_type pad w)) [
    | inl absent ↦ ground (arith, absent)
    | inr (media_type, found) ↦
        let w' = (build_egress_chain g p media_type video audio w).1 in
        let kept = build_egress_chain-spared media_type video audio w in
        elim (Result-cases (build_egress_chain g p media_type video audio w).0) [
          | inr (x, failed) ↦
              let same : (link_each g p video audio (pad ∷ pads) w).1 ≡ w' =
                ground (arith, found, failed) in
              rw same kept
          | inl (u, linked) ↦
              let same : link_each g p video audio (pad ∷ pads) w
                  ≡ link_each g p video audio pads w' =
                ground (arith, found, linked) in
              rw same (link_each-spared video audio pads w' ∙ kept)
        ]
  ]

  pub no_more_pads-spared :
      (video audio source : H) (w : E)
      → g.by_name p k (no_more_pads g p video audio source w).1 ≡ g.by_name p k w
  unfolding no_more_pads
  no_more_pads-spared video audio source w =
      if_intro {A = Bool × E} (λ o. g.by_name p k o.1 ≡ g.by_name p k w) (g.is_alive p w)
        (link_each-spared video audio (g.src_pads source w) w) refl

  find-Spares : (n : String) → Spares g p k (find g p n)
  unfolding find
  find-Spares n = record {
    from = λ w. elim (Option-cases (g.by_name p n w)) [
      | inl absent ↦ ground (arith, absent)
      | inr (e, found) ↦ ground (arith, found)
    ];
  }

  sink_of-Spares : (n : String) (queue : H) → Spares g p k (sink_of g p n queue)
  unfolding sink_of
  sink_of-Spares n queue = record {
    from = λ w. elim (Option-cases (g.sink_pad queue w)) [
      | inl absent ↦ ground (arith, absent)
      | inr (e, found) ↦ ground (arith, found)
    ];
  }

  insert_into-Spares : (n : String) (pad : H) → Spares g p k (insert_into g p n pad)
  unfolding insert_into
  insert_into-Spares n pad = bind-Spares g p k _ _ (find-Spares n) λ queue.
      bind-Spares g p k _ (g.link_pads pad) (sink_of-Spares n queue)
        λ sink. record { from = λ w. L.by_name-link_pads pad sink p k (for_branch own) w }

  insert_sink-Spares : (a v : Bool) (pad : H) → Spares g p k (insert_sink g p a v pad)
  unfolding insert_sink
  insert_sink-Spares true true pad =
      bind-Spares g p k _ _ (insert_into-Spares _ pad) λ u. insert_into-Spares _ pad
  insert_sink-Spares true false pad =
      bind-Spares g p k _ (λ u. return tt) (insert_into-Spares _ pad)
        λ u. record { from = λ w. refl }
  insert_sink-Spares false true pad = record { from = (insert_into-Spares _ pad).from }
  insert_sink-Spares false false pad = record { from = λ w. refl }

  pub pad_added-spared : (pad : H) (w : E) → g.by_name p k (pad_added g p pad w) ≡ g.by_name p k w
  unfolding pad_added
  pad_added-spared pad w = elim (Bool-cases (g.is_alive p w)) [
    | inr dead ↦ ground (arith, dead)
    | inl live ↦ elim (Option-cases (g.media_type pad w)) [
      | inl absent ↦ ground (arith, live, absent)
      | inr (name, found) ↦
          let same : pad_added g p pad w
              ≡ (insert_sink g p (starts_with name "audio/") (starts_with name "video/") pad w).1 =
            ground (arith, live, found) in
          rw same ((insert_sink-Spares _ _ pad).from w)
    ]
  ]
