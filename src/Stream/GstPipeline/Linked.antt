-- ===== src/Stream/GstPipeline/Linked.antt =====
-- The callback of `no-more-pads` and `ready` of src/stream/gst_pipeline.rs with the codec table of
-- src/stream/egress.rs.
use mathlib.Core.Path.{subst}
use srt_whep.Prelude.{
  String, ◌≡◌, refl, sym, ap, ◌∙◌, ◌⊎◌, inl, inr, Bool, true, false, some, arith, Option-cases,
  List, [], ◌∷◌,
}
use Prim.Native.String.{◌++◌}
use srt_whep.Prelude.Text.{starts_with, starts_with_iff, differ, strip_prefix-differ}
use srt_whep.Prelude.Results.{Result, ok, Result-cases}
use srt_whep.Stream.Naming.{demux, output_tee_video, output_tee_audio}
use srt_whep.Stream.Naming.Given
use srt_whep.Stream.Naming.Given.{at_tee_video, at_tee_audio}
use srt_whep.Stream.Gst.{Gst, IsLawful, In, first, later}
use srt_whep.Stream.Branch.Attached.{Has}
use srt_whep.Stream.Egress.{build_egress_chain}
use srt_whep.Stream.Egress.Chains.{
  IsVideo, Kept, Kept-refl, Kept-trans, Kept-Has, Outcome, unsupported, failed, video, audio,
  Outcome-Kept, build_egress_chain-Outcome,
}
use srt_whep.Stream.GstPipeline.{View, input_ready}
use srt_whep.Stream.GstPipeline.Readiness.{Exposes, IsLinkable, input_ready-IsLinkable}
use srt_whep.Stream.GstPipeline.Control.{PipelineWrapper, view, ready}
use srt_whep.Stream.GstPipeline.Callbacks.{link_each, no_more_pads}
use srt_whep.Stream.GstPipeline

starts_apart :
    (m stem other : String)
    → differ stem other ≡ true
    → starts_with m stem ≡ true
    → starts_with m other ≡ false
unfolding starts_with
starts_apart m stem other apart h =
    let (rest, e) = (starts_with_iff m stem).0 h in
    rw e (ground (arith, strip_prefix-differ stem rest other apart))

video_is_no_audio : (m : String) → starts_with m "video/" ≡ true → starts_with m "audio" ≡ false
video_is_no_audio m = starts_apart m "video/" "audio" refl

audio_is_no-IsVideo : (m : String) → starts_with m "audio/" ≡ true → ¬ IsVideo m
audio_is_no-IsVideo m h (inl h264) = cc (starts_apart m "audio/" "video/x-h264" refl h, h264)
audio_is_no-IsVideo m h (inr h265) = cc (starts_apart m "audio/" "video/x-h265" refl h, h265)

module _ {E H : Type 0} (g : Gst E H) (L : IsLawful g) (p : H) where
  -- The tee that pads of this media type need is there.
  data HasTee (media_type : String) (w : E) : Type 0 where
    video_tee : IsVideo media_type → Has g L p output_tee_video w → HasTee media_type w
    audio_tee :
        starts_with media_type "audio" ≡ true → Has g L p output_tee_audio w → HasTee media_type w

  Outcome-HasTee :
      {m : String} {w : E} {o : Result (Unit {0}) String × E}
      → Outcome g L p m w o
      → o.0 ≡ ok tt
      → HasTee m o.1
  Outcome-HasTee (unsupported v a) h = cc
  Outcome-HasTee (failed e w' known kept) h = cc
  Outcome-HasTee (video w' v kept has) h = video_tee v has
  Outcome-HasTee (audio w' v a kept has) h = audio_tee a has

  Kept-HasTee : {m : String} {w w' : E} → Kept g L p w w' → HasTee m w → HasTee m w'
  Kept-HasTee kept (video_tee v has) = video_tee v (Kept-Has g L p kept _ at_tee_video has)
  Kept-HasTee kept (audio_tee a has) = audio_tee a (Kept-Has g L p kept _ at_tee_audio has)

  module _ (video_queue audio_queue : H) where
    abbrev AllLinked : List H → E → E → Type 0
    AllLinked pads w w' =
        Kept g L p w w'
        × ((q : H) (m : String) → In q pads → g.media_type q w ≡ some m → HasTee m w')

    link_each-AllLinked :
        (pads : List H) (w : E)
        → (link_each g p video_queue audio_queue pads w).0 ≡ true
        → AllLinked pads w (link_each g p video_queue audio_queue pads w).1
    unfolding link_each
    link_each-AllLinked [] w h = (Kept-refl g L p w, λ q m x e. elim x [ ])
    link_each-AllLinked (pad ∷ pads) w h = elim (Option-cases (g.media_type pad w)) [
      | inl absent ↦
          let refused : (link_each g p video_queue audio_queue (pad ∷ pads) w).0 ≡ false =
            ground (arith, absent) in
          cc (refused, h)
      | inr (m, typed) ↦
          elim (Result-cases (build_egress_chain g p m video_queue audio_queue w).0) [
            | inr (e, failure) ↦
                let refused : (link_each g p video_queue audio_queue (pad ∷ pads) w).0 ≡ false =
                  ground (arith, typed, failure) in
                cc (refused, h)
            | inl (u, linked) ↦
                let w' = (build_egress_chain g p m video_queue audio_queue w).1 in
                let same : link_each g p video_queue audio_queue (pad ∷ pads) w
                    ≡ link_each g p video_queue audio_queue pads w' =
                  ground (arith, typed, linked) in
                let outcome = build_egress_chain-Outcome g L p m video_queue audio_queue w in
                subst (λ r. AllLinked (pad ∷ pads) w r.1) (sym same)
                  (extend w' m (Outcome-Kept g L p outcome) typed (Outcome-HasTee outcome linked)
                    (link_each-AllLinked pads w' (ap (λ r. r.0) (sym same) ∙ h)))
          ]
    ]
      where
        extend :
            {v : E} (w' : E) (m : String)
            → Kept g L p w w'
            → g.media_type pad w ≡ some m
            → HasTee m w'
            → AllLinked pads w' v
            → AllLinked (pad ∷ pads) w v
        extend {v} w' m kept typed tee (kept', rest) = (Kept-trans g L p kept kept', here)
          where
            here :
                (q : H) (m' : String) → In q (pad ∷ pads) → g.media_type q w ≡ some m' → HasTee m' v
            here q m' first e = subst (λ n. HasTee n v) (cc (typed, e)) (Kept-HasTee kept' tee)
            here q m' (later x) e = rest q m' x (kept.media q ∙ e)

  abbrev TypedPad : String → H → E → Type 0
  TypedPad media source w =
      (q : H) × (m : String) × In q (g.src_pads source w)
      × (g.media_type q w ≡ some m)
      × (starts_with m (media ++ "/") ≡ true)

  -- What tsdemux documents of its pads: where one has the name of a media, one has caps of that media.
  pub record NamesMedia (source : H) (w : E) : Type 0 where
    pub video_pad : Exposes "video" (g.pads source w) → TypedPad "video" source w
    pub audio_pad : Exposes "audio" (g.pads source w) → TypedPad "audio" source w

  needs_video :
      (m : String) (w : E)
      → starts_with m "video/" ≡ true
      → HasTee m w
      → Has g L p output_tee_video w
  needs_video m w h (video_tee v has) = has
  needs_video m w h (audio_tee a has) = cc (a, video_is_no_audio m h)

  needs_audio :
      (m : String) (w : E)
      → starts_with m "audio/" ≡ true
      → HasTee m w
      → Has g L p output_tee_audio w
  needs_audio m w h (audio_tee a has) = has
  needs_audio m w h (video_tee v has) = absurd (audio_is_no-IsVideo m h v)

  seen : (n : String) (w : E) → Has g L p n w → (view g p w).has n ≡ true
  seen n w h = elim (Option-cases (g.by_name p n w)) [
    | inl absent ↦ absurd (h absent)
    | inr (e, found) ↦ ground (arith, found)
  ]

  module _ (lock : E → Result (Unit {0}) String) (s : PipelineWrapper H)
      (video_queue audio_queue source : H) (w : E) where
    abbrev announced : Bool × E
    announced = no_more_pads g p video_queue audio_queue source w

    announced-AllLinked :
        g.by_name p demux w ≡ some source
        → (announced).0 ≡ true
        → AllLinked video_queue audio_queue (g.src_pads source w) w (announced).1
    unfolding no_more_pads
    announced-AllLinked found h =
        let same : announced ≡ link_each g p video_queue audio_queue (g.src_pads source w) w =
          ground (arith, L.alive p demux w source found) in
        subst (λ r. AllLinked video_queue audio_queue (g.src_pads source w) w r.1) (sym same)
          (link_each-AllLinked video_queue audio_queue (g.src_pads source w) w
            (ap (λ r. r.0) (sym same) ∙ h))

    -- If the demuxer is a tsdemux whose pads are named after their media, as tsdemux documents, and has a
    -- pad for video or audio, and `no_more_pads` has linked every pad, then in the state that this leaves
    -- the input is ready: `ready` answers true if it gets the lock there.
    pub no_more_pads-ready :
        s.pipeline ≡ some p
        → g.by_name p demux w ≡ some source
        → g.factory source ≡ "tsdemux"
        → NamesMedia source w
        → Exposes "video" (g.pads source w) ⊎ Exposes "audio" (g.pads source w)
        → (announced).0 ≡ true
        → lock (announced).1 ≡ ok tt
        → ready g lock s (announced).1 ≡ ok true
    unfolding ready GstPipeline.ready
    no_more_pads-ready at_p at_demux demuxer names some_media linked free =
        let (kept, tees) = announced-AllLinked at_demux linked in
        let found : g.by_name p demux (announced).1 ≡ some source =
          kept.names demux Given.at_demux source at_demux in
        let pads : (view g p (announced).1).demux_pads ≡ g.pads source w =
          ground (arith, found, kept.pads source demuxer) in
        let linkable : IsLinkable (view g p (announced).1) = (
          ground (arith, found),
          subst (λ l. Exposes "video" l ⊎ Exposes "audio" l) (sym pads) some_media,
          λ x.
              let (q, m, here, typed, media) = names.video_pad (subst (Exposes "video") pads x) in
              seen output_tee_video (announced).1
                (needs_video m (announced).1 media (tees q m here typed)),
          λ x.
              let (q, m, here, typed, media) = names.audio_pad (subst (Exposes "audio") pads x) in
              seen output_tee_audio (announced).1
                (needs_audio m (announced).1 media (tees q m here typed)),
        ) in
        ground (arith, free, at_p, (input_ready-IsLinkable (view g p (announced).1)).1 linkable)
