-- ===== src/Stream/Branch/Attached.antt =====
-- What is in the pipeline when `Branch::attach` of src/stream/branch.rs has succeeded.
use mathlib.Core.Path.{subst}
use srt_whep.Prelude.{
  ℕ, String, ◌≡◌, refl, sym, ap, ◌∙◌, ◌≢◌, Bool, true, false, none, some, arith, [], ◌∷◌,
}
use srt_whep.Prelude.Results.{Result, ok, err}
use srt_whep.Prelude.Calls.{Call, ◌>>=◌, ◌>>◌, proceed}
use srt_whep.Stream.Naming.{
  demux, whip_sink_name, video_queue_name, audio_queue_name, video_decoder_name, output_tee_video,
  output_tee_audio,
}
use srt_whep.Stream.Naming.Given.{IsGiven, for_sink, for_video, for_audio, for_decoder}
use srt_whep.Stream.Gst.{Gst, IsLawful, first}
use srt_whep.Stream.Branch.{
  any_pad, find, make_and_add, point_at, attach_video, attach_audio, if_media, attach,
  whip_endpoint,
}
use srt_whep.Stream.Branch.Attach.{
  Extends, make_and_add-Extends, rest-Extends, bind-Extends, link_many-Extends, sync_all-Extends,
  decoder-IsOwn, whipsink-IsOwn, sync-Extends, if_media-Extends, attach_video-Extends,
  attach_audio-Extends, point_at-Extends,
}

module _ {E A B : Type 0} where
  proceed-ok :
      (r : Result A String) (f : A → Call E String B) (w : E) (b : B)
      → (proceed r f w).0 ≡ ok b
      → (a : A) × (r ≡ ok a) × ((f a w).0 ≡ ok b) × (proceed r f w ≡ f a w)
  proceed-ok (ok a) f w b h = (a, refl, h, refl)
  proceed-ok (err e) f w b h = cc

  -- A chain that succeeds has succeeded at its first call, and goes on from there.
  pub bind-ok :
      (m : Call E String A) (f : A → Call E String B) (w : E) (b : B)
      → ((m >>= f) w).0 ≡ ok b
      → (a : A) × ((m w).0 ≡ ok a) × ((f a (m w).1).0 ≡ ok b) × ((m >>= f) w ≡ f a (m w).1)
  bind-ok m f w b h = proceed-ok (m w).0 f (m w).1 b h

module _ {E H : Type 0} (g : Gst E H) (L : IsLawful g) (p : H) where
  abbrev pub Has : String → E → Type 0
  Has n w = g.by_name p n w ≢ none

  -- What the first call of a chain puts there stays; what a later one puts there is there in the end.
  first-Has :
      {A B : Type 0} (id n : String) (m : Call E String A) (f : A → Call E String B) (w : E) (b : B)
      → IsGiven n
      → ((m >>= f) w).0 ≡ ok b
      → ((a : A) → (m w).0 ≡ ok a → Has n (m w).1)
      → ((a : A) → Extends g L p id (f a))
      → Has n ((m >>= f) w).1
  first-Has id n m f w b given h here after =
      let (a, e, rest, same) = bind-ok m f w b h in
      subst (λ r. Has n r.1) (sym same) (((after a).from (m w).1).kept n given (here a e))

  pub later-Has :
      {A B : Type 0} (n : String) (m : Call E String A) (f : A → Call E String B) (w : E) (b : B)
      → ((m >>= f) w).0 ≡ ok b
      → ((a : A) → (m w).0 ≡ ok a → (f a (m w).1).0 ≡ ok b → Has n (f a (m w).1).1)
      → Has n ((m >>= f) w).1
  later-Has n m f w b h after =
      let (a, e, rest, same) = bind-ok m f w b h in
      subst (λ r. Has n r.1) (sym same) (after a e rest)

  make_and_add-Has :
      (factory n : String) (w : E) (e : H)
      → (make_and_add g p factory n w).0 ≡ ok e
      → Has n (make_and_add g p factory n w).1
  unfolding make_and_add
  make_and_add-Has factory n w e h = later-Has n (g.make factory (some n) []) _ w e h λ x made rest.
      later-Has n (g.add_many p (x ∷ [])) _ _ e rest λ u added last.
        subst (λ k. Has k (g.add_many p (x ∷ []) (g.make factory (some n) [] w).1).1)
          (L.make_names factory n [] w x made).0 (L.add_many_adds (x ∷ []) p x _ added first)

  attach_video-Has :
      (id : String) (decode : Bool) (s : H) (w : E)
      → (attach_video g p decode id s w).0 ≡ ok tt
      → Has (video_queue_name id) (attach_video g p decode id s w).1
        × (decode ≡ true → Has (video_decoder_name id) (attach_video g p decode id s w).1)
  unfolding attach_video
  attach_video-Has id true s w h = (
    later-Has _ (find g p output_tee_video) _ w tt h λ tee e rest.
        first-Has id _ (make_and_add g p "queue" (video_queue_name id)) _ _ tt (for_video id) rest
          (make_and_add-Has _ _ _)
          λ queue.
            bind-Extends g L p id _ _ (make_and_add-Extends g L p id _ _ (decoder-IsOwn g L p id))
              λ decoder.
                bind-Extends g L p id _ _ (link_many-Extends g L p id _)
                  λ x. sync_all-Extends g L p id _,
    λ _. later-Has _ (find g p output_tee_video) _ w tt h λ tee e rest.
        later-Has _ (make_and_add g p "queue" (video_queue_name id)) _ _ tt rest λ queue e' rest'.
          first-Has id _ (make_and_add g p "avdec_h264" (video_decoder_name id)) _ _ tt
            (for_decoder id) rest' (make_and_add-Has _ _ _)
            λ decoder.
              bind-Extends g L p id _ _ (link_many-Extends g L p id _)
                λ x. sync_all-Extends g L p id _,
  )
  attach_video-Has id false s w h = (
    later-Has _ (find g p output_tee_video) _ w tt h λ tee e rest.
        first-Has id _ (make_and_add g p "queue" (video_queue_name id)) _ _ tt (for_video id) rest
          (make_and_add-Has _ _ _)
          λ queue.
            bind-Extends g L p id _ _ (link_many-Extends g L p id _)
              λ x. sync_all-Extends g L p id _,
    λ e. cc,
  )

  attach_audio-Has :
      (id : String) (s : H) (w : E)
      → (attach_audio g p id s w).0 ≡ ok tt
      → Has (audio_queue_name id) (attach_audio g p id s w).1
  unfolding attach_audio
  attach_audio-Has id s w h = later-Has _ (find g p output_tee_audio) _ w tt h λ tee e rest.
      first-Has id _ (make_and_add g p "queue" (audio_queue_name id)) _ _ tt (for_audio id) rest
        (make_and_add-Has _ _ _)
        λ queue.
          bind-Extends g L p id _ _ (link_many-Extends g L p id _) λ x. sync_all-Extends g L p id _

  find-ok :
      (n : String) (w : E) (e : H)
      → (find g p n w).0 ≡ ok e
      → (g.by_name p n w ≡ some e) × ((find g p n w).1 ≡ w)
  unfolding find
  find-ok n w e h = (ground arith, ground arith)

  if_media-Has :
      (media n : String) (source : H) (m : Call E String (Unit {0})) (w : E)
      → any_pad media (g.pads source w) ≡ true
      → ((m w).0 ≡ ok tt → Has n (m w).1)
      → (if_media g p media source m w).0 ≡ ok tt
      → Has n (if_media g p media source m w).1
  unfolding if_media
  if_media-Has media n source m w has inner h =
      let same : if_media g p media source m w ≡ m w = ground (arith, has) in
      subst (λ r. Has n r.1) (sym same) (inner (ap (λ r. r.0) (sym same) ∙ h))

  -- `attach` from the making of the whipsink, and from the pointing of it, on.
  abbrev pointing : ℕ → Bool → String → H → H → Call E String (Unit {0})
  pointing port decode id source s = do
    point_at g p s (whip_endpoint port id)
    if_media g p "video" source (attach_video g p decode id s)
    if_media g p "audio" source (attach_audio g p id s)
    g.sync_state_with_parent s
    g.sync_state_with_parent source

  abbrev making : ℕ → Bool → String → H → Call E String (Unit {0})
  making port decode id source = do
    s ← make_and_add g p "whipclientsink" (whip_sink_name id)
    pointing port decode id source s

  making-whipsink :
      (port : ℕ) (decode : Bool) (id : String) (source : H) (w : E)
      → (making port decode id source w).0 ≡ ok tt
      → Has (whip_sink_name id) (making port decode id source w).1
  making-whipsink port decode id source w h =
      first-Has id _ (make_and_add g p "whipclientsink" (whip_sink_name id))
        (pointing port decode id source) w tt (for_sink id) h (make_and_add-Has _ _ _)
        λ s. rest-Extends g L p id port decode source s

  -- The pads that the first two calls leave as they were.
  pointed_pads :
      (port : ℕ) (id : String) (source s : H) (w : E)
      → g.factory source ≡ "tsdemux"
      → let w₁ = (make_and_add g p "whipclientsink" (whip_sink_name id) w).1 in
        g.pads source (point_at g p s (whip_endpoint port id) w₁).1 ≡ g.pads source w
  pointed_pads port id source s w demuxer =
      ((point_at-Extends g L p id s (whip_endpoint port id)).from _).pads source demuxer
      ∙ ((make_and_add-Extends g L p id _ _ (whipsink-IsOwn g L p id)).from w).pads source demuxer

  making-video :
      (port : ℕ) (decode : Bool) (id n : String) (source : H) (w : E)
      → g.factory source ≡ "tsdemux"
      → IsGiven n
      → any_pad "video" (g.pads source w) ≡ true
      → ((s : H) (w' : E)
          → (attach_video g p decode id s w').0 ≡ ok tt
          → Has n (attach_video g p decode id s w').1)
      → (making port decode id source w).0 ≡ ok tt
      → Has n (making port decode id source w).1
  making-video port decode id n source w demuxer given has inner h =
      later-Has _ (make_and_add g p "whipclientsink" (whip_sink_name id))
        (pointing port decode id source) w tt h
        λ s e rest. later-Has _ (point_at g p s (whip_endpoint port id)) _ _ tt rest λ u e' rest'.
          first-Has id _ (if_media g p "video" source (attach_video g p decode id s)) _ _ tt given
            rest'
            (λ a.
              if_media-Has "video" n source _ _
                (ap (any_pad "video") (pointed_pads port id source s w demuxer) ∙ has) (inner s _))
            λ a.
              bind-Extends g L p id _ _
                (if_media-Extends g L p id "audio" source _ (attach_audio-Extends g L p id s))
                λ b.
                  bind-Extends g L p id _ _ (sync-Extends g L p id s)
                    λ c. sync-Extends g L p id source

  making-audio :
      (port : ℕ) (decode : Bool) (id : String) (source : H) (w : E)
      → g.factory source ≡ "tsdemux"
      → any_pad "audio" (g.pads source w) ≡ true
      → (making port decode id source w).0 ≡ ok tt
      → Has (audio_queue_name id) (making port decode id source w).1
  making-audio port decode id source w demuxer has h =
      later-Has _ (make_and_add g p "whipclientsink" (whip_sink_name id))
        (pointing port decode id source) w tt h
        λ s e rest. later-Has _ (point_at g p s (whip_endpoint port id)) _ _ tt rest λ u e' rest'.
          later-Has _ (if_media g p "video" source (attach_video g p decode id s)) _ _ tt rest'
            λ v e'' rest''.
              first-Has id _ (if_media g p "audio" source (attach_audio g p id s)) _ _ tt
                (for_audio id) rest''
                (λ a.
                  if_media-Has "audio" _ source _ _
                    (ap (any_pad "audio") (
                        ((if_media-Extends g L p id "video" source _
                              (attach_video-Extends g L p id decode s)).from
                            _).pads
                          source demuxer
                        ∙ pointed_pads port id source s w demuxer)
                      ∙ has)
                    (attach_audio-Has id s _))
                λ a.
                  bind-Extends g L p id _ _ (sync-Extends g L p id s)
                    λ c. sync-Extends g L p id source

  -- When attaching to a pipeline whose demuxer is a tsdemux succeeds, the whipsink is in the pipeline, and for each media that the demuxer has a
  -- pad of so is its queue, with the decoder if the video is to be decoded.
  pub attach_lem :
      (port : ℕ) (decode : Bool) (id : String) (source : H) (w : E)
      → g.by_name p demux w ≡ some source
      → g.factory source ≡ "tsdemux"
      → (attach g p port decode id w).0 ≡ ok tt
      → let w' = (attach g p port decode id w).1 in
        Has (whip_sink_name id) w'
        × (any_pad "video" (g.pads source w) ≡ true
            → Has (video_queue_name id) w' × (decode ≡ true → Has (video_decoder_name id) w'))
        × (any_pad "audio" (g.pads source w) ≡ true → Has (audio_queue_name id) w')
  unfolding attach find
  attach_lem port decode id source w at_demux demuxer h =
      let same : attach g p port decode id w ≡ making port decode id source w =
        ground (arith, at_demux) in
      let done : (making port decode id source w).0 ≡ ok tt = ap (λ r. r.0) (sym same) ∙ h in
      rw same (
        making-whipsink port decode id source w done,
        λ has. (
          making-video port decode id _ source w demuxer (for_video id) has
              (λ s w' e. (attach_video-Has id decode s w' e).0) done,
          λ on.
              making-video port decode id _ source w demuxer (for_decoder id) has
                (λ s w' e. (attach_video-Has id decode s w' e).1 on) done,
        ),
        λ has. making-audio port decode id source w demuxer has done,
      )
