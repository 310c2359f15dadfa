-- ===== src/Stream/Egress/Chains.antt =====
-- What `build_egress_chain` of src/stream/egress.rs leaves in the pipeline, on every branch.
use mathlib.Core.Path.{subst}
use srt_whep.Prelude.{
  String, ◌≡◌, refl, sym, ◌∙◌, ◌⊎◌, inl, inr, true, false, Option, none, some, arith, Bool-cases,
  Option-cases, List, [], ◌∷◌,
}
use Prim.Native.String.{◌++◌}
use srt_whep.Prelude.Text.{starts_with}
use srt_whep.Prelude.Results.{Result, ok, err}
use srt_whep.Prelude.Calls.{Call, ◌>>=◌, proceed, return, fail}
use srt_whep.Stream.Naming.{output_tee_video, output_tee_audio}
use srt_whep.Stream.Naming.Given.{IsGiven, at_tee_video, at_tee_audio}
use srt_whep.Stream.Gst.{Gst, Value, IsLawful, In, first, later}
use srt_whep.Stream.Branch.{sync_all}
use srt_whep.Stream.Branch.Attached.{Has, bind-ok, later-Has}
use srt_whep.Stream.Egress.{video_parser, start_chain, video_chain, audio_chain, build_egress_chain}

-- The two video types that are supported.
abbrev pub IsVideo : String → Type 0
IsVideo m = (starts_with m "video/x-h264" ≡ true) ⊎ (starts_with m "video/x-h265" ≡ true)

has_parser : (m parser : String) → video_parser m ≡ some parser → IsVideo m
unfolding video_parser
has_parser m parser h = elim (Bool-cases (starts_with m "video/x-h264")) [
  | inl holds ↦ inl holds
  | inr fails ↦ inr (ground (arith, fails))
]

has_no_parser : (m : String) → video_parser m ≡ none → ¬ IsVideo m
unfolding video_parser
has_no_parser m h (inl holds) = ground (arith, holds)
has_no_parser m h (inr holds) = ground (arith, holds)

module _ {E H : Type 0} (g : Gst E H) (L : IsLawful g) (p : H) where
  -- Each element with a name that the program gives is found as before, a demuxer has the pads it had, and
  -- the media types of pads are as they were.
  pub record Kept (w w' : E) : Type 0 where
    pub names :
        (k : String) → IsGiven k → (e : H) → g.by_name p k w ≡ some e → g.by_name p k w' ≡ some e
    pub pads : (e : H) → g.factory e ≡ "tsdemux" → g.pads e w' ≡ g.pads e w
    pub media : (q : H) → g.media_type q w' ≡ g.media_type q w

  pub Kept-refl : (w : E) → Kept w w
  Kept-refl w = record { names = λ k given e h. h; pads = λ e d. refl; media = λ q. refl }

  pub Kept-Has : {w w' : E} → Kept w w' → (k : String) → IsGiven k → Has g L p k w → Has g L p k w'
  Kept-Has {w} kept k given h e = elim (Option-cases (g.by_name p k w)) [
    | inl absent ↦ h absent
    | inr (x, found) ↦ cc (kept.names k given x found, e)
  ]

  pub Kept-trans : {u v w : E} → Kept u v → Kept v w → Kept u w
  Kept-trans a b = record {
    names = λ k given e h. b.names k given e (a.names k given e h);
    pads = λ e d. b.pads e d ∙ a.pads e d;
    media = λ q. b.media q ∙ a.media q;
  }

  pub record Keeps {A : Type 0} (m : Call E String A) : Type 0 where
    pub from : (w : E) → Kept w (m w).1

  proceed-Kept :
      {A B : Type 0} (r : Result A String) (f : A → Call E String B) (w : E)
      → ((a : A) → Keeps (f a))
      → Kept w (proceed r f w).1
  proceed-Kept (ok a) f w h = (h a).from w
  proceed-Kept (err e) f w h = Kept-refl w

  pub bind-Keeps :
      {A B : Type 0} (m : Call E String A) (f : A → Call E String B)
      → Keeps m
      → ((a : A) → Keeps (f a))
      → Keeps (m >>= f)
  bind-Keeps m f a b = record {
    from = λ w. Kept-trans (a.from w) (proceed-Kept (m w).0 f (m w).1 b);
  }

  return-Keeps : {A : Type 0} (a : A) → Keeps {A = A} (return a)
  return-Keeps a = record { from = λ w. Kept-refl w }

  fail-Keeps : {A : Type 0} (e : String) → Keeps {A = A} (fail e)
  fail-Keeps e = record { from = λ w. Kept-refl w }

  pub make-Keeps :
      (f : String) (o : Option String) (ps : List (String × Value)) → Keeps (g.make f o ps)
  make-Keeps f o ps = record {
    from = λ w. record {
      names = λ k given e h. L.by_name-make f o ps p k given w ∙ h;
      pads = λ e d. L.pads-make f o ps e w d;
      media = λ q. L.media_type-make f o ps q w;
    };
  }

  pub add_many-Keeps : (l : List H) → Keeps (g.add_many p l)
  add_many-Keeps l = record {
    from = λ w. record {
      names = λ k given e h. elim (L.by_name-add_many l p k given w) [
        | inl same ↦ same ∙ h
        | inr (x, m, name, found, free) ↦ cc (free, h)
      ];
      pads = λ e d. L.pads-add_many p l e w d;
      media = λ q. L.media_type-add_many p l q w;
    };
  }

  pub link_many-Keeps : (l : List H) → Keeps (g.link_many l)
  link_many-Keeps l = record {
    from = λ w. record {
      names = λ k given e h. L.by_name-link_many l p k given w ∙ h;
      pads = λ e d. L.pads-link_many l e w d;
      media = λ q. L.media_type-link_many l q w;
    };
  }

  sync-Keeps : (x : H) → Keeps (g.sync_state_with_parent x)
  sync-Keeps x = record {
    from = λ w. record {
      names = λ k given e h. L.by_name-sync x p k given w ∙ h;
      pads = λ e d. L.pads-sync x e w d;
      media = λ q. L.media_type-sync x q w;
    };
  }

  sync_all-Keeps : (l : List H) → Keeps (sync_all g p l)
  unfolding sync_all
  sync_all-Keeps [] = return-Keeps tt
  sync_all-Keeps (e ∷ l) = bind-Keeps _ _ (sync-Keeps e) (λ x. sync_all-Keeps l)

  start_chain-Keeps : (q : H) (l : List H) → Keeps (start_chain g p q l)
  unfolding start_chain
  start_chain-Keeps q l =
      bind-Keeps _ _ (add_many-Keeps l)
        λ x. bind-Keeps _ _ (link_many-Keeps (q ∷ l)) λ y. sync_all-Keeps (q ∷ l)

  -- What a chain that has been started holds, it has added.
  start_chain-Has :
      (q : H) (l : List H) (w : E) (e : H) (n : String)
      → IsGiven n
      → (start_chain g p q l w).0 ≡ ok tt
      → In e l
      → g.name e ≡ n
      → Has g L p n (start_chain g p q l w).1
  unfolding start_chain
  start_chain-Has q l w e n given h m name =
      let (u, added, rest, same) = bind-ok (g.add_many p l) _ w tt h in
      let later = bind-Keeps _ _ (link_many-Keeps (q ∷ l)) λ y. sync_all-Keeps (q ∷ l) in
      let here =
        subst (λ k. Has g L p k (g.add_many p l w).1) name (L.add_many_adds l p e w added m) in
      subst (λ r. Has g L p n r.1) (sym same)
        (Kept-Has (later.from (g.add_many p l w).1) n given here)

  video_chain-Keeps : (parser : String) (q : H) → Keeps (video_chain g p parser q)
  unfolding video_chain
  video_chain-Keeps parser q = bind-Keeps _ _ (make-Keeps _ _ _) λ a.
      bind-Keeps _ _ (make-Keeps _ _ _)
        λ b. bind-Keeps _ _ (make-Keeps _ _ _) λ c. start_chain-Keeps q _

  audio_chain-Keeps : (q : H) → Keeps (audio_chain g p q)
  unfolding audio_chain
  audio_chain-Keeps q = bind-Keeps _ _ (make-Keeps _ _ _) λ a.
      bind-Keeps _ _ (make-Keeps _ _ _) λ b. bind-Keeps _ _ (make-Keeps _ _ _) λ c.
        bind-Keeps _ _ (make-Keeps _ _ _) λ d. bind-Keeps _ _ (make-Keeps _ _ _) λ e.
          bind-Keeps _ _ (make-Keeps _ _ _)
            λ f. bind-Keeps _ _ (make-Keeps _ _ _) λ s. start_chain-Keeps q _

  video_chain-Has :
      (parser : String) (q : H) (w : E)
      → (video_chain g p parser q w).0 ≡ ok tt
      → Has g L p output_tee_video (video_chain g p parser q w).1
  unfolding video_chain
  video_chain-Has parser q w h = later-Has g L p _ (g.make parser none []) _ w tt h λ parse e rest.
      later-Has g L p _ (g.make "tee" (some output_tee_video) []) _ _ tt rest λ tee made rest'.
        later-Has g L p _ (g.make "fakesink" none _) _ _ tt rest' λ fakesink e' last.
          start_chain-Has q _ _ tee _ at_tee_video last (later first)
            (L.make_names "tee" output_tee_video [] _ tee made).0

  audio_chain-Has :
      (q : H) (w : E)
      → (audio_chain g p q w).0 ≡ ok tt
      → Has g L p output_tee_audio (audio_chain g p q w).1
  unfolding audio_chain
  audio_chain-Has q w h = later-Has g L p _ (g.make "aacparse" none []) _ w tt h λ a e r.
      later-Has g L p _ (g.make "avdec_aac" none []) _ _ tt r λ b e r.
        later-Has g L p _ (g.make "audioconvert" none []) _ _ tt r λ c e r.
          later-Has g L p _ (g.make "audioresample" none []) _ _ tt r λ d e r.
            later-Has g L p _ (g.make "opusenc" none []) _ _ tt r λ o e r.
              later-Has g L p _ (g.make "tee" (some output_tee_audio) []) _ _ tt r λ tee made r.
                later-Has g L p _ (g.make "fakesink" none _) _ _ tt r λ fakesink e last.
                  start_chain-Has q _ _ tee _ at_tee_audio last
                    (later (later (later (later (later first)))))
                    (L.make_names "tee" output_tee_audio [] _ tee made).0

  -- How building a chain ends: the media type is not supported and nothing has changed, a call
  -- failed, or the chain's tee is there.
  pub data Outcome (media_type : String) (w : E) : Result (Unit {0}) String × E → Type 0 where
    unsupported :
        (¬ IsVideo media_type)
        → starts_with media_type "audio" ≡ false
        → Outcome media_type w (err ("Unknown media type " ++ media_type), w)
    failed :
        (e : String) (w' : E)
        → IsVideo media_type ⊎ (starts_with media_type "audio" ≡ true)
        → Kept w w'
        → Outcome media_type w (err e, w')
    video :
        (w' : E)
        → IsVideo media_type
        → Kept w w'
        → Has g L p output_tee_video w'
        → Outcome media_type w (ok tt, w')
    audio :
        (w' : E)
        → (¬ IsVideo media_type)
        → starts_with media_type "audio" ≡ true
        → Kept w w'
        → Has g L p output_tee_audio w'
        → Outcome media_type w (ok tt, w')

  pub Outcome-Kept :
      {media_type : String} {w : E} {o : Result (Unit {0}) String × E}
      → Outcome media_type w o
      → Kept w o.1
  Outcome-Kept (unsupported v a) = Kept-refl _
  Outcome-Kept (failed e w' known kept) = kept
  Outcome-Kept (video w' v kept h) = kept
  Outcome-Kept (audio w' v a kept h) = kept

  chained-Outcome :
      (media_type : String) (w : E) (call : Call E String (Unit {0}))
      → Keeps call
      → IsVideo media_type ⊎ (starts_with media_type "audio" ≡ true)
      → ((w' : E)
          → Kept w w'
          → (call w).0 ≡ ok tt
          → w' ≡ (call w).1
          → Outcome media_type w (ok tt, w'))
      → Outcome media_type w (call w)
  chained-Outcome media_type w call keeps known fine =
      ends (call w).0 (call w).1 (keeps.from w) λ h. fine (call w).1 (keeps.from w) h refl
    where
      ends :
          (r : Result (Unit {0}) String) (w' : E)
          → Kept w w'
          → (r ≡ ok tt → Outcome media_type w (ok tt, w'))
          → Outcome media_type w (r, w')
      ends (ok tt) w' kept h = h refl
      ends (err e) w' kept h = failed e w' known kept

  pub build_egress_chain-Outcome :
      (media_type : String) (video_queue audio_queue : H) (w : E)
      → Outcome media_type w (build_egress_chain g p media_type video_queue audio_queue w)
  unfolding build_egress_chain
  build_egress_chain-Outcome m v a w = elim (Option-cases (video_parser m)) [
    | inr (parser, found) ↦
        let same : build_egress_chain g p m v a w ≡ video_chain g p parser v w =
          ground (arith, found) in
        subst (Outcome m w) (sym same) (
          chained-Outcome m w (video_chain g p parser v) (video_chain-Keeps parser v)
            (inl (has_parser m parser found))
            λ w' kept fine here.
              video w' (has_parser m parser found) kept
                (subst (Has g L p output_tee_video) (sym here) (video_chain-Has parser v w fine)))
    | inl absent ↦ elim (Bool-cases (starts_with m "audio")) [
      | inl yes_audio ↦
          let same : build_egress_chain g p m v a w ≡ audio_chain g p a w =
            ground (arith, absent, yes_audio) in
          subst (Outcome m w) (sym same) (
            chained-Outcome m w (audio_chain g p a) (audio_chain-Keeps a) (inr yes_audio)
              λ w' kept fine here.
                audio w' (has_no_parser m absent) yes_audio kept
                  (subst (Has g L p output_tee_audio) (sym here) (audio_chain-Has a w fine)))
      | inr other ↦
          let same : build_egress_chain g p m v a w ≡ (err ("Unknown media type " ++ m), w) =
            ground (arith, absent, other) in
          subst (Outcome m w) (sym same) (unsupported (has_no_parser m absent) other)
    ]
  ]
