-- ===== src/Stream/Branch/Attach.antt =====
-- What `Branch::attach` of src/stream/branch.rs may do to the pipeline, however far it gets.
use mathlib.Core.Path.{subst}
use srt_whep.Prelude.{
  ℕ, String, ◌≡◌, refl, sym, ap, ◌∙◌, ◌≢◌, inl, inr, Bool, true, false, none, some, arith, if_intro,
  eq_refl, List, [], ◌∷◌,
}
use Prim.Native.String.{◌++◌}
use srt_whep.Prelude.Text.{strip_prefix, differ, strip_prefix-differ, strip_prefix-append}
use srt_whep.Prelude.Results.{Result, ok, err}
use srt_whep.Prelude.Calls.{Call, ◌>>=◌, ◌>>◌, proceed, return}
use srt_whep.Stream.Naming.{whip_sink_name, video_queue_name, audio_queue_name, video_decoder_name}
use srt_whep.Stream.Naming.Given.{IsGiven, for_video, for_audio}
use srt_whep.Stream.Gst.{Gst, IsLawful, In, first, later}
use srt_whep.Stream.Branch.{
  find, make_and_add, sync_all, point_at, attach_video, attach_audio, if_media, attach, any_pad,
  whip_endpoint,
}
use srt_whep.Stream.Branch.Detach.{HoldsQueue, is_of_branch, some-injective}

stems_differ :
    (stem other rest : String) → differ stem other ≡ true → (stem ++ rest) ≢ (other ++ rest)
stems_differ stem other rest h e = cc (
  ap (λ s. strip_prefix s other) e,
  strip_prefix-differ stem rest other h,
  strip_prefix-append other rest,
)

-- The names of one branch differ.
names_differ :
    (id : String)
    → (whip_sink_name id ≢ video_queue_name id)
      × (whip_sink_name id ≢ audio_queue_name id)
      × (video_decoder_name id ≢ video_queue_name id)
      × (video_decoder_name id ≢ audio_queue_name id)
unfolding whip_sink_name video_queue_name audio_queue_name video_decoder_name
names_differ id = (
  stems_differ "whip-sink" "video-queue" ("-" ++ id) refl,
  stems_differ "whip-sink" "audio-queue" ("-" ++ id) refl,
  stems_differ "avdec-h264" "video-queue" ("-" ++ id) refl,
  stems_differ "avdec-h264" "audio-queue" ("-" ++ id) refl,
)

In_single : {H : Type 0} {x e : H} → In e (x ∷ []) → e ≡ x
In_single first = refl
In_single (later m) = elim m [ ]

module _ {E H : Type 0} (g : Gst E H) (L : IsLawful g) (p : H) (id : String) where
  -- From one state of the pipeline to a later one, of the names that the program gives only this branch's
  -- have been added, under the names of its queues only queues, and demuxers have the pads they had.
  pub record Grown (w w' : E) : Type 0 where
    pub others :
        (k : String) → IsGiven k → is_of_branch id k ≡ false → g.by_name p k w' ≡ g.by_name p k w
    pub kept : (k : String) → IsGiven k → g.by_name p k w ≢ none → g.by_name p k w' ≢ none
    pub video : HoldsQueue g L p (video_queue_name id) w → HoldsQueue g L p (video_queue_name id) w'
    pub audio : HoldsQueue g L p (audio_queue_name id) w → HoldsQueue g L p (audio_queue_name id) w'
    pub pads : (e : H) → g.factory e ≡ "tsdemux" → g.pads e w' ≡ g.pads e w

  pub record Extends {A : Type 0} (m : Call E String A) : Type 0 where
    pub from : (w : E) → Grown w (m w).1

  Grown-trans : {u v w : E} → Grown u v → Grown v w → Grown u w
  Grown-trans a b = record {
    others = λ k given out. b.others k given out ∙ a.others k given out;
    kept = λ k given h. b.kept k given (a.kept k given h);
    video = λ h. b.video (a.video h);
    audio = λ h. b.audio (a.audio h);
    pads = λ e d. b.pads e d ∙ a.pads e d;
  }

  same-Grown :
      {w w' : E}
      → ((k : String) → IsGiven k → g.by_name p k w' ≡ g.by_name p k w)
      → ((e : H) → g.factory e ≡ "tsdemux" → g.pads e w' ≡ g.pads e w)
      → Grown w w'
  same-Grown same pads = record {
    pads = pads;
    others = λ k given out. same k given;
    kept = λ k given h e. h (sym (same k given) ∙ e);
    video = λ h e found. h e (sym (same (video_queue_name id) (for_video id)) ∙ found);
    audio = λ h e found. h e (sym (same (audio_queue_name id) (for_audio id)) ∙ found);
  }

  proceed-Grown :
      {A B : Type 0} (r : Result A String) (f : A → Call E String B) (w : E)
      → ((a : A) → r ≡ ok a → Extends (f a))
      → Grown w (proceed r f w).1
  proceed-Grown (ok a) f w h = (h a refl).from w
  proceed-Grown (err e) f w h = same-Grown (λ k given. refl) (λ e d. refl)

  -- What follows a call may use what the call answered.
  bind-Extends_of :
      {A B : Type 0} (m : Call E String A) (f : A → Call E String B)
      → Extends m
      → ((w : E) (a : A) → (m w).0 ≡ ok a → Extends (f a))
      → Extends (m >>= f)
  bind-Extends_of m f a b = record {
    from = λ w. Grown-trans (a.from w) (proceed-Grown (m w).0 f (m w).1 (b w));
  }

  pub bind-Extends :
      {A B : Type 0} (m : Call E String A) (f : A → Call E String B)
      → Extends m
      → ((a : A) → Extends (f a))
      → Extends (m >>= f)
  bind-Extends m f a b = bind-Extends_of m f a (λ w x e. b x)

  return-Extends : {A : Type 0} (a : A) → Extends (return a)
  return-Extends a = record { from = λ w. same-Grown (λ k given. refl) (λ e d. refl) }

  -- A new element of the branch, a queue if it has the name of one.
  pub IsOwn : String → String → Type 0
  IsOwn factory name =
      (is_of_branch id name ≡ true)
      × (name ≡ video_queue_name id → factory ≡ "queue")
      × (name ≡ audio_queue_name id → factory ≡ "queue")

  added-HoldsQueue :
      (e : H) (w : E) (n : String)
      → IsGiven n
      → (g.name e ≡ n → g.factory e ≡ "queue")
      → HoldsQueue g L p n w
      → HoldsQueue g L p n (g.add_many p (e ∷ []) w).1
  added-HoldsQueue e w n given own h x found = elim (L.by_name-add_many (e ∷ []) p n given w) [
    | inl same ↦ h x (sym same ∙ found)
    | inr (y, m, name, found', free) ↦
        let y_x : y ≡ x = some-injective y x (sym found' ∙ found) in
        let e_x : e ≡ x = sym (In_single m) ∙ y_x in
        subst (λ z. g.factory z ≡ "queue") e_x (own (ap g.name (sym (In_single m)) ∙ name))
  ]

  added-Grown :
      (e : H) (w : E) → IsOwn (g.factory e) (g.name e) → Grown w (g.add_many p (e ∷ []) w).1
  unfolding IsOwn
  added-Grown e w (own, vq, aq) = record {
    others = λ k given out. elim (L.by_name-add_many (e ∷ []) p k given w) [
      | inl same ↦ same
      | inr (x, m, name, found, free) ↦
          let here : is_of_branch id k ≡ true =
            subst (λ n. is_of_branch id n ≡ true) (ap g.name (sym (In_single m)) ∙ name) own in
          cc (here, out)
    ];
    kept = λ k given h. elim (L.by_name-add_many (e ∷ []) p k given w) [
      | inl same ↦ λ x. h (sym same ∙ x)
      | inr (x, m, name, found, free) ↦ λ y. cc (found, y)
    ];
    video = added-HoldsQueue e w (video_queue_name id) (for_video id) vq;
    audio = added-HoldsQueue e w (audio_queue_name id) (for_audio id) aq;
    pads = λ x d. L.pads-add_many p (e ∷ []) x w d;
  }

  quiet-Extends :
      {A : Type 0} (m : Call E String A)
      → ((k : String) → IsGiven k → (w : E) → g.by_name p k (m w).1 ≡ g.by_name p k w)
      → ((e : H) (w : E) → g.factory e ≡ "tsdemux" → g.pads e (m w).1 ≡ g.pads e w)
      → Extends m
  quiet-Extends m same pads = record {
    from = λ w. same-Grown (λ k given. same k given w) (λ e d. pads e w d);
  }

  pub make_and_add-Extends :
      (factory name : String) → IsOwn factory name → Extends (make_and_add g p factory name)
  unfolding make_and_add IsOwn
  make_and_add-Extends factory name (own, vq, aq) =
      bind-Extends_of (g.make factory (some name) []) _
        (quiet-Extends _ (L.by_name-make factory (some name) [] p)
          (L.pads-make factory (some name) []))
        (λ w e made.
          let (n, f) = L.make_names factory name [] w e made in
          bind-Extends (g.add_many p (e ∷ [])) _
            (record {
              from = λ w'. added-Grown e w' (
                subst (λ x. is_of_branch id x ≡ true) (sym n) own,
                λ h. f ∙ vq (sym n ∙ h),
                λ h. f ∙ aq (sym n ∙ h),
              );
            })
            (λ x. return-Extends e))

  pub find-Extends : (name : String) → Extends (find g p name)
  unfolding find
  find-Extends name = quiet-Extends _ (λ k given w. ground arith) (λ e w d. ground arith)

  pub link_many-Extends : (l : List H) → Extends (g.link_many l)
  link_many-Extends l = quiet-Extends _ (L.by_name-link_many l p) (L.pads-link_many l)

  pub sync-Extends : (e : H) → Extends (g.sync_state_with_parent e)
  sync-Extends e = quiet-Extends _ (L.by_name-sync e p) (L.pads-sync e)

  pub sync_all-Extends : (l : List H) → Extends (sync_all g p l)
  unfolding sync_all
  sync_all-Extends [] = return-Extends tt
  sync_all-Extends (e ∷ l) = bind-Extends _ _ (sync-Extends e) (λ x. sync_all-Extends l)

  pub point_at-Extends : (e : H) (url : String) → Extends (point_at g p e url)
  unfolding point_at
  point_at-Extends e url =
      quiet-Extends _ (λ k given w. ground (arith, L.by_name-set_whip_endpoint e url p k given w))
        (λ x w d. ground (arith, L.pads-set_whip_endpoint e url x w d))

  pub video-IsOwn : IsOwn "queue" (video_queue_name id)
  unfolding IsOwn
  video-IsOwn = (ground (arith, eq_refl (video_queue_name id)), λ e. refl, λ e. refl)

  pub audio-IsOwn : IsOwn "queue" (audio_queue_name id)
  unfolding IsOwn
  audio-IsOwn = (ground (arith, eq_refl (audio_queue_name id)), λ e. refl, λ e. refl)

  pub decoder-IsOwn : IsOwn "avdec_h264" (video_decoder_name id)
  unfolding IsOwn
  decoder-IsOwn = (
    ground (arith, eq_refl (video_decoder_name id)),
    λ e. absurd ((names_differ id).2 e),
    λ e. absurd ((names_differ id).3 e),
  )

  pub whipsink-IsOwn : IsOwn "whipclientsink" (whip_sink_name id)
  unfolding IsOwn
  whipsink-IsOwn = (
    ground (arith, eq_refl (whip_sink_name id)),
    λ e. absurd ((names_differ id).0 e),
    λ e. absurd ((names_differ id).1 e),
  )

  pub attach_video-Extends : (b : Bool) (s : H) → Extends (attach_video g p b id s)
  unfolding attach_video
  attach_video-Extends true s = bind-Extends _ _ (find-Extends _) λ tee.
      bind-Extends _ _ (make_and_add-Extends _ _ video-IsOwn) λ queue.
        bind-Extends _ _ (make_and_add-Extends _ _ decoder-IsOwn)
          λ decoder. bind-Extends _ _ (link_many-Extends _) λ x. sync_all-Extends _
  attach_video-Extends false s = bind-Extends _ _ (find-Extends _) λ tee.
      bind-Extends _ _ (make_and_add-Extends _ _ video-IsOwn)
        λ queue. bind-Extends _ _ (link_many-Extends _) λ x. sync_all-Extends _

  pub attach_audio-Extends : (s : H) → Extends (attach_audio g p id s)
  unfolding attach_audio
  attach_audio-Extends s = bind-Extends _ _ (find-Extends _) λ tee.
      bind-Extends _ _ (make_and_add-Extends _ _ audio-IsOwn)
        λ queue. bind-Extends _ _ (link_many-Extends _) λ x. sync_all-Extends _

  pub if_media-Extends :
      (media : String) (e : H) (m : Call E String (Unit {0}))
      → Extends m
      → Extends (if_media g p media e m)
  unfolding if_media
  if_media-Extends media e m h = record {
    from = λ w.
        if_intro {A = Result (Unit {0}) String × E} (λ o. Grown w o.1) (any_pad media (g.pads e w))
          (h.from w) (same-Grown (λ k given. refl) (λ e d. refl));
  }

  -- What of `attach` follows the making of the whipsink.
  pub rest-Extends :
      (port : ℕ) (decode : Bool) (source s : H)
      → Extends (do
        point_at g p s (whip_endpoint port id)
        if_media g p "video" source (attach_video g p decode id s)
        if_media g p "audio" source (attach_audio g p id s)
        g.sync_state_with_parent s
        g.sync_state_with_parent source)
  rest-Extends port decode source s = bind-Extends _ _ (point_at-Extends s _) λ a.
      bind-Extends _ _ (if_media-Extends "video" source _ (attach_video-Extends decode s)) λ b.
        bind-Extends _ _ (if_media-Extends "audio" source _ (attach_audio-Extends s))
          λ c. bind-Extends _ _ (sync-Extends s) λ d. sync-Extends source

  pub attach-Extends : (port : ℕ) (decode : Bool) → Extends (attach g p port decode id)
  unfolding attach
  attach-Extends port decode = bind-Extends _ _ (find-Extends _) λ source.
      bind-Extends _ _ (make_and_add-Extends _ _ whipsink-IsOwn)
        λ s. rest-Extends port decode source s
