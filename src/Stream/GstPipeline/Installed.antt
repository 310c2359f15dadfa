-- ===== src/Stream/GstPipeline/Installed.antt =====
-- What a successful set-up of src/stream/gst_pipeline.rs puts into the pipeline.
use mathlib.Core.Path.{subst}
use srt_whep.Prelude.{String, ◌≡◌, sym, ◌∙◌, none, some, List, [], ◌∷◌}
use srt_whep.Prelude.Results.{ok}
use srt_whep.Prelude.Calls.{Call, ◌>>=◌}
use srt_whep.Stream.Naming.{demux, video_queue, audio_queue, srt_source}
use srt_whep.Stream.Args.{Args}
use srt_whep.Stream.Naming.Given.{IsGiven, at_source, at_demux, at_video_queue, at_audio_queue}
use srt_whep.Stream.Gst.{Gst, IsLawful, In, first, later, playing}
use srt_whep.Stream.Branch.Attached.{Has, bind-ok}
use srt_whep.Stream.GstPipeline.Lifecycle.{
  create, discover_input, create_custom_queue, connect, build, equip,
}

module _ {E H : Type 0} (g : Gst E H) (L : IsLawful g) where
  -- What a chain that succeeds leaves is what the rest leaves after its first call.
  bind-leaves :
      {A B : Type 0} (P : B → E → Type 0) (m : Call E String A) (f : A → Call E String B) (w : E)
      (b : B)
      → ((m >>= f) w).0 ≡ ok b
      → ((a : A) → (m w).0 ≡ ok a → (f a (m w).1).0 ≡ ok b → P b (f a (m w).1).1)
      → P b ((m >>= f) w).1
  bind-leaves P m f w b h after =
      let (a, e, rest, same) = bind-ok m f w b h in subst (λ r. P b r.1) (sym same) (after a e rest)

  -- The elements that the callbacks, the readiness and the bus look for.
  pub record Installed (p : H) (w : E) : Type 0 where
    pub source : Has g L p srt_source w
    pub demuxer : Has g L p demux w
    pub video : Has g L p video_queue w
    pub audio : Has g L p audio_queue w

  module _ (p src input_tee whep_queue srt_queue typefind tsdemux video audio srtsink : H) where
    abbrev elements : List H
    elements =
        src ∷ input_tee ∷ whep_queue ∷ srt_queue ∷ typefind ∷ tsdemux ∷ video ∷ audio ∷ srtsink ∷ []

    abbrev connected : Call E String H
    connected = connect g p src input_tee whep_queue srt_queue typefind tsdemux video audio srtsink

    connect-Has :
        (q : H) (w : E) (e : H) (n : String)
        → IsGiven n
        → (connected w).0 ≡ ok q
        → In e elements
        → g.name e ≡ n
        → Has g L q n (connected w).1
    unfolding connect
    connect-Has q w e n given h m name =
        bind-leaves P (g.add_many p elements) _ w q h λ u added rest.
          bind-leaves P (g.link_many l₁) _ _ q rest λ a e₁ rest.
            bind-leaves P (g.link_many l₂) _ _ q rest λ b e₂ rest.
              bind-leaves P (g.link_many l₃) _ _ q rest λ c e₃ rest.
                bind-leaves P (g.set_state p playing) _ _ q rest λ d e₄ rest.
                  let here =
                    subst (λ k. Has g L p k (g.add_many p elements w).1) name
                      (L.add_many_adds elements p e w added m) in
                  let w₁ = (g.add_many p elements w).1 in
                  let w₂ = (g.link_many l₁ w₁).1 in
                  let w₃ = (g.link_many l₂ w₂).1 in
                  let same =
                    L.by_name-set_state p playing p n given (g.link_many l₃ w₃).1
                    ∙ L.by_name-link_many l₃ p n given w₃
                    ∙ L.by_name-link_many l₂ p n given w₂
                    ∙ L.by_name-link_many l₁ p n given w₁ in
                  λ absent. here (cc (same, absent, rest))
      where
        P : H → E → Type 0
        P z v = Has g L z n v

        l₁ : List H
        l₁ = src ∷ input_tee ∷ []

        l₂ : List H
        l₂ = input_tee ∷ whep_queue ∷ typefind ∷ tsdemux ∷ []

        l₃ : List H
        l₃ = input_tee ∷ srt_queue ∷ srtsink ∷ []

  pub build-Installed :
      (args : Args) (w : E) (p : H) → (build g args w).0 ≡ ok p → Installed p (build g args w).1
  unfolding build equip create_custom_queue
  build-Installed args w p h = bind-leaves Installed (create g) _ w p h λ pipeline e rest.
      bind-leaves Installed (discover_input g args) _ _ p rest λ u e rest.
        bind-leaves Installed (g.make "srtsrc" (some srt_source) _) _ _ p rest λ src is_src rest.
          bind-leaves Installed (g.make "tee" (some "input_tee") []) _ _ p rest λ tee e rest.
            bind-leaves Installed (create_custom_queue g "whep-queue" "0" "0" "no") _ _ p rest
              λ whep e rest.
                bind-leaves Installed (g.make "typefind" (some "typefind") []) _ _ p rest
                  λ find e rest.
                    bind-leaves Installed (g.make "tsdemux" (some demux) _) _ _ p rest
                      λ dem is_dem rest.
                        bind-leaves Installed (create_custom_queue g video_queue "0" "0" "no") _ _ p
                          rest
                          λ vq is_vq rest.
                            bind-leaves Installed (create_custom_queue g audio_queue "0" "0" "no") _
                              _ p rest
                              λ aq is_aq rest.
                                bind-leaves Installed
                                  (create_custom_queue g "srt-queue" "0" "0" "downstream") _ _ p
                                  rest
                                  λ sq e rest.
                                    bind-leaves Installed (g.make "srtsink" none _) _ _ p rest
                                      λ sink e rest.
                                        let has =
                                          connect-Has pipeline src tee whep sq find dem vq aq sink p
                                            _ in
                                        record {
                                          source =
                                              has src _ at_source rest first
                                                (L.make_names _ _ _ _ src is_src).0;
                                          demuxer =
                                              has dem _ at_demux rest
                                                (later (later (later (later (later first)))))
                                                (L.make_names _ _ _ _ dem is_dem).0;
                                          video =
                                              has vq _ at_video_queue rest
                                                (later
                                                  (later (later (later (later (later first))))))
                                                (L.make_names _ _ _ _ vq is_vq).0;
                                          audio =
                                              has aq _ at_audio_queue rest
                                                (later (
                                                  later
                                                    (later (later (later (later (later first)))))))
                                                (L.make_names _ _ _ _ aq is_aq).0;
                                        }
