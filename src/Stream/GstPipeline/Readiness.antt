-- ===== src/Stream/GstPipeline/Readiness.antt =====
-- What `ready` of src/stream/gst_pipeline.rs says of the pipeline.
use srt_whep.Prelude.{
  String, ◌≡◌, refl, ◌⊎◌, inl, inr, ◌↔◌, Bool-cases, true, false, ◌||◌, Option, none, some, List,
  [], ◌∷◌, arith,
}
use srt_whep.Prelude.Results.{Result, ok, err}
use srt_whep.Prelude.Text.{starts_with, starts_with_iff}
use Prim.Native.String.{◌++◌}
use srt_whep.Stream.Errors.{PipelineError}
use srt_whep.Stream.Naming.{demux, output_tee_video, output_tee_audio}
use srt_whep.Stream.Branch.{any_pad}
use srt_whep.Stream.GstPipeline.{View, input_ready, ready}

-- The demuxer has a pad of that kind of media.
pub data Exposes (media : String) : List String → Type 0 where
  here : (rest : String) {pads : List String} → Exposes media ((media ++ rest) ∷ pads)
  later : {pad : String} {pads : List String} → Exposes media pads → Exposes media (pad ∷ pads)

any_pad-Exposes :
    (media : String) (pads : List String) → any_pad media pads ≡ true → Exposes media pads
unfolding any_pad
any_pad-Exposes media [] h = cc
any_pad-Exposes media (pad ∷ pads) h = elim (Bool-cases (starts_with pad media)) [
  | inl found ↦ let (rest, e) = (starts_with_iff pad media).0 found in rw e (here rest)
  | inr missing ↦ later (any_pad-Exposes media pads (rw missing at h))
]

Exposes-any_pad :
    (media : String) (pads : List String) → Exposes media pads → any_pad media pads ≡ true
unfolding any_pad
Exposes-any_pad media [] x = elim x [ ]
Exposes-any_pad media (pad ∷ pads) (here rest) =
    rw ((starts_with_iff (media ++ rest) media).1 (rest, refl)) refl
Exposes-any_pad media (pad ∷ pads) (later x) = ground (arith, Exposes-any_pad media pads x)

-- A branch can be linked: some media has been demuxed, and each media that has been has its output tee.
abbrev pub IsLinkable : View → Type 0
IsLinkable p =
    (p.has demux ≡ true)
    × (Exposes "video" p.demux_pads ⊎ Exposes "audio" p.demux_pads)
    × (Exposes "video" p.demux_pads → p.has output_tee_video ≡ true)
    × (Exposes "audio" p.demux_pads → p.has output_tee_audio ≡ true)

input_ready_tests :
    (p : View)
    → input_ready p ≡ ok true
    → (p.has demux ≡ true)
      × ((any_pad "video" p.demux_pads ≡ true) ⊎ (any_pad "audio" p.demux_pads ≡ true))
      × (any_pad "video" p.demux_pads ≡ true → p.has output_tee_video ≡ true)
      × (any_pad "audio" p.demux_pads ≡ true → p.has output_tee_audio ≡ true)
unfolding input_ready
input_ready_tests p h = (
  ground arith,
  elim (Bool-cases (any_pad "video" p.demux_pads)) [
    | inl found ↦ inl found
    | inr missing ↦ inr (ground arith)
  ],
  λ v. ground arith,
  λ a. ground arith,
)

IsLinkable-input_ready : (p : View) → IsLinkable p → input_ready p ≡ ok true
unfolding input_ready
IsLinkable-input_ready p (d, m, v, a) =
    let some_media : (any_pad "video" p.demux_pads || any_pad "audio" p.demux_pads) ≡ true =
      elim m [
        | inl x ↦ ground (arith, Exposes-any_pad "video" p.demux_pads x)
        | inr x ↦ ground (arith, Exposes-any_pad "audio" p.demux_pads x)
      ] in
    elim (Bool-cases (any_pad "video" p.demux_pads)) [
      | inl sees ↦
          let tee = v (any_pad-Exposes "video" p.demux_pads sees) in
          elim (Bool-cases (any_pad "audio" p.demux_pads)) [
            | inl hears ↦ ground (arith, tee, a (any_pad-Exposes "audio" p.demux_pads hears))
            | inr silent ↦ ground (arith, tee)
          ]
      | inr blind ↦ elim (Bool-cases (any_pad "audio" p.demux_pads)) [
        | inl hears ↦ ground (arith, a (any_pad-Exposes "audio" p.demux_pads hears))
        | inr silent ↦ ground (arith, some_media)
      ]
    ]

input_ready_fails :
    (p : View) (e : PipelineError)
    → input_ready p ≡ err e
    → (p.has demux ≡ false) × (e ≡ PipelineError.fatal ("Failed to find element: " ++ demux))
unfolding input_ready
input_ready_fails p e h = elim (Bool-cases (p.has demux)) [
  | inl found ↦ ground (arith, found)
  | inr lost ↦
      let failed : input_ready p ≡ err (PipelineError.fatal ("Failed to find element: " ++ demux)) =
        ground (arith, lost) in
      (lost, cc (failed, h))
]

pub input_ready-IsLinkable : (p : View) → (input_ready p ≡ ok true) ↔ IsLinkable p
input_ready-IsLinkable p = (
  λ h.
      let (d, m, v, a) = input_ready_tests p h in
      (
        d,
        elim m [
          | inl found ↦ inl (any_pad-Exposes "video" p.demux_pads found)
          | inr found ↦ inr (any_pad-Exposes "audio" p.demux_pads found)
        ],
        λ x. v (Exposes-any_pad "video" p.demux_pads x),
        λ x. a (Exposes-any_pad "audio" p.demux_pads x),
      ),
  λ h. IsLinkable-input_ready p h,
)

-- `ready` answers true if and only if the lock is got, the pipeline is initialised and a branch can be
-- linked; it fails only with a retryable error, when the lock is not got, and with a fatal one, when the
-- demuxer is missing.
pub ready-IsLinkable :
    (r : Result (Option View) String)
    → ((ready r ≡ ok true) ↔ ((p : View) × (r ≡ ok (some p)) × IsLinkable p))
      × ((e : PipelineError)
          → ready r ≡ err e
          → ((msg : String) × (r ≡ err msg) × (e ≡ PipelineError.transient msg))
            ⊎ ((p : View) × (r ≡ ok (some p))
                × (p.has demux ≡ false)
                × (e ≡ PipelineError.fatal ("Failed to find element: " ++ demux))))
unfolding ready
ready-IsLinkable (err msg) =
    ((λ h. cc, λ h. let (p, e, l) = h in cc e), λ e h. inl (msg, refl, cc h))
ready-IsLinkable (ok none) = ((λ h. cc, λ h. let (p, e, l) = h in cc e), λ e h. cc)
ready-IsLinkable (ok (some p)) = (
  (
    λ h. (p, refl, (input_ready-IsLinkable p).0 h),
    λ h. let (q, e, l) = h in cc (e, (input_ready-IsLinkable q).1 l),
  ),
  λ e h. let (lost, why) = input_ready_fails p e h in inr (p, refl, lost, why),
)
