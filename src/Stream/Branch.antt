-- ===== src/Stream/Branch.antt =====
-- One viewer's branch, src/stream/branch.rs: how it is attached to the pipeline and detached from it.
pub mod Detach
pub mod Attach
pub mod Attached
use Prim.Native.Nat.{◌/◌, ◌%◌}
use Prim.Native.String.{◌++◌}
use srt_whep.Prelude.{
  ℕ, zero, suc, String, Bool, true, false, Option, none, some, List, [], ◌∷◌, ltb, if◌then◌else◌,
}
use srt_whep.Prelude.Results.{Result, ok, err}
use srt_whep.Prelude.Calls.{Call, return, fail, ◌>>=◌, ◌>>◌}
use srt_whep.Prelude.Text.{starts_with, replace}
use srt_whep.Stream.Naming.{
  demux, output_tee_video, output_tee_audio, whip_sink_name, video_queue_name, audio_queue_name,
  video_decoder_name,
}
use srt_whep.Stream.Gst.{Gst, State, null, paused, playing}

-- The template that the route table, the Location header and the whipsink share.
abbrev pub whip_sink_route : String
whip_sink_route = "/whip_sink/{id}"

unfoldable pub whip_sink_path : String → String
whip_sink_path id = replace whip_sink_route "{id}" id

-- `{}` of a decimal digit, and of a `u16`, which has five digits at most.
abbrev digit : ℕ → String
digit zero = "0"
digit (suc zero) = "1"
digit (suc (suc zero)) = "2"
digit (suc (suc (suc zero))) = "3"
digit (suc (suc (suc (suc zero)))) = "4"
digit (suc (suc (suc (suc (suc zero))))) = "5"
digit (suc (suc (suc (suc (suc (suc zero)))))) = "6"
digit (suc (suc (suc (suc (suc (suc (suc zero))))))) = "7"
digit (suc (suc (suc (suc (suc (suc (suc (suc zero)))))))) = "8"
digit n = "9"

unfoldable pub decimal : ℕ → ℕ → String
decimal zero n = ""
decimal (suc places) n =
    let high = decimal places (n / 10) in (if ltb n 10 then "" else high) ++ digit (n % 10)

-- `whip_endpoint`
unfoldable pub whip_endpoint : ℕ → String → String
whip_endpoint port id = "http://localhost:" ++ (decimal 5 port ++ whip_sink_path id)

-- `pads().into_iter().any(|pad| pad.name().starts_with(media))`
unfoldable pub any_pad : String → List String → Bool
any_pad media [] = false
any_pad media (pad ∷ pads) =
    let later = any_pad media pads in if starts_with pad media then true else later

module _ {E H : Type 0} (g : Gst E H) (pipeline : H) where
  -- `pipeline.by_name(name).with_context(..)`
  unfoldable pub find : String → Call E String H
  find name w = elim (g.by_name pipeline name w) [
    | none ↦ (err ("Failed to find element: " ++ name), w)
    | some e ↦ (ok e, w)
  ]

  -- `make(factory).name(name).build()?` and `add_many([&e])?`, which come together in `attach`.
  unfoldable pub make_and_add : String → String → Call E String H
  make_and_add factory name = do
    e ← g.make factory (some name) []
    g.add_many pipeline (e ∷ [])
    return e

  -- `for e in elements { e.sync_state_with_parent()?; }`
  unfoldable pub sync_all : List H → Call E String (Unit {0})
  sync_all [] = return tt
  sync_all (e ∷ es) = do g.sync_state_with_parent e; sync_all es

  -- Where the whipsink has a signaller, it is pointed at the loopback endpoint.
  unfoldable pub point_at : H → String → Call E String (Unit {0})
  point_at whipsink url w =
      (ok tt, if g.has_signaller whipsink w then g.set_whip_endpoint whipsink url w else w)

  -- The elements between the video queue and the whipsink.
  unfoldable pub attach_video : Bool → String → H → Call E String (Unit {0})
  attach_video decode_video id whipsink = do
    tee ← find output_tee_video
    queue ← make_and_add "queue" (video_queue_name id)
    if decode_video
        then (do
          decoder ← make_and_add "avdec_h264" (video_decoder_name id)
          g.link_many (tee ∷ queue ∷ decoder ∷ whipsink ∷ [])
          sync_all (tee ∷ queue ∷ decoder ∷ []))
        else (do g.link_many (tee ∷ queue ∷ whipsink ∷ []); sync_all (tee ∷ queue ∷ []))

  unfoldable pub attach_audio : String → H → Call E String (Unit {0})
  attach_audio id whipsink = do
    tee ← find output_tee_audio
    queue ← make_and_add "queue" (audio_queue_name id)
    g.link_many (tee ∷ queue ∷ whipsink ∷ [])
    sync_all (tee ∷ queue ∷ [])

  -- `if demux.pads().into_iter().any(..) { .. }`
  unfoldable pub if_media : String → H → Call E String (Unit {0}) → Call E String (Unit {0})
  if_media media e call w = if any_pad media (g.pads e w) then call w else (ok tt, w)

  -- `Branch::attach`
  unfoldable pub attach : ℕ → Bool → String → Call E String (Unit {0})
  attach port decode_video id = do
    source ← find demux
    whipsink ← make_and_add "whipclientsink" (whip_sink_name id)
    point_at whipsink (whip_endpoint port id)
    if_media "video" source (attach_video decode_video id whipsink)
    if_media "audio" source (attach_audio id whipsink)
    g.sync_state_with_parent whipsink
    g.sync_state_with_parent source

  -- `Branch::remove_element_from_pipeline`; its two failures are only logged.
  unfoldable pub remove_element_from_pipeline : H → Call E String (Unit {0})
  remove_element_from_pipeline e w =
      (ok tt, if g.is_alive pipeline w then (g.remove pipeline e (g.set_state e null w).1).1 else w)

  -- The callback on the tee: each failure is only logged.
  unfoldable pub release_pad : H → H → Call E String (Unit {0})
  release_pad tee pad w =
      (ok tt, (g.set_state tee playing (g.remove_pad tee pad (g.set_state tee paused w).1).1).1)

  -- The part of `remove_branch_from_pipeline` for a queue that is linked.
  unfoldable pub unlink_from_tee : H → H → Call E String (Unit {0})
  unlink_from_tee queue pad w = elim (g.peer pad w) [
    | none ↦ (err "Failed to find element: tee's src pad", w)
    | some src ↦ elim (g.parent_element src w) [
      | none ↦ (err "Failed to find element: output_tee", w)
      | some tee ↦ (release_pad tee src >> remove_element_from_pipeline queue) w
    ]
  ]

  -- `remove_branch_from_pipeline` past its test that the queue exists.
  unfoldable pub remove_queue : String → H → Call E String (Unit {0})
  remove_queue name queue w = elim (g.sink_pad queue w) [
    | none ↦ (err ("Failed to find element: " ++ (name ++ "'s sink pad")), w)
    | some pad ↦
        if g.is_linked pad w
        then unlink_from_tee queue pad w
        else remove_element_from_pipeline queue w
  ]

  -- `Branch::remove_branch_from_pipeline`
  unfoldable pub remove_branch_from_pipeline : String → Call E String (Unit {0})
  remove_branch_from_pipeline name w = elim (g.by_name pipeline name w) [
    | none ↦ (ok tt, w)
    | some queue ↦ remove_queue name queue w
  ]

  -- `if let Some(e) = pipeline.by_name(name) { remove_element_from_pipeline(..).await?; }`
  unfoldable pub remove_by_name : String → Call E String (Unit {0})
  remove_by_name name w = elim (g.by_name pipeline name w) [
    | none ↦ (ok tt, w)
    | some e ↦ remove_element_from_pipeline e w
  ]

  -- `Branch::detach`
  unfoldable pub detach : String → Call E String (Unit {0})
  detach id = do
    remove_branch_from_pipeline (video_queue_name id)
    remove_branch_from_pipeline (audio_queue_name id)
    remove_by_name (video_decoder_name id)
    remove_by_name (whip_sink_name id)
