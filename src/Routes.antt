-- ===== src/Routes.antt =====
-- The HTTP handlers of src/routes and the handle of src/signal/mod.rs through which they reach the
-- coordinator. `E` is the state behind the handle; actix, CORS and the uuid generator are outside.
use srt_whep.Prelude.{
  ℕ, String, Bool, true, false, Option, none, some, List, [], ◌∷◌, if◌then◌else◌, str_eq,
}
use Prim.Native.String.{◌++◌}
use srt_whep.Prelude.Results.{Result, ok, err, map_err}
use srt_whep.Stream.Branch.{whip_sink_path}
use srt_whep.Domain.{SdpOffer, SdpAnswer, parse_offer, parse_answer, offer_text, answer_text}
use srt_whep.Signal.Errors.{SignalError, HttpResponse, error_response, from_sdp}
use srt_whep.Signal.Messages.{ConnectionInfo}
pub mod Idempotence
pub mod Outcomes
pub mod Mailbox

-- What comes back over the two channels of `SignalHandle::request`: whether the command was taken,
-- and the reply, `none` if its sender was dropped.
unfoldable pub request : {T : Type 0} → Bool → Option (Result T SignalError) → Result T SignalError
request false reply = err SignalError.unavailable
request true none = err SignalError.unavailable
request true (some r) = r

-- `SignalHandle`: each method as a step of the state behind it, with its awaited result.
pub record SignalHandle (E : Type 0) : Type 0 where
  pub create_connection : String → E → Result SdpOffer SignalError × E
  pub offer_received : String → SdpOffer → E → Result SdpAnswer SignalError × E
  pub answer_received : String → SdpAnswer → E → Result (Unit {0}) SignalError × E
  pub remove_connection : String → E → Result (Unit {0}) SignalError × E
  pub list_connections : E → Result (List ConnectionInfo) SignalError × E

-- A handler's success; the content of `list` is the snapshot, before its encoding as JSON with the
-- header that goes with it.
pub data Content : Type 0 where
  empty : Content
  sdp : String → Content
  json : List ConnectionInfo → Content

pub record Reply : Type 0 where
  pub status : ℕ
  pub headers : List (String × String)
  pub content : Content

-- `options`
abbrev pub options : Reply
options = record {
  status = 204;
  headers =
      ("Vary", "Origin, Access-Control-Request-Headers")
      ∷ ("Access-Control-Allow-Origin", "*")
      ∷ ("Access-Control-Expose-Headers", "Location, Accept, Allow, Accept-POST")
      ∷ ("Access-Control-Allow-Methods", "POST, GET, OPTIONS, PATCH, PUT")
      ∷ ("ACCEPT-POST", "application/sdp")
      ∷ [];
  content = empty;
}

abbrev pub is_empty : String → Bool
is_empty String.[] = true
is_empty (String.◌∷◌ c s) = false

module _ {E : Type 0} (signal : SignalHandle E) where
  -- `delete`, which both DELETE routes share.
  unfoldable pub delete : String → E → Result Reply SignalError × E
  delete id s =
      let (res, s') = signal.remove_connection id s in
      elim res [
        | ok _ ↦ (ok (record { status = 200; headers = []; content = empty }), s')
        | err (SignalError.not_found i) ↦
            (ok (record { status = 204; headers = []; content = empty }), s')
        | err e ↦ (err e, s')
      ]

  -- `list`
  unfoldable pub list : E → Result Reply SignalError × E
  list s =
      let (res, s') = signal.list_connections s in
      elim res [
        | ok infos ↦ (ok (record { status = 200; headers = []; content = json infos }), s')
        | err e ↦ (err e, s')
      ]

  -- `whep_handler`, given the id that `Uuid::new_v4` makes.
  unfoldable pub whep_handler : String → String → E → Result Reply SignalError × E
  whep_handler uuid form s =
      let (res, s') = signal.create_connection uuid s in
      if is_empty form
      then elim res [
        | ok offer ↦ (
          ok (record {
            status = 201;
            headers = ("Location", "/channel/" ++ uuid) ∷ ("Content-Type", "application/sdp") ∷ [];
            content = sdp (offer_text offer);
          }),
          s',
        )
        | err e ↦ (err e, s')
      ]
      else (
        err (SignalError.invalid_sdp "Empty body expected. Client initialization not supported."),
        s,
      )

  -- `whep_patch_handler`
  unfoldable pub whep_patch_handler : String → String → E → Result Reply SignalError × E
  whep_patch_handler id form s = elim (parse_answer form) [
    | err e ↦ (err (from_sdp e), s)
    | ok answer ↦
        let (res, s') = signal.answer_received id answer s in
        elim res [
          | ok _ ↦ (ok (record { status = 204; headers = []; content = empty }), s')
          | err e ↦ (err e, s')
        ]
  ]

  -- `whip_handler`
  unfoldable pub whip_handler : String → String → E → Result Reply SignalError × E
  whip_handler id form s = elim (parse_offer form) [
    | err e ↦ (err (from_sdp e), s)
    | ok offer ↦
        let (res, s') = signal.offer_received id offer s in
        elim res [
          | ok answer ↦ (
            ok (record {
              status = 201;
              headers = ("Location", whip_sink_path id) ∷ ("Content-Type", "application/sdp") ∷ [];
              content = sdp (answer_text answer);
            }),
            s',
          )
          | err e ↦ (err e, s')
        ]
  ]
