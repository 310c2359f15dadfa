-- ===== src/Domain.antt =====
-- src/domain: the SDP texts that a browser and the whipsink exchange, checked once, when parsed.
-- `SdpOffer` and `SdpAnswer` are two types over one text, so that they cannot be swapped.
pub mod Samples
pub mod Directions
use Prim.Native.String
use srt_whep.Prelude.{String, Bool, true, false, not, ◌||◌, if◌then◌else◌}
use srt_whep.Prelude.Results.{Result, ok, err, ◌>>=◌}
use srt_whep.Prelude.Text.{starts_with, contains, trim_is_empty}

pub data SdpError : Type 0 where
  invalid_sdp : String → SdpError

pub record SessionDescription : Type 0 where
  pub text : String

pub record SdpOffer : Type 0 where
  pub sdp : SessionDescription

pub record SdpAnswer : Type 0 where
  pub sdp : SessionDescription

-- `SessionDescription::parse`
unfoldable pub parse_description : String → Result SessionDescription SdpError
parse_description s =
    let is_empty_or_whitespace = trim_is_empty s in
    let starts_with_v0 = starts_with s "v=0" in
    let sendonly_or_recvonly = contains s "a=sendonly" || contains s "a=recvonly" in
    if is_empty_or_whitespace || not starts_with_v0 || not sendonly_or_recvonly
    then err (invalid_sdp "SDP must start with v=0 and contain a=sendonly or a=recvonly")
    else ok (record { text = s })

-- `SessionDescription::is_sendonly`
unfoldable pub is_sendonly : SessionDescription → Bool
is_sendonly d = contains d.text "a=sendonly"

-- `SdpOffer::parse`
unfoldable pub parse_offer : String → Result SdpOffer SdpError
parse_offer s = do
  sdp ← parse_description s
  if not (is_sendonly sdp)
      then err (invalid_sdp "expected a sendonly offer, got a recvonly SDP")
      else ok (record { sdp = sdp })

-- `SdpAnswer::parse`
unfoldable pub parse_answer : String → Result SdpAnswer SdpError
parse_answer s = do
  sdp ← parse_description s
  if is_sendonly sdp
      then err (invalid_sdp "expected a recvonly answer, got a sendonly SDP")
      else ok (record { sdp = sdp })

-- `SdpOffer::is_sendonly`, a constant.
abbrev pub offer_is_sendonly : SdpOffer → Bool
offer_is_sendonly offer = true

-- `SdpAnswer::is_sendonly`, a constant.
abbrev pub answer_is_sendonly : SdpAnswer → Bool
answer_is_sendonly answer = false

-- The `AsRef<str>` of the two newtypes.
abbrev pub offer_text : SdpOffer → String
offer_text offer = offer.sdp.text

abbrev pub answer_text : SdpAnswer → String
answer_text answer = answer.sdp.text

-- The `Display` of the error.
abbrev pub sdp_error_message : SdpError → String
sdp_error_message (invalid_sdp s) = String.◌++◌ "Invalid SDP: " s
