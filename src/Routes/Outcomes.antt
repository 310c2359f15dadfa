-- ===== src/Routes/Outcomes.antt =====
-- The POST and PATCH handlers of src/routes, and the WHIP paths of src/stream/branch.rs.
use Prim.Native.String.{◌++◌}
use text.Mathlib.TextLemmas.{append-nil}
use srt_whep.Prelude.{String, ◌≡◌, refl, ◌≢◌, some, true, inl, inr, arith}
use srt_whep.Prelude.Results.{Result, ok, err, Result-cases}
use srt_whep.Prelude.Text.{replace, strip_prefix, strip_prefix-eq_some}
use srt_whep.Domain.{SdpOffer, SdpAnswer, parse_offer, parse_answer}
use srt_whep.Signal.Errors.{SignalError, status_code, http_contract, from_sdp}
use srt_whep.Stream.Branch.{whip_sink_path}
use srt_whep.Routes.{SignalHandle, is_empty, whip_handler, whep_handler, whep_patch_handler}

-- The path of a connection's WHIP resource is the route's template with the id at its end, and the
-- route's variable is read back from it.
pub whip_sink_path_lem :
    (id : String)
    → (whip_sink_path id ≡ "/whip_sink/" ++ id)
      × (strip_prefix (whip_sink_path id) "/whip_sink/" ≡ some id)
unfolding whip_sink_path replace
whip_sink_path_lem id =
    let e : strip_prefix (whip_sink_path id) "/whip_sink/" ≡ some id = rw append-nil refl in
    (strip_prefix-eq_some (whip_sink_path id) "/whip_sink/" e, e)

is_empty_iff : (s : String) → is_empty s ≡ true → s ≡ ""
is_empty_iff String.[] h = refl
is_empty_iff (String.◌∷◌ c s) h = cc

abbrev pub Refused : {E T : Type 0} → E → Result T SignalError × E → Type 0
Refused s o = (e : SignalError) × (o ≡ (err e, s)) × (status_code e ≡ 400)

module _ {E : Type 0} (signal : SignalHandle E) where
  -- A form that is no good never reaches the coordinator: a POST to /channel with a body, a PATCH whose
  -- body is no answer and a WHIP POST whose body is no offer each fail with status 400 and leave the state
  -- behind the handle as it was.
  pub malformed-Refused :
      (id form : String) (s : E)
      → (form ≢ "" → Refused s (whep_handler signal id form s))
        × (((a : SdpAnswer) → parse_answer form ≢ ok a)
            → Refused s (whep_patch_handler signal id form s))
        × (((o : SdpOffer) → parse_offer form ≢ ok o) → Refused s (whip_handler signal id form s))
  unfolding whep_handler whep_patch_handler whip_handler status_code http_contract
  malformed-Refused id form s = (
    λ h. (
      SignalError.invalid_sdp "Empty body expected. Client initialization not supported.",
      ground (arith, h, is_empty_iff form),
      refl,
    ),
    λ h. elim (Result-cases (parse_answer form)) [
      | inl (a, e) ↦ absurd (h a e)
      | inr (e, refused) ↦ (from_sdp e, ground (arith, refused), refl)
    ],
    λ h. elim (Result-cases (parse_offer form)) [
      | inl (o, e) ↦ absurd (h o e)
      | inr (e, refused) ↦ (from_sdp e, ground (arith, refused), refl)
    ],
  )
