-- ===== src/Tests/Sdp.antt =====
-- src/domain at the sample texts of its own tests.
use srt_whep.Prelude.{◌≡◌, refl, ◌⊎◌, ◌↔◌}
use srt_whep.Prelude.Results.{ok}
use srt_whep.Prelude.Text.{strip_prefix, starts_with, contains, trim_is_empty}
use srt_whep.Domain.{
  SessionDescription, SdpOffer, SdpAnswer, parse_description, is_sendonly, parse_offer,
  parse_answer,
}
use srt_whep.Domain.Samples.{valid_whip_offer, valid_whep_answer}
use srt_whep.Domain.Directions.{
  IsSdp, parse_description-IsSdp_iff, parse_directions_iff, IsPrefix, IsInfix, parse_one_direction,
}

abbrev sample : SessionDescription
sample = record { text = "v=0 a=recvonly" }

sample_parses : parse_description "v=0 a=recvonly" ≡ ok sample
unfolding parse_description starts_with strip_prefix contains trim_is_empty
sample_parses = refl

-- The tests `offer_requires_sendonly` and `answer_requires_recvonly`.
samples_parse :
    (parse_offer valid_whip_offer ≡ ok (record { sdp = record { text = valid_whip_offer } }))
    × (parse_answer valid_whep_answer ≡ ok (record { sdp = record { text = valid_whep_answer } }))
unfolding parse_offer parse_answer parse_description is_sendonly starts_with strip_prefix contains
    trim_is_empty
samples_parse = (refl, refl)

-- The four texts that the parser's tests reject.
malformed :
    (d : SessionDescription)
    → (¬ (parse_description "" ≡ ok d))
      × (¬ (parse_description " " ≡ ok d))
      × (¬ (parse_description "v=1" ≡ ok d))
      × (¬ (parse_description "v=0" ≡ ok d))
unfolding parse_description starts_with strip_prefix contains trim_is_empty
malformed d = (λ e. cc, λ e. cc, λ e. cc, λ e. cc)

parse_description-IsSdp_iff_example :
    (parse_description "v=0 a=recvonly" ≡ ok sample)
    ↔ (IsSdp "v=0 a=recvonly" × (sample ≡ record { text = "v=0 a=recvonly" }))
parse_description-IsSdp_iff_example = parse_description-IsSdp_iff "v=0 a=recvonly" sample

parse_one_direction_example :
    ((parse_offer "v=0 a=recvonly" ≡ ok (record { sdp = sample }))
      × ((a : SdpAnswer) → ¬ (parse_answer "v=0 a=recvonly" ≡ ok a)))
    ⊎ ((parse_answer "v=0 a=recvonly" ≡ ok (record { sdp = sample }))
        × ((o : SdpOffer) → ¬ (parse_offer "v=0 a=recvonly" ≡ ok o)))
parse_one_direction_example = parse_one_direction "v=0 a=recvonly" sample sample_parses

parse_directions_iff_example :
    ((o : SdpOffer)
      → (parse_offer "v=0 a=recvonly" ≡ ok o) ↔ (
          IsPrefix "v=0" "v=0 a=recvonly"
          × IsInfix "a=sendonly" "v=0 a=recvonly"
          × (o ≡ record { sdp = sample })))
    × ((a : SdpAnswer)
        → (parse_answer "v=0 a=recvonly" ≡ ok a) ↔ (
            IsPrefix "v=0" "v=0 a=recvonly"
            × IsInfix "a=recvonly" "v=0 a=recvonly"
            × (¬ IsInfix "a=sendonly" "v=0 a=recvonly")
            × (a ≡ record { sdp = sample })))
parse_directions_iff_example = parse_directions_iff "v=0 a=recvonly"
