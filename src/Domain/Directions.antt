-- ===== src/Domain/Directions.antt =====
-- What the two parsers of src/domain/session_description.rs accept.
use Prim.Native.String.{◌∷◌, ◌++◌}
use srt_whep.Prelude.{
  String, ◌≡◌, refl, ◌⊎◌, inl, inr, ◌↔◌, Bool, true, false, arith, Bool-cases, ◌||◌,
}
use srt_whep.Prelude.Results.{ok}
use srt_whep.Prelude.Text.{
  starts_with, contains, trim_is_empty, strip_prefix, starts_with_iff, contains_sound,
  contains_complete,
}
use srt_whep.Domain.{
  SessionDescription, SdpOffer, SdpAnswer, parse_description, is_sendonly, parse_offer,
  parse_answer, offer_is_sendonly, answer_is_sendonly, answer_text,
}

-- A text that begins with `v=0` is not blank, so the first test of `parse` decides nothing.
trim_is_empty_of_v0 : (s : String) → starts_with s "v=0" ≡ true → trim_is_empty s ≡ false
unfolding trim_is_empty starts_with strip_prefix
trim_is_empty_of_v0 String.[] h = cc
trim_is_empty_of_v0 (c ∷ s) h = ground arith

-- `a=sendonly` and `a=recvonly` as tests of a text.
abbrev pub sends : String → Bool
sends s = contains s "a=sendonly"

abbrev pub receives : String → Bool
receives s = contains s "a=recvonly"

abbrev pub Scanned : String → Type 0
Scanned s = (starts_with s "v=0" ≡ true) × ((sends s || receives s) ≡ true)

or_true : (b : Bool) → (b || true) ≡ true
or_true true = refl
or_true false = refl

abbrev pub IsPrefix : String → String → Type 0
IsPrefix p s = (rest : String) × (s ≡ p ++ rest)

abbrev pub IsInfix : String → String → Type 0
IsInfix p s = (before after : String) × (s ≡ before ++ (p ++ after))

contains_iff : (s p : String) → (contains s p ≡ true) ↔ IsInfix p s
contains_iff s p = (contains_sound s p, λ h. let (a, b, e) = h in rw e (contains_complete a p b))

-- A text that begins with `v=0` and names a direction.
abbrev pub IsSdp : String → Type 0
IsSdp s = IsPrefix "v=0" s × (IsInfix "a=sendonly" s ⊎ IsInfix "a=recvonly" s)

Scanned-IsSdp_iff : (s : String) → Scanned s ↔ IsSdp s
Scanned-IsSdp_iff s = (
  λ h.
      let (v, d) = h in
      (
        (starts_with_iff s "v=0").0 v,
        elim (Bool-cases (sends s)) [
          | inl here ↦ inl ((contains_iff s "a=sendonly").0 here)
          | inr missing ↦ inr ((contains_iff s "a=recvonly").0 (rw missing at d))
        ],
      ),
  λ h.
      let (v, d) = h in
      (
        (starts_with_iff s "v=0").1 v,
        elim d [
          | inl here ↦ rw ((contains_iff s "a=sendonly").1 here) refl
          | inr here ↦ rw ((contains_iff s "a=recvonly").1 here) (or_true (sends s))
        ],
      ),
)

-- The tests of `SessionDescription::parse`, the first of them left out.
parse_description_iff :
    (s : String) (d : SessionDescription)
    → (parse_description s ≡ ok d) ↔ (Scanned s × (d ≡ record { text = s }))
unfolding parse_description
parse_description_iff s d =
    (λ h. ground (arith, trim_is_empty_of_v0 s), λ h. ground (arith, trim_is_empty_of_v0 s))

-- `SessionDescription::parse` accepts a text if and only if it begins with `v=0` and has `a=sendonly` or
-- `a=recvonly` somewhere in it, and what it returns holds the text itself.
pub parse_description-IsSdp_iff :
    (s : String) (d : SessionDescription)
    → (parse_description s ≡ ok d) ↔ (IsSdp s × (d ≡ record { text = s }))
parse_description-IsSdp_iff s d =
    let (fore, back) = parse_description_iff s d in
    let (fore', back') = Scanned-IsSdp_iff s in
    (λ h. let (p, e) = fore h in (fore' p, e), λ h. let (p, e) = h in back (back' p, e))

parse_offer_iff :
    (s : String) (o : SdpOffer)
    → (parse_offer s ≡ ok o)
      ↔ (Scanned s × (sends s ≡ true) × (o ≡ record { sdp = record { text = s } }))
unfolding parse_offer parse_description is_sendonly
parse_offer_iff s o =
    (λ h. ground (arith, trim_is_empty_of_v0 s), λ h. ground (arith, trim_is_empty_of_v0 s))

parse_answer_iff :
    (s : String) (a : SdpAnswer)
    → (parse_answer s ≡ ok a)
      ↔ (Scanned s × (sends s ≡ false) × (a ≡ record { sdp = record { text = s } }))
unfolding parse_answer parse_description is_sendonly
parse_answer_iff s a =
    (λ h. ground (arith, trim_is_empty_of_v0 s), λ h. ground (arith, trim_is_empty_of_v0 s))

-- `SdpOffer::parse` accepts a text if and only if it begins with `v=0` and has `a=sendonly` in it;
-- `SdpAnswer::parse` if and only if it begins with `v=0`, has `a=recvonly` in it and no `a=sendonly`; what
-- they return holds the text itself.
pub parse_directions_iff :
    (s : String)
    → ((o : SdpOffer)
        → (parse_offer s ≡ ok o) ↔ (
            IsPrefix "v=0" s × IsInfix "a=sendonly" s × (o ≡ record { sdp = record { text = s } })))
      × ((a : SdpAnswer)
          → (parse_answer s ≡ ok a) ↔ (
              IsPrefix "v=0" s
              × IsInfix "a=recvonly" s
              × (¬ IsInfix "a=sendonly" s)
              × (a ≡ record { sdp = record { text = s } })))
parse_directions_iff s =
    let v = starts_with_iff s "v=0" in
    let out = contains_iff s "a=sendonly" in
    let back = contains_iff s "a=recvonly" in
    (
      λ o. (
        λ h. let (p, d, e) = (parse_offer_iff s o).0 h in (v.0 p.0, out.0 d, e),
        λ h. let (p, d, e) = h in (parse_offer_iff s o).1 ((v.1 p, rw (out.1 d) refl), out.1 d, e),
      ),
      λ a. (
        λ h.
            let (p, d, e) = (parse_answer_iff s a).0 h in
            (v.0 p.0, back.0 (rw d at p.1), λ x. cc (out.1 x, d), e),
        λ h.
            let (p, d, n, e) = h in
            (parse_answer_iff s a).1 (
              (v.1 p, rw (back.1 d) (or_true (sends s))),
              elim (Bool-cases (sends s)) [
                | inl here ↦ absurd (n (out.0 here))
                | inr missing ↦ missing
              ],
              e,
            ),
      ),
    )

-- A text that `SessionDescription::parse` accepts is accepted by exactly one of `SdpOffer::parse` and
-- `SdpAnswer::parse`: an offer can never be taken for an answer.
pub parse_one_direction :
    (s : String) (d : SessionDescription)
    → parse_description s ≡ ok d
    → ((parse_offer s ≡ ok (record { sdp = d })) × ((a : SdpAnswer) → ¬ (parse_answer s ≡ ok a)))
      ⊎ ((parse_answer s ≡ ok (record { sdp = d })) × ((o : SdpOffer) → ¬ (parse_offer s ≡ ok o)))
parse_one_direction s d h = elim (Bool-cases (sends s)) [
  | inl sending ↦ inl (
    (parse_offer_iff s _).1 (ground (arith, (parse_description_iff s d).0 h)),
    λ a e. cc (((parse_answer_iff s a).0 e).1),
  )
  | inr receiving ↦ inr (
    (parse_answer_iff s _).1 (ground (arith, (parse_description_iff s d).0 h)),
    λ o e. cc (((parse_offer_iff s o).0 e).1),
  )
]

-- The constants that the two newtypes return for `is_sendonly` are what a scan of the text would find,
-- and an accepted answer does advertise `a=recvonly`.
pub directions_by_construction :
    (s : String)
    → ((o : SdpOffer) → parse_offer s ≡ ok o → is_sendonly o.sdp ≡ offer_is_sendonly o)
      × ((a : SdpAnswer)
          → parse_answer s ≡ ok a
          → (is_sendonly a.sdp ≡ answer_is_sendonly a) × (receives (answer_text a) ≡ true))
unfolding is_sendonly
directions_by_construction s = (
  λ o h. ground (arith, (parse_offer_iff s o).0 h),
  λ a h. ground (arith, (parse_answer_iff s a).0 h),
)
