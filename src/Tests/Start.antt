-- ===== src/Tests/Start.antt =====
-- src/startup.rs with a router that takes the templates apart.
use srt_whep.Prelude.{String, ◌≡◌, refl, Option, none, some, List, [], ◌∷◌, if◌then◌else◌, str_eq}
use srt_whep.Prelude.Results.{ok, err}
use srt_whep.Prelude.Text.{strip_prefix}
use srt_whep.Domain.{SdpOffer, SdpAnswer}
use srt_whep.Routes.{SignalHandle, Reply, sdp}
use srt_whep.Startup.{
  Route, Method, Handler, assemble, run_until_stopped, server_exited, shutdown_sent,
  supervisor_joined,
}
use srt_whep.Startup.Routing.{is_segment, first_route}
use srt_whep.Startup.Wiring.{Assembled, assemble-Assembled}

abbrev variable : String → String → Option String
variable stem path = elim (strip_prefix path stem) [
  | none ↦ none
  | some id ↦ if is_segment id then some id else none
]

abbrev matches : String → String → Option String
matches template path =
    if str_eq template "/channel/{id}"
    then variable "/channel/" path
    else if str_eq template "/whip_sink/{id}"
    then variable "/whip_sink/" path
    else if str_eq template path
    then some ""
    else none

abbrev serve : List Route → Method → String → Option (Handler × String)
serve table method path = first_route matches method path table

abbrev offer : SdpOffer
offer = record { sdp = record { text = "v=0 a=sendonly" } }

abbrev answer : SdpAnswer
answer = record { sdp = record { text = "v=0 a=recvonly" } }

-- A coordinator that has an offer for every viewer and an answer for every whipsink.
abbrev signal : SignalHandle (Unit {0})
signal = record {
  create_connection = λ id s. (ok offer, s);
  offer_received = λ id sdp s. (ok answer, s);
  answer_received = λ id sdp s. (ok tt, s);
  remove_connection = λ id s. (ok tt, s);
  list_connections = λ s. (ok [], s);
}

abbrev created : Reply
created = record {
  status = 201;
  headers = ("Location", "/channel/a1") ∷ ("Content-Type", "application/sdp") ∷ [];
  content = sdp "v=0 a=sendonly";
}

abbrev accepted : Reply
accepted = record {
  status = 201;
  headers = ("Location", "/whip_sink/a1") ∷ ("Content-Type", "application/sdp") ∷ [];
  content = sdp "v=0 a=recvonly";
}

assemble-Assembled_example : Assembled (some 8000) (assemble (ok 8000) (some 8000) (ok tt))
assemble-Assembled_example = assemble-Assembled (ok 8000) (some 8000) (ok tt)

wrong_port_refused : (assemble (ok 9000) (some 8000) (ok tt)).1 ≡ []
unfolding assemble
wrong_port_refused = refl

server_died :
    run_until_stopped (server_exited (ok (err "accept")))
    ≡ (err "accept", shutdown_sent ∷ supervisor_joined ∷ [])
unfolding run_until_stopped
server_died = refl
