-- ===== src/Tests/Http.antt =====
-- src/routes over a coordinator with one viewer.
use srt_whep.Prelude.{String, ◌≡◌, refl, ◌≢◌, none, []}
use srt_whep.Prelude.Results.{ok, err}
use srt_whep.Domain.{SdpOffer, SdpAnswer, parse_offer, parse_answer}
use srt_whep.Signal.Errors.{SignalError}
use srt_whep.Signal.Messages.{create_connection}
use srt_whep.Prelude.HashMap.{lookup, erase, insert}
use srt_whep.Stream.TestPipeline
use srt_whep.Signal.World.{World, world, at_start}
use srt_whep.Signal.Coordinator.Config.{default_config}
use srt_whep.Signal.Coordinator.State.{Coordinator, init}
use srt_whep.Signal.Coordinator.Policy.{deleted, policy}
use srt_whep.Signal.Coordinator.Terminate.{
  terminate, terminate_entry, finish, tear_down, remove_branch_bounded,
}
use srt_whep.Signal.Coordinator.Handlers.{
  handle, admit, add_branch_bounded, on_remove, on_create, on_offer, on_answer,
}
use srt_whep.Routes.Mailbox.{over, remove_connection, sent}
use srt_whep.Signal.Coordinator.Changes.{at}
use srt_whep.Routes.{SignalHandle, request, delete, whep_handler, whep_patch_handler, whip_handler}
use srt_whep.Routes.Idempotence.{Outcome, bare, delete-Outcome, delete_again}
use srt_whep.Routes.Outcomes.{Refused, malformed-Refused}

-- The coordinator on the fake pipeline; the two replies that it gives later are not there yet.
abbrev signal : SignalHandle (Coordinator World)
signal = record {
  create_connection = λ id s. (err (SignalError.timeout "whipsink offer"), on_create world id 1 s);
  offer_received =
      λ id sdp s. (err (SignalError.timeout "browser answer"), on_offer world id sdp 2 s);
  answer_received = λ id sdp s. (ok tt, on_answer world id sdp 3 s);
  remove_connection = λ id s. terminate world id deleted s;
  list_connections = λ s. (ok [], s);
}

abbrev begun : Coordinator World
begun = handle world (create_connection "a" 1) (init at_start default_config)

delete-Outcome_example : Outcome world "a" begun (delete (over world 4 signal) "a" begun)
delete-Outcome_example = delete-Outcome world signal 4 "a" begun

deleted_once : (delete (over world 4 signal) "a" begun).0 ≡ ok (bare 200)
unfolding delete remove_connection sent request on_remove terminate terminate_entry finish tear_down
    policy remove_branch_bounded handle on_create admit add_branch_bounded init lookup erase insert
    TestPipeline.add_branch TestPipeline.remove_branch TestPipeline.set_ready
deleted_once = refl

delete_again_example :
    let s' = (delete (over world 4 signal) "a" begun).1 in
    (at "a" s' ≡ none)
    × ((delete (over world 5 signal) "a" s').0 ≡ ok (bare 204))
    × ((j : String) → at j (delete (over world 5 signal) "a" s').1 ≡ at j s')
delete_again_example = delete_again world signal 4 5 "a" begun (bare 200) deleted_once

malformed-Refused_example :
    (◌≢◌ {A = String} "v=0" "" → Refused begun (whep_handler signal "a" "v=0" begun))
    × (((a : SdpAnswer) → parse_answer "v=0" ≢ ok a)
        → Refused begun (whep_patch_handler signal "a" "v=0" begun))
    × (((o : SdpOffer) → parse_offer "v=0" ≢ ok o)
        → Refused begun (whip_handler signal "a" "v=0" begun))
malformed-Refused_example = malformed-Refused signal "a" "v=0" begun
