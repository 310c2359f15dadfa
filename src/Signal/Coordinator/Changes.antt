-- ===== src/Signal/Coordinator/Changes.antt =====
-- What one operation of src/signal/coordinator.rs may do to the map of connections.
use srt_whep.Prelude.{
  ℕ, ◌+◌, String, ◌≡◌, refl, ◌∙◌, true, Option, none, some, List, [], ◌∷◌, arith, if◌then◌else◌,
  str_eq,
}
use srt_whep.Prelude.HashMap.{lookup}
use srt_whep.Signal.Watchdog.{Watchdog, record_failure}
use srt_whep.Signal.Coordinator.State.{
  ConnectionState, awaiting_offer, awaiting_answer, established, Effect, restart_requested,
  Coordinator,
}
use srt_whep.Signal.Coordinator.Policy.{WaiterNotice, unavailable}
use srt_whep.Signal.Coordinator.Connection.{notify}
use srt_whep.Signal.Coordinator.Terminate.{notify_all, reset_all}

-- One step of one connection's life.
pub data Moves : Option ConnectionState → Option ConnectionState → Type 0 where
  created : {reply d : ℕ} → Moves none (some (awaiting_offer reply d))
  offered : {w d reply d' : ℕ} → Moves (some (awaiting_offer w d)) (some (awaiting_answer reply d'))
  answered : {w d t : ℕ} → Moves (some (awaiting_answer w d)) (some (established t))
  ended : {state : ConnectionState} → Moves (some state) none
  stays : {o : Option ConnectionState} → Moves o o

abbrev pub at : {E : Type 0} → String → Coordinator E → Option ConnectionState
at id s = lookup id s.connections

-- The restarts asked for.
abbrev pub restarts : List Effect → ℕ
restarts [] = 0
restarts (restart_requested ∷ log) = 1 + restarts log
restarts (e ∷ log) = restarts log

-- The failure that is recorded at some instant trips this watchdog.
abbrev pub Trips : Watchdog → Type 0
Trips dog = (t : ℕ) × ((record_failure t dog).0 ≡ true)

-- The connection `id` moves and no other one does, or a failure trips the watchdog, all end and a restart
-- is asked for.
pub data Change {E : Type 0} (id : String) (s s' : Coordinator E) : Type 0 where
  one :
      (o : Option ConnectionState)
      → Moves (at id s) o
      → ((j : String) → at j s' ≡ (if str_eq id j then o else at j s))
      → restarts s'.log ≡ restarts s.log
      → Change id s s'
  all :
      Trips s.watchdog → s'.connections ≡ [] → restarts s'.log ≡ restarts s.log + 1 → Change id s s'

module _ {E : Type 0} where
  pub notify-restarts :
      (state : ConnectionState) (n : WaiterNotice) (id : String) (s : Coordinator E)
      → restarts (notify state n id s).log ≡ restarts s.log
  unfolding notify
  notify-restarts state n id s = ground arith

  notify_all-restarts :
      (n : WaiterNotice) (m : List (String × ConnectionState)) (s : Coordinator E)
      → restarts (notify_all n m s).log ≡ restarts s.log
  unfolding notify_all
  notify_all-restarts n [] s = refl
  notify_all-restarts n ((id, state) ∷ m) s =
      notify_all-restarts n m (notify state n id s) ∙ notify-restarts state n id s

  pub reset_all-restarts : (s : Coordinator E) → restarts (reset_all s).log ≡ restarts s.log
  unfolding reset_all
  reset_all-restarts s = notify_all-restarts unavailable s.connections _
