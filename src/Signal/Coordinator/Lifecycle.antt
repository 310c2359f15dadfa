-- ===== src/Signal/Coordinator/Lifecycle.antt =====
-- The life of one connection of src/signal/coordinator.rs, and its independence of the others.
use srt_whep.Prelude.{
  ◌+◌, String, ◌≡◌, refl, ◌≢◌, ◌⊎◌, Option, none, some, [], arith, inl, inr, Bool-cases, str_eq,
  eq_iff,
}
use mathlib.Core.Path.{subst}
use mathlib.Core.Option.{some-injective}
use srt_whep.Prelude.HashMap.{lookup}
use srt_whep.Signal.Messages.{
  Command, create_connection, offer_received, answer_received, remove_connection, list_connections,
  reset,
}
use srt_whep.Signal.Coordinator.State.{Runtime, ConnectionState, Coordinator}
use srt_whep.Signal.Coordinator.Handlers.{
  on_create, on_offer, on_answer, on_remove, reset_signal, handle, reap_branch,
}
use srt_whep.Signal.Coordinator.Accounts.{reset_all-connections}
use srt_whep.Signal.Coordinator.Changes.{Moves, ended, stays, at, restarts, Change, one, all, Trips}
use srt_whep.Signal.Coordinator.Operations.{
  on_create-Change, on_offer-Change, on_answer-Change, on_remove-Change, reap_branch-others,
}

-- Any connection may end, and one that is not there stays so.
ends : (o : Option ConnectionState) → Moves o none
ends none = stays
ends (some state) = ended

module _ {E : Type 0} where
  at_empty : (j : String) (s : Coordinator E) → s.connections ≡ [] → at j s ≡ none
  unfolding lookup
  at_empty j s e = rw e refl

  Change-Moves :
      {id : String} {s s' : Coordinator E} (j : String) → Change id s s' → Moves (at j s) (at j s')
  Change-Moves {id} {s} {s'} j (one o m l r) = elim (Bool-cases (str_eq id j)) [
    | inl same ↦
        let moved : at j s' ≡ o = ground (arith, l j) in rw moved (rw (← ((eq_iff id j).0 same)) m)
    | inr other ↦ let kept : at j s' ≡ at j s = ground (arith, l j) in rw kept stays
  ]
  Change-Moves {s} {s'} j (all t c r) = rw (at_empty j s' c) (ends (at j s))

  -- The connection keeps its state, and no restart is asked for.
  abbrev pub Kept : String → Coordinator E → Coordinator E → Type 0
  Kept j s s' = (at j s' ≡ at j s) × (restarts s'.log ≡ restarts s.log)

  -- It is kept, or a failure trips the watchdog, all end and a restart is asked for.
  abbrev pub Spared : String → Coordinator E → Coordinator E → Type 0
  Spared j s s' =
      Kept j s s'
      ⊎ (Trips s.watchdog × (s'.connections ≡ []) × (restarts s'.log ≡ restarts s.log + 1))

  Change-Spared :
      {id : String} {s s' : Coordinator E} (j : String) → id ≢ j → Change id s s' → Spared j s s'
  Change-Spared {id} j other (one o m l r) = inl (ground (arith, l j, eq_iff id j), r)
  Change-Spared j other (all t c r) = inr (t, c, r)

-- The connection that a command is about.
abbrev pub subject : Command → Option String
subject (create_connection id reply) = some id
subject (offer_received id sdp reply) = some id
subject (answer_received id sdp reply) = some id
subject (remove_connection id reply) = some id
subject (list_connections reply) = none
subject (reset reply) = none

module _ {E : Type 0} (rt : Runtime E) where
  subject-Change :
      (cmd : Command) (id : String) (s : Coordinator E)
      → subject cmd ≡ some id
      → Change id s (handle rt cmd s)
  unfolding handle
  subject-Change (create_connection i reply) id s e =
      subst (λ x. Change x s (on_create rt i reply s)) (some-injective i id e)
        (on_create-Change rt i reply s)
  subject-Change (offer_received i sdp reply) id s e =
      subst (λ x. Change x s (on_offer rt i sdp reply s)) (some-injective i id e)
        (on_offer-Change rt i sdp reply s)
  subject-Change (answer_received i sdp reply) id s e =
      subst (λ x. Change x s (on_answer rt i sdp reply s)) (some-injective i id e)
        (on_answer-Change rt i sdp reply s)
  subject-Change (remove_connection i reply) id s e =
      subst (λ x. Change x s (on_remove rt i reply s)) (some-injective i id e)
        (on_remove-Change rt i reply s)
  subject-Change (list_connections reply) id s e = cc
  subject-Change (reset reply) id s e = cc

  -- Each command takes each connection along at most one edge of the diagram: from nothing to awaiting
  -- the offer, on to awaiting the answer, on to established, and from any of these to its end.
  pub handle-Moves :
      (cmd : Command) (j : String) (s : Coordinator E) → Moves (at j s) (at j (handle rt cmd s))
  unfolding handle reset_signal
  handle-Moves (create_connection id reply) j s = Change-Moves j (on_create-Change rt id reply s)
  handle-Moves (offer_received id sdp reply) j s =
      Change-Moves j (on_offer-Change rt id sdp reply s)
  handle-Moves (answer_received id sdp reply) j s =
      Change-Moves j (on_answer-Change rt id sdp reply s)
  handle-Moves (remove_connection id reply) j s = Change-Moves j (on_remove-Change rt id reply s)
  handle-Moves (list_connections reply) j s = stays
  handle-Moves (reset reply) j s =
      rw (at_empty j (handle rt (reset reply) s) (reset_all-connections s)) (ends (at j s))

  -- A command about one connection leaves every other connection as it was and asks for no restart; or
  -- its failure, recorded at some instant in the state that the watchdog is in, trips the watchdog, and
  -- then all connections end and one restart is asked for. The failure of one branch always leaves every
  -- other connection as it was and never asks for a restart.
  pub others-Spared :
      (id j : String)
      → id ≢ j
      → (s : Coordinator E)
      → ((cmd : Command) → subject cmd ≡ some id → Spared j s (handle rt cmd s))
        × Kept j s (reap_branch rt id s)
  others-Spared id j other s = (
    λ cmd e. Change-Spared j other (subject-Change cmd id s e),
    reap_branch-others rt id j s (ground (arith, eq_iff id j)),
  )
