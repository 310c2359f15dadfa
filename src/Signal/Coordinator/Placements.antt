-- ===== src/Signal/Coordinator/Placements.antt =====
-- What one operation of src/signal/coordinator.rs may put into the map of connections.
use srt_whep.Prelude.{
  String, true, ◌≡◌, refl, sym, ap, ◌∙◌, ◌⊎◌, Option, none, some, [], arith, inl, inr, Bool-cases,
  str_eq, eq_iff,
}
use srt_whep.Prelude.HashMap.{lookup, erase, insert, lookup-erase, lookup-insert, erase_absent}
use srt_whep.Signal.Coordinator.State.{Runtime, ConnectionState, Coordinator}
use srt_whep.Signal.Coordinator.Policy.{deleted, expired, peer_gone, reaped, gone, expired_leg}
use srt_whep.Signal.Coordinator.Terminate.{feed_watchdog, terminate}
use srt_whep.Signal.Coordinator.Handlers.{take_out}
use srt_whep.Signal.Coordinator.Cases.{
  feed_cases, deleted_cases, expired_cases, reaped_cases, peer_gone_cases,
}
use srt_whep.Signal.Coordinator.Accounts.{notify-connections, reset_all-connections}
use srt_whep.Signal.Coordinator.Endings.{erased}
use srt_whep.Signal.Coordinator.Changes.{at}
use srt_whep.Signal.Coordinator.Operations.{detached}

module _ {E : Type 0} where
  -- Each connection is as it was, or in this state.
  pub record Places (o : Option ConnectionState) (s s' : Coordinator E) : Type 0 where
    pub each : (j : String) → (at j s' ≡ at j s) ⊎ (at j s' ≡ o)

  pub kept :
      {o : Option ConnectionState} {s s' : Coordinator E}
      → s'.connections ≡ s.connections
      → Places o s s'
  kept e = record { each = λ j. inl (ap (lookup j) e) }

  pub taken :
      (id : String) (s s' : Coordinator E)
      → s'.connections ≡ erase id s.connections
      → Places none s s'
  taken id s s' e = record {
    each = λ j. elim (Bool-cases (str_eq id j)) [
      | inl same ↦ inr (ap (lookup j) e ∙ ground (arith, lookup-erase id j s.connections))
      | inr other ↦ inl (ap (lookup j) e ∙ ground (arith, lookup-erase id j s.connections))
    ];
  }

  pub emptied : (s s' : Coordinator E) → s'.connections ≡ [] → Places none s s'
  unfolding lookup
  emptied s s' e = record { each = λ j. inr (ap (lookup j) e) }

  pub placed :
      (id : String) (state : ConnectionState) (s s' : Coordinator E)
      → s'.connections ≡ insert id state s.connections
      → Places (some state) s s'
  placed id state s s' e = record {
    each = λ j. elim (Bool-cases (str_eq id j)) [
      | inl same ↦ inr (ap (lookup j) e ∙ ground (arith, lookup-insert id j state s.connections))
      | inr other ↦ inl (ap (lookup j) e ∙ ground (arith, lookup-insert id j state s.connections))
    ];
  }

  pub replaced :
      (id : String) (state : ConnectionState) (s s' : Coordinator E)
      → s'.connections ≡ insert id state (erase id s.connections)
      → Places (some state) s s'
  replaced id state s s' e = record {
    each = λ j. elim (Bool-cases (str_eq id j)) [
      | inl same ↦
          inr (ap (lookup j) e ∙ ground (arith, lookup-insert id j state (erase id s.connections)))
      | inr other ↦ inl (
          ap (lookup j) e
          ∙ ground (
            arith,
            lookup-insert id j state (erase id s.connections),
            lookup-erase id j s.connections,
          ))
    ];
  }

  -- The entry was there in that state before.
  pub restored :
      (id : String) (state : ConnectionState) (s s' : Coordinator E)
      → at id s ≡ some state
      → s'.connections ≡ insert id state (erase id s.connections)
      → Places none s s'
  restored id state s s' found e = record {
    each = λ j. elim (Bool-cases (str_eq id j)) [
      | inl same ↦ inl (
          ap (lookup j) e
          ∙ (ground (arith, lookup-insert id j state (erase id s.connections))
              ∙ (sym found ∙ ap (λ i. lookup i s.connections) ((eq_iff id j).0 same))))
      | inr other ↦ inl (
          ap (lookup j) e
          ∙ ground (
            arith,
            lookup-insert id j state (erase id s.connections),
            lookup-erase id j s.connections,
          ))
    ];
  }

module _ {E : Type 0} (rt : Runtime E) where
  fed : {s s' : Coordinator E} → Places none s s' → Places none s (feed_watchdog rt true s')
  fed {s} {s'} h =
      feed_cases rt (Places none s) s' (λ tripped. emptied s _ (reset_all-connections _))
        (λ counted. record { each = h.each })

  pub deleted-Places :
      (id : String) (s : Coordinator E) → Places none s (terminate rt id deleted s).1
  deleted-Places id s =
      deleted_cases rt (λ o. Places none s o.1) id s (λ absent. taken id s _ refl)
        (λ state e found refused.
          restored id state s _ found (ap (insert id state) (detached rt id (take_out id s))))
        (λ state found done.
          taken id s _ (notify-connections state gone id _ ∙ detached rt id (take_out id s)))

  pub expired-Places :
      (id : String) (s : Coordinator E) → Places none s (terminate rt id expired s).1
  expired-Places id s =
      expired_cases rt (λ o. Places none s o.1) id s (λ absent. taken id s _ refl)
        (λ state found. fed (
          taken id s _
            (detached rt id _ ∙ notify-connections state expired_leg id (take_out id s))))

  pub reaped-Places : (id : String) (s : Coordinator E) → Places none s (terminate rt id reaped s).1
  reaped-Places id s =
      reaped_cases rt (λ o. Places none s o.1) id s (λ absent. taken id s _ refl)
        (λ state found.
          taken id s _ (detached rt id _ ∙ notify-connections state gone id (take_out id s)))

  pub lost-Places :
      (id : String) (s s' : Coordinator E)
      → s'.connections ≡ erase id s.connections
      → Places none s (terminate rt id peer_gone s').1
  lost-Places id s s' c =
      let out : lookup id s'.connections ≡ none = rw c (erased rt 0 id s) in
      peer_gone_cases rt (λ o. Places none s o.1) id s' out
        (fed (
          taken id s _
            (detached rt id (take_out id s') ∙ (erase_absent id s'.connections out ∙ c))))
