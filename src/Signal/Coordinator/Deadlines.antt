-- ===== src/Signal/Coordinator/Deadlines.antt =====
-- The deadlines of the parked requests of src/signal/coordinator.rs, against the clock.
use mathlib.Core.Path.{subst}
use mathlib.Core.Option.{some-injective}
use srt_whep.Prelude.{
  ℕ, ◌+◌, ◌≤◌, String, ◌≡◌, refl, sym, ap, ◌∙◌, Option, none, some, List, [], ◌∷◌, arith, inl, inr,
  Option-cases,
}
use srt_whep.Prelude.HashMap.{lookup, insert, HasUniqueKeys}
use srt_whep.Domain.{SdpOffer, SdpAnswer}
use srt_whep.Signal.Messages.{
  Command, create_connection, offer_received, answer_received, remove_connection, list_connections,
  reset,
}
use srt_whep.Signal.Coordinator.Config.{CoordinatorConfig}
use srt_whep.Signal.Coordinator.State.{
  Runtime, ConnectionState, awaiting_offer, awaiting_answer, established, Coordinator, init,
}
use srt_whep.Signal.Coordinator.Policy.{expired}
use srt_whep.Signal.Coordinator.Terminate.{terminate}
use srt_whep.Signal.Coordinator.Handlers.{
  on_create, on_offer, on_answer, on_remove, reset_signal, handle, expire_all, sweep_expired,
  reap_branch,
}
use srt_whep.Signal.Coordinator.Loop.{Wakeup, mailbox, branch_failure, sweep_tick, wake, run}
use srt_whep.Signal.Coordinator.Legs.{create_cases, offer_cases, answer_cases}
use srt_whep.Signal.Coordinator.Accounts.{reset_all-connections}
use srt_whep.Signal.Coordinator.Changes.{at}
use srt_whep.Signal.Coordinator.Replies.{add_branch_bounded-connections}
use srt_whep.Signal.Coordinator.Sweep.{IsOverdue, sweep_expired_lem}
use srt_whep.Signal.Coordinator.Replies.{run-init_balanced}
use srt_whep.Signal.Coordinator.Placements.{
  Places, kept, emptied, placed, replaced, restored, deleted-Places, expired-Places, reaped-Places,
  lost-Places,
}
use srt_whep.Signal.Coordinator.Timing.{IsMonotonic}
use srt_whep.Signal.Coordinator.Advancing.{wake-Advances}

-- The leg's deadline is no further ahead than its limit.
abbrev pub Within : ℕ → CoordinatorConfig → Option ConnectionState → Type 0
Within now c none = Unit
Within now c (some (awaiting_offer r d)) = d ≤ now + c.offer_timeout
Within now c (some (awaiting_answer r d)) = d ≤ now + c.answer_timeout
Within now c (some (established t)) = Unit

Within-later :
    (now now' : ℕ) (c : CoordinatorConfig) (o : Option ConnectionState)
    → now ≤ now'
    → Within now c o
    → Within now' c o
Within-later now now' c none l h = tt
Within-later now now' c (some (awaiting_offer r d)) l h = omega (arith, l, h)
Within-later now now' c (some (awaiting_answer r d)) l h = omega (arith, l, h)
Within-later now now' c (some (established t)) l h = tt

module _ {E : Type 0} (rt : Runtime E) where
  -- One state is placed, if any, and its deadline is no further ahead than its limit.
  record Placed (s s' : Coordinator E) : Type 0 where
    state : Option ConnectionState
    places : Places state s s'
    fits : Within (rt.now s'.env) s'.config state

  ended : {s s' : Coordinator E} → Places none s s' → Placed s s'
  ended h = record { state = none; places = h; fits = tt }

  create-Placed : (id : String) (reply : ℕ) (s : Coordinator E) → Placed s (on_create rt id reply s)
  create-Placed id reply s =
      create_cases rt (Placed s) id reply s (λ state found. ended (kept refl))
        (λ e absent refused. ended (kept (add_branch_bounded-connections rt 0 id s)))
        (λ absent added. record {
          state = some _;
          places = placed id _ s _ (ap (insert id _) (add_branch_bounded-connections rt 0 id s));
          fits = omega arith;
        })

  offer-Placed :
      (id : String) (sdp : SdpOffer) (reply : ℕ) (s : Coordinator E)
      → Placed s (on_offer rt id sdp reply s)
  offer-Placed id sdp reply s =
      offer_cases rt (Placed s) id sdp reply s (λ absent. ended (kept refl))
        (λ state found other. ended (restored id state s _ found refl))
        (λ w d found arrives. record {
          state = some _;
          places = replaced id _ s _ refl;
          fits = omega arith;
        })
        (λ w d found lost. ended (lost-Places rt id s _ refl))

  answer-Placed :
      (id : String) (sdp : SdpAnswer) (reply : ℕ) (s : Coordinator E)
      → Placed s (on_answer rt id sdp reply s)
  answer-Placed id sdp reply s =
      answer_cases rt (Placed s) id sdp reply s (λ absent. ended (kept refl))
        (λ state found other. ended (restored id state s _ found refl))
        (λ w d found arrives. record {
          state = some (established (rt.now s.env));
          places = replaced id (established (rt.now s.env)) s _ refl;
          fits = tt;
        })
        (λ w d found lost. ended (lost-Places rt id s _ refl))

  reap-Placed : (id : String) (s : Coordinator E) → Placed s (reap_branch rt id s)
  unfolding reap_branch
  reap-Placed id s = elim (Option-cases (lookup id s.connections)) [
    | inl e ↦ rw (e, reap_branch) (ended (kept refl))
    | inr (state, e) ↦ rw (e, reap_branch) (ended (reaped-Places rt id s))
  ]

  handle-Placed : (cmd : Command) (s : Coordinator E) → Placed s (handle rt cmd s)
  unfolding handle on_remove reset_signal
  handle-Placed (create_connection id reply) s = create-Placed id reply s
  handle-Placed (offer_received id sdp reply) s = offer-Placed id sdp reply s
  handle-Placed (answer_received id sdp reply) s = answer-Placed id sdp reply s
  handle-Placed (remove_connection id reply) s =
      ended (record { each = (deleted-Places rt id s).each })
  handle-Placed (list_connections reply) s = ended (kept refl)
  handle-Placed (reset reply) s = ended (emptied s _ (reset_all-connections s))

  expire_all-Places : (ids : List String) (s : Coordinator E) → Places none s (expire_all rt ids s)
  unfolding expire_all
  expire_all-Places [] s = kept refl
  expire_all-Places (id ∷ ids) s = record {
    each = λ j. elim ((expire_all-Places ids (terminate rt id expired s).1).each j) [
      | inr out ↦ inr out
      | inl same ↦ elim ((expired-Places rt id s).each j) [
        | inr out ↦ inr (same ∙ out)
        | inl same' ↦ inl (same ∙ same')
      ]
    ];
  }

  wake-Placed : (w : Wakeup) (s s' : Coordinator E) → wake rt w s ≡ some s' → Placed s s'
  unfolding wake sweep_expired
  wake-Placed (mailbox (some cmd)) s s' e =
      subst (Placed s) (some-injective (handle rt cmd s) s' e) (handle-Placed cmd s)
  wake-Placed (mailbox none) s s' e = cc e
  wake-Placed (branch_failure branch) s s' e =
      subst (Placed s) (some-injective (reap_branch rt branch.id s) s' e) (reap-Placed branch.id s)
  wake-Placed sweep_tick s s' e =
      subst (Placed s) (some-injective (sweep_expired rt s) s' e) (ended (expire_all-Places _ s))

  -- Every parked request has a deadline, no further ahead than its leg's limit.
  pub record InTime (s : Coordinator E) : Type 0 where
    pub each : (j : String) → Within (rt.now s.env) s.config (at j s)

  wake-InTime :
      IsMonotonic rt
      → (w : Wakeup) (s s' : Coordinator E) → wake rt w s ≡ some s'
      → InTime s
      → InTime s'
  wake-InTime T w s s' e h = record {
    each = λ j.
        let spent = wake-Advances rt T w s s' e in
        let p = wake-Placed w s s' e in
        elim (p.places.each j) [
          | inr new ↦ subst (Within (rt.now s'.env) s'.config) (sym new) p.fits
          | inl same ↦ subst (Within (rt.now s'.env) s'.config) (sym same) (
              subst (λ c. Within (rt.now s'.env) c (at j s)) (sym spent.config)
                (Within-later (rt.now s.env) (rt.now s'.env) s.config (at j s) spent.forth
                  (h.each j)))
        ];
  }

  -- A schedule along which time does not run backwards.
  pub data Forward : List (E × Wakeup) → Coordinator E → Type 0 where
    done : {s : Coordinator E} → Forward [] s
    stops :
        {env : E} {w : Wakeup} {rest : List (E × Wakeup)} {s : Coordinator E}
        → rt.now s.env ≤ rt.now env
        → wake rt w (record s { env = env }) ≡ none
        → Forward ((env, w) ∷ rest) s
    goes :
        {env : E} {w : Wakeup} {rest : List (E × Wakeup)} {s s' : Coordinator E}
        → rt.now s.env ≤ rt.now env
        → wake rt w (record s { env = env }) ≡ some s'
        → Forward rest s'
        → Forward ((env, w) ∷ rest) s

  later-InTime :
      (s : Coordinator E) (env : E)
      → rt.now s.env ≤ rt.now env
      → InTime s
      → InTime (record s { env = env })
  later-InTime s env l h = record {
    each = λ j. Within-later (rt.now s.env) (rt.now env) s.config (at j s) l (h.each j);
  }

  run-InTime :
      IsMonotonic rt
      → {sched : List (E × Wakeup)} {s : Coordinator E} → Forward sched s
      → InTime s
      → InTime (run rt sched s)
  unfolding run
  run-InTime T done h = h
  run-InTime T {s = s} (stops {env} {w} {rest} l e) h = rw (e, run) h
  run-InTime T {s = s} (goes {env} {w} {rest} {s' = s'} l e f) h =
      rw (e, run)
        (run-InTime T f (wake-InTime T w (record s { env = env }) s' e (later-InTime s env l h)))

  -- The deadline has not passed, and is no further ahead than the leg's limit.
  abbrev pub InWindow : ℕ → Coordinator E → Option ConnectionState → Type 0
  InWindow t s o = (¬ IsOverdue t o) × Within (rt.now s.env) s.config o

  swept-InWindow :
      (s : Coordinator E)
      → HasUniqueKeys s.connections
      → InTime (sweep_expired rt s)
      → (j : String) → InWindow (rt.now s.env) (sweep_expired rt s) (at j (sweep_expired rt s))
  unfolding lookup
  swept-InWindow s u h j = elim (sweep_expired_lem rt s u) [
    | inr (t, all, r) ↦
        (subst (λ o. ¬ IsOverdue (rt.now s.env) o) (sym (ap (lookup j) all)) (λ x. x), h.each j)
    | inl (l, r) ↦ elim (l j) [
      | inl (late, out) ↦ (subst (λ o. ¬ IsOverdue (rt.now s.env) o) (sym out) (λ x. x), h.each j)
      | inr (early, same) ↦ (subst (λ o. ¬ IsOverdue (rt.now s.env) o) (sym same) early, h.each j)
    ]
  ]

-- From the start, along any schedule on which time does not run backwards, however long the calls of the
-- pipeline take: after a sweep no request is parked whose deadline had passed when the
-- sweep began, and none whose deadline is further ahead of the clock than the limit of its leg.
pub sweep_expired-run :
    {E : Type 0} (rt : Runtime E)
    → IsMonotonic rt
    → (env : E) (config : CoordinatorConfig) (sched : List (E × Wakeup))
    → Forward rt sched (init env config)
    → (w : E) → rt.now (run rt sched (init env config)).env ≤ rt.now w
    → (j : String)
    → let s = sweep_expired rt (record (run rt sched (init env config)) { env = w }) in
      InWindow rt (rt.now w) s (at j s)
unfolding wake init lookup
sweep_expired-run rt T env config sched f w l j =
    let s = run rt sched (init env config) in
    let begun : InTime rt (init env config) = record { each = λ k. tt } in
    let ready = later-InTime rt s w l (run-InTime rt T f begun) in
    swept-InWindow rt (record s { env = w }) (run-init_balanced rt env config sched).0
      (wake-InTime rt T sweep_tick (record s { env = w }) _ refl ready) j
