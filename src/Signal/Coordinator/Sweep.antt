-- ===== src/Signal/Coordinator/Sweep.antt =====
-- The expiry sweep of src/signal/coordinator.rs.
use mathlib.Core.Path.{subst}
use srt_whep.Prelude.{
  ℕ, suc, length, ◌+◌, ◌≤◌, String, Bool, true, false, ◌≡◌, refl, ◌∙◌, ap, ◌⊎◌, Option, none, some,
  List, [], ◌∷◌, arith, inl, inr, leb_cases, if◌then◌else◌, ◌||◌, str_eq, eq_iff,
}
use srt_whep.Prelude.HashMap.{lookup, erase, lookup-erase, HasUniqueKeys}
use srt_whep.Signal.Watchdog.{Watchdog, record_failure}
use srt_whep.Signal.Coordinator.State.{
  Runtime, ConnectionState, awaiting_offer, awaiting_answer, established, Coordinator,
}
use srt_whep.Signal.Coordinator.Connection.{deadline, notify}
use srt_whep.Signal.Coordinator.Policy.{expired, expired_leg}
use srt_whep.Signal.Coordinator.Terminate.{remove_branch_bounded, terminate}
use srt_whep.Signal.Coordinator.Handlers.{
  is_expired, expired_ids, expire_all, sweep_expired, take_out,
}
use srt_whep.Signal.Coordinator.Cases.{feed_cases, expired_cases}
use srt_whep.Signal.Coordinator.Accounts.{reset_all-connections, notify-connections}
use srt_whep.Signal.Coordinator.Changes.{at, restarts, Trips, notify-restarts, reset_all-restarts}
use srt_whep.Signal.Coordinator.Operations.{
  fed, detached, remove_branch_bounded-restarts, remove_branch_bounded-watchdog, notify-watchdog,
}

abbrev listed : String → List String → Bool
listed j [] = false
listed j (id ∷ ids) = str_eq id j || listed j ids

-- The expiry of a state that may be absent.
abbrev pub expires : ℕ → Option ConnectionState → Bool
expires now none = false
expires now (some state) = is_expired now state

listed-expired_ids :
    (now : ℕ) (j : String) (m : List (String × ConnectionState))
    → HasUniqueKeys m
    → listed j (expired_ids now m) ≡ expires now (lookup j m)
unfolding expired_ids lookup
listed-expired_ids now j [] u = refl
listed-expired_ids now j ((id, state) ∷ m) (fresh, u) =
    ground (arith, listed-expired_ids now j m u, eq_iff id j)

-- Of that many failures at most, recorded one after the other, each at some instant, one trips the
-- watchdog.
pub data SomeTrips : Watchdog → ℕ → Type 0 where
  trips : {dog : Watchdog} {n : ℕ} → Trips dog → SomeTrips dog (suc n)
  counted :
      {dog : Watchdog} {n : ℕ} (t : ℕ)
      → SomeTrips (record_failure t dog).1 n
      → SomeTrips dog (suc n)
  missed : {dog : Watchdog} {n : ℕ} → SomeTrips dog n → SomeTrips dog (suc n)

-- No failure has been recorded, or one has.
abbrev Told : Watchdog → Watchdog → Type 0
Told dog dog' = (dog' ≡ dog) ⊎ ((t : ℕ) × (dog' ≡ (record_failure t dog).1))

Told-SomeTrips :
    {dog dog' : Watchdog} (n : ℕ) → Told dog dog' → SomeTrips dog' n → SomeTrips dog (suc n)
Told-SomeTrips n (inl same) h = missed (subst (λ d. SomeTrips d n) same h)
Told-SomeTrips n (inr (t, e)) h = counted t (subst (λ d. SomeTrips d n) e h)

-- The listed connections are gone and the others are as they were, or one of the failures trips the
-- watchdog, all are gone and a restart is asked for.
abbrev Swept : {E : Type 0} → List String → Coordinator E → Coordinator E → Type 0
Swept ids s s' =
    (((j : String) → at j s' ≡ (if listed j ids then none else at j s))
      × (restarts s'.log ≡ restarts s.log))
    ⊎ (SomeTrips s.watchdog (length ids)
        × (s'.connections ≡ [])
        × (restarts s'.log ≡ restarts s.log + 1))

-- The same for one connection, with what the watchdog is told.
abbrev SweptOne : {E : Type 0} → String → Coordinator E → Coordinator E → Type 0
SweptOne id s s' =
    (((j : String) → at j s' ≡ (if listed j (id ∷ []) then none else at j s))
      × (restarts s'.log ≡ restarts s.log)
      × Told s.watchdog s'.watchdog)
    ⊎ (Trips s.watchdog × (s'.connections ≡ []) × (restarts s'.log ≡ restarts s.log + 1))

erased-Swept :
    {E : Type 0} (id : String) (s s' : Coordinator E)
    → s'.connections ≡ erase id s.connections
    → restarts s'.log ≡ restarts s.log
    → Told s.watchdog s'.watchdog
    → SweptOne id s s'
erased-Swept id s s' c r dog =
    inl (λ j. rw c (ground (arith, lookup-erase id j s.connections)), r, dog)

module _ {E : Type 0} (rt : Runtime E) where
  -- The state that a sweep has reached when it feeds the watchdog.
  abbrev told : String → ConnectionState → Coordinator E → Coordinator E
  told id state s = (remove_branch_bounded rt id (notify state expired_leg id (take_out id s))).1

  told-connections :
      (id : String) (state : ConnectionState) (s : Coordinator E)
      → (told id state s).connections ≡ erase id s.connections
  told-connections id state s =
      detached rt id _ ∙ notify-connections state expired_leg id (take_out id s)

  told-restarts :
      (id : String) (state : ConnectionState) (s : Coordinator E)
      → restarts (told id state s).log ≡ restarts s.log
  told-restarts id state s =
      remove_branch_bounded-restarts rt id _ ∙ notify-restarts state expired_leg id (take_out id s)

  told-watchdog :
      (id : String) (state : ConnectionState) (s : Coordinator E)
      → (told id state s).watchdog ≡ s.watchdog
  told-watchdog id state s =
      remove_branch_bounded-watchdog rt id _
      ∙ notify-watchdog rt state expired_leg id (take_out id s)

  expire_one : (id : String) (s : Coordinator E) → SweptOne id s (terminate rt id expired s).1
  expire_one id s =
      expired_cases rt (λ r. SweptOne id s r.1) id s
        (λ absent. erased-Swept id s (take_out id s) refl refl (inl refl))
        (λ state found.
          feed_cases rt (SweptOne id s) (told id state s)
            (λ tripped. inr (
              subst Trips (told-watchdog id state s) (rt.now (told id state s).env, tripped),
              reset_all-connections _,
              omega
                  (arith, reset_all-restarts (fed rt (told id state s)), told-restarts id state s),
            ))
            (λ counted.
              erased-Swept id s (fed rt (told id state s)) (told-connections id state s)
                (told-restarts id state s)
                (inr (
                  rt.now (told id state s).env,
                  ap (λ d. (record_failure (rt.now (told id state s).env) d).1)
                      (told-watchdog id state s),
                ))))

  -- Once all are gone, a sweep does nothing more.
  expire_one_empty :
      (id : String) (s : Coordinator E)
      → s.connections ≡ []
      → ((terminate rt id expired s).1.connections ≡ [])
        × (restarts (terminate rt id expired s).1.log ≡ restarts s.log)
  unfolding erase lookup
  expire_one_empty id s e =
      expired_cases rt (λ r. (r.1.connections ≡ []) × (restarts r.1.log ≡ restarts s.log)) id s
        (λ absent. (ap (erase id) e, refl)) (λ state found. cc (ap (lookup id) e))

  expire_all_empty :
      (ids : List String) (s : Coordinator E)
      → s.connections ≡ []
      → ((expire_all rt ids s).connections ≡ [])
        × (restarts (expire_all rt ids s).log ≡ restarts s.log)
  unfolding expire_all
  expire_all_empty [] s e = (e, refl)
  expire_all_empty (id ∷ ids) s e =
      let (c, r) = expire_one_empty id s e in
      let (c', r') = expire_all_empty ids (terminate rt id expired s).1 c in (c', r' ∙ r)

  expire_all-Swept : (ids : List String) (s : Coordinator E) → Swept ids s (expire_all rt ids s)
  unfolding expire_all
  expire_all-Swept [] s = inl (λ j. refl, refl)
  expire_all-Swept (id ∷ ids) s = elim (expire_one id s) [
    | inr (t, c, r) ↦
        let (c', r') = expire_all_empty ids (terminate rt id expired s).1 c in
        inr (trips t, c', omega (arith, r, r'))
    | inl (l, r, dog) ↦ elim (expire_all-Swept ids (terminate rt id expired s).1) [
      | inr (t, c, r') ↦ inr (Told-SomeTrips (length ids) dog t, c, omega (arith, r, r'))
      | inl (l', r') ↦ inl (λ j. ground (arith, l j, l' j), r' ∙ r)
    ]
  ]

-- The handshake leg of a connection has a deadline, and it has passed.
abbrev pub IsOverdue : ℕ → Option ConnectionState → Type 0
IsOverdue now none = ⊥
IsOverdue now (some (awaiting_offer w d)) = d ≤ now
IsOverdue now (some (awaiting_answer w d)) = d ≤ now
IsOverdue now (some (established t)) = ⊥

expires_cases :
    (now : ℕ) (o : Option ConnectionState)
    → (IsOverdue now o × (expires now o ≡ true)) ⊎ ((¬ IsOverdue now o) × (expires now o ≡ false))
unfolding deadline
expires_cases now none = inr (λ h. h, refl)
expires_cases now (some (awaiting_offer w d)) = leb_cases d now
expires_cases now (some (awaiting_answer w d)) = leb_cases d now
expires_cases now (some (established t)) = inr (λ h. h, refl)

-- A sweep ends every connection whose handshake leg is overdue and leaves every other one as it was, an
-- established one whatever its age, and it asks for no restart; or one of the failures that it counts, at most
-- one for each overdue connection, trips the watchdog, then no connection is left and exactly one restart is asked for.
pub sweep_expired_lem :
    {E : Type 0} (rt : Runtime E) (s : Coordinator E)
    → HasUniqueKeys s.connections
    → let s' = sweep_expired rt s in
      (((j : String)
          → (IsOverdue (rt.now s.env) (at j s) × (at j s' ≡ none))
            ⊎ ((¬ IsOverdue (rt.now s.env) (at j s)) × (at j s' ≡ at j s)))
        × (restarts s'.log ≡ restarts s.log))
      ⊎ (SomeTrips s.watchdog (length (expired_ids (rt.now s.env) s.connections))
          × (s'.connections ≡ [])
          × (restarts s'.log ≡ restarts s.log + 1))
unfolding sweep_expired
sweep_expired_lem rt s u = elim (expire_all-Swept rt (expired_ids (rt.now s.env) s.connections) s) [
  | inr gone_all ↦ inr gone_all
  | inl (l, r) ↦ inl (
    λ j. elim (expires_cases (rt.now s.env) (at j s)) [
      | inl (late, e) ↦
          inl (late, ground (arith, l j, e, listed-expired_ids (rt.now s.env) j s.connections u))
      | inr (early, e) ↦
          inr (early, ground (arith, l j, e, listed-expired_ids (rt.now s.env) j s.connections u))
    ],
    r,
  )
]
