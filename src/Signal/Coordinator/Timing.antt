-- ===== src/Signal/Coordinator/Timing.antt =====
-- The clock of src/signal/coordinator.rs, which no part of an operation turns back.
use mathlib.Core.Path.{subst}
use srt_whep.Prelude.{ℕ, ◌≤◌, String, true, ◌≡◌, refl, sym, ◌∙◌, List, [], ◌∷◌, arith}
use srt_whep.Signal.Coordinator.State.{Runtime, ConnectionState, Coordinator}
use srt_whep.Signal.Coordinator.Policy.{WaiterNotice, unavailable}
use srt_whep.Signal.Coordinator.Connection.{notify}
use srt_whep.Signal.Coordinator.Terminate.{notify_all, reset_all, feed_watchdog}
use srt_whep.Signal.Coordinator.Cases.{feed_cases}

-- The clock is that of `Instant`, which does not run backwards, whatever the pipeline does meanwhile.
pub record IsMonotonic {E : Type 0} (rt : Runtime E) : Type 0 where
  pub adds : (limit : ℕ) (id : String) (w : E) → rt.now w ≤ rt.now (rt.add_branch limit id w).1
  pub removes :
      (limit : ℕ) (id : String) (w : E) → rt.now w ≤ rt.now (rt.remove_branch limit id w).1

module _ {E : Type 0} (rt : Runtime E) where
  -- The clock has not gone back, and the configuration is the same.
  pub record Advances (s s' : Coordinator E) : Type 0 where
    pub config : s'.config ≡ s.config
    pub forth : rt.now s.env ≤ rt.now s'.env

  pub Advances-trans : {s u v : Coordinator E} → Advances s u → Advances u v → Advances s v
  Advances-trans {s} {u} {v} a b = record {
    config = b.config ∙ a.config;
    forth = omega (arith, a.forth, b.forth);
  }

  -- Neither the clock nor the configuration is touched.
  pub still : {s s' : Coordinator E} → s'.env ≡ s.env → s'.config ≡ s.config → Advances s s'
  still {s} {s'} e c = record {
    config = c;
    forth = subst (λ w. rt.now s.env ≤ rt.now w) (sym e) (omega arith);
  }

  -- At one end of it, a part that touches neither.
  pub before :
      {s u v : Coordinator E} → u.env ≡ s.env → u.config ≡ s.config → Advances u v → Advances s v
  before {s} {u} {v} e c h = Advances-trans {s = s} {u = u} (still {s = s} {s' = u} e c) h

  pub after :
      {s u v : Coordinator E} → Advances s u → v.env ≡ u.env → v.config ≡ u.config → Advances s v
  after {s} {u} {v} h e c = Advances-trans {s = s} {u = u} h (still {s = u} {s' = v} e c)

  pub notify_still :
      (state : ConnectionState) (n : WaiterNotice) (id : String) (s : Coordinator E)
      → ((notify state n id s).env ≡ s.env) × ((notify state n id s).config ≡ s.config)
  unfolding notify
  notify_still state n id s = (ground arith, ground arith)

  notify_all_still :
      (n : WaiterNotice) (m : List (String × ConnectionState)) (s : Coordinator E)
      → ((notify_all n m s).env ≡ s.env) × ((notify_all n m s).config ≡ s.config)
  unfolding notify_all
  notify_all_still n [] s = (refl, refl)
  notify_all_still n ((id, state) ∷ m) s =
      let (e, c) = notify_still state n id s in
      let (e', c') = notify_all_still n m (notify state n id s) in (e' ∙ e, c' ∙ c)

  pub reset_all_still :
      (s : Coordinator E) → ((reset_all s).env ≡ s.env) × ((reset_all s).config ≡ s.config)
  unfolding reset_all
  reset_all_still s = notify_all_still unavailable s.connections (record s { connections = [] })

  pub fed_still :
      (s : Coordinator E)
      → ((feed_watchdog rt true s).env ≡ s.env) × ((feed_watchdog rt true s).config ≡ s.config)
  fed_still s =
      feed_cases rt (λ c. (c.env ≡ s.env) × (c.config ≡ s.config)) s (λ tripped. reset_all_still _)
        (λ counted. (refl, refl))
