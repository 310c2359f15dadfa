-- ===== src/Supervisor/Backoff.antt =====
-- The restart delays of src/supervisor.rs, against the rule that its constants stand for.
use native.Mathlib.Nat.{pow-le-pow_right}
use mathlib.Core.Path.{subst}
use mathlib.Core.List.{append_assoc}
use srt_whep.Prelude.{
  ℕ, zero, suc, ◌+◌, ◌-◌, ◌*◌, ◌^◌, ◌≤◌, min, ◌≡◌, refl, sym, ap, ◌∙◌, arith, leb_cases, Bool,
  if_intro, ◌⊎◌, inl, inr, List, [], ◌∷◌, ◌++◌, Option, none, some, String,
}
use srt_whep.Prelude.Results.{Result, ok, err}
use srt_whep.Signal.Errors.{SignalError}
use srt_whep.Supervisor.{
  Round, Action, Event, RunOutcome, backoff_delay, u32_max, run, count_failures,
  run_pipeline_until_stopped, init_and_run, drain, stop, join, flatten_join, cleanup, initialised,
  run_spawned, run_stopped, ended, quitted, slept, joined_within, aborted_after, cleaned_up,
  reset_within, request_dropped, completed, restart, shutting_down,
}

-- One second, doubled for each failure after the first, and half a minute at most.
abbrev pub doubled : ℕ → ℕ
doubled n = min (2 ^ (n - 1)) 30

capped : (p : ℕ) → min (1 * min (min p u32_max) 64) 30 ≡ min p 30
capped p = omega arith

capped_high : (p : ℕ) → 32 ≤ p → min p 30 ≡ 30
capped_high p h = omega (arith, h)

backoff_delay-doubled : (n : ℕ) → backoff_delay n ≡ doubled n
unfolding backoff_delay
backoff_delay-doubled zero = refl
backoff_delay-doubled (suc zero) = refl
backoff_delay-doubled (suc (suc k)) =
    let e : suc (suc k) - 1 ≡ suc k = omega arith in rw e (capped (2 ^ suc k))

doubled_high : (n : ℕ) → 6 ≤ n → doubled n ≡ 30
doubled_high n h =
    let p : 2 ^ 5 ≤ 2 ^ (n - 1) = pow-le-pow_right (omega arith) {i = 5} (omega (arith, h)) in
    capped_high (2 ^ (n - 1)) p

-- The saturation of the count is out of reach of the delays.
doubled_saturated : (c : ℕ) → doubled (min c u32_max) ≡ doubled c
doubled_saturated c = elim (leb_cases c u32_max) [
  | inl (small, _) ↦ ap doubled (omega (arith, small))
  | inr (large, _) ↦
      doubled_high (min c u32_max) (omega (arith, large))
      ∙ sym (doubled_high c (omega (arith, large)))
]

-- A trace keeps the rule: each sleep lasts as long as the failed runs in a row before it say. A failed
-- run is one that cannot be initialised or that stops by itself with an error; an end of the stream and
-- a restart on request begin anew.
pub data Delays : ℕ → List Action → Type 0 where
  done : {c : ℕ} → Delays c []
  sleeps : {c : ℕ} {b : Bool} {t : List Action} → Delays c t → Delays c (slept (doubled c) b ∷ t)
  fails_init :
      {c : ℕ} {e : String} {t : List Action} → Delays (c + 1) t → Delays c (initialised (err e) ∷ t)
  fails :
      {c : ℕ} {e : String} {t : List Action} → Delays (c + 1) t → Delays c (run_stopped (err e) ∷ t)
  ends : {c : ℕ} {t : List Action} → Delays 0 t → Delays c (run_stopped (ok tt) ∷ t)
  quits : {c : ℕ} {t : List Action} → Delays 0 t → Delays c (quitted ∷ t)
  initialises : {c : ℕ} {t : List Action} → Delays c t → Delays c (initialised (ok tt) ∷ t)
  spawns : {c : ℕ} {t : List Action} → Delays c t → Delays c (run_spawned ∷ t)
  stops : {c : ℕ} {t : List Action} → Delays c t → Delays c (ended ∷ t)
  joins :
      {c d : ℕ} {r : Result (Unit {0}) String} {t : List Action}
      → Delays c t
      → Delays c (joined_within d r ∷ t)
  aborts : {c d : ℕ} {t : List Action} → Delays c t → Delays c (aborted_after d ∷ t)
  cleans :
      {c : ℕ} {r : Result (Unit {0}) String} {t : List Action}
      → Delays c t
      → Delays c (cleaned_up r ∷ t)
  resets :
      {c d : ℕ} {r : Option (Result (Unit {0}) SignalError)} {t : List Action}
      → Delays c t
      → Delays c (reset_within d r ∷ t)
  drops : {c : ℕ} {t : List Action} → Delays c t → Delays c (request_dropped ∷ t)

-- What goes on after an outcome, as a count of failures that is not saturated.
after : ℕ → RunOutcome → ℕ
after c (completed (ok _)) = 0
after c (completed (err e)) = c + 1
after c shutting_down = c
after c restart = 0

join-Delays :
    (j : Option (Result (Result (Unit {0}) String) String)) {c : ℕ} {t : List Action}
    → Delays c t
    → Delays c (join j ++ t)
unfolding join
join-Delays none d = aborts d
join-Delays (some r) d = joins d

drain-Delays : (n : ℕ) {c : ℕ} {t : List Action} → Delays c t → Delays c (drain n ++ t)
unfolding drain
drain-Delays zero d = d
drain-Delays (suc n) d = drops (drain-Delays n d)

stopped-Delays :
    (res : Result (Unit {0}) String) {c : ℕ} {t : List Action}
    → Delays (after c (completed res)) t
    → Delays c (run_stopped res ∷ t)
unfolding after
stopped-Delays (ok tt) d = ends d
stopped-Delays (err e) d = fails d

restart-Delays :
    (j : Option (Result (Result (Unit {0}) String) String)) {c : ℕ} {t : List Action}
    → Delays (after c restart) t
    → Delays c (quitted ∷ join j ++ t)
unfolding after
restart-Delays j d = quits (join-Delays j d)

module _ (is_shut_down : Bool) (stale : ℕ) (j : Option (Result (Result (Unit {0}) String) String))
    (cl : Result (Unit {0}) String) (rs : Option (Result (Unit {0}) SignalError)) (w : Bool) where
  abbrev round : Result (Unit {0}) String → Event → Round
  round i e = record {
    is_shut_down = is_shut_down;
    stale_requests = stale;
    init = i;
    event = e;
    joined = j;
    clean_up = cl;
    reset = rs;
    is_woken = w;
  }

  run_once :
      (i : Result (Unit {0}) String) (e : Event) (c : ℕ) (t : List Action)
      → Delays (after c (init_and_run (round i e)).0) t
      → Delays c ((init_and_run (round i e)).1 ++ t)
  unfolding init_and_run stop after
  run_once (err x) e c t d = fails_init d
  run_once (ok tt) (Event.run_resolved res) c t d =
      initialises (spawns (stopped-Delays (flatten_join res) d))
  run_once (ok tt) Event.shutdown_requested c t d = initialises (spawns (stops (join-Delays j d)))
  run_once (ok tt) Event.restart_received c t d = initialises (spawns (restart-Delays j d))

run_once-Delays :
    (r : Round) (c : ℕ) (t : List Action)
    → Delays (after c (run_pipeline_until_stopped r).0) t
    → Delays c ((run_pipeline_until_stopped r).1 ++ t)
unfolding run_pipeline_until_stopped
run_once-Delays r c t d =
    subst (λ l. Delays c l) (sym (append_assoc (drain r.stale_requests) (init_and_run r).1 t))
      (drain-Delays r.stale_requests (
        run_once r.is_shut_down r.stale_requests r.joined r.clean_up r.reset r.is_woken r.init
          r.event c t d))

counted :
    (o : RunOutcome) (n c : ℕ)
    → n ≡ min c u32_max
    → (count_failures o n ≡ none) ⊎ (count_failures o n ≡ some (min (after c o) u32_max))
unfolding count_failures after
counted (completed (ok tt)) n c e = inr refl
counted (completed (err x)) n c e = inr (ap some (omega (arith, e)))
counted shutting_down n c e = inl refl
counted restart n c e = inr refl

sleep-Delays :
    (n c : ℕ) (b : Bool) {t : List Action}
    → n ≡ min c u32_max
    → Delays c t
    → Delays c (slept (backoff_delay n) b ∷ t)
sleep-Delays n c b e d = rw (e, backoff_delay-doubled, doubled_saturated) (sleeps d)

run-Delays_from : (rounds : List Round) (n c : ℕ) → n ≡ min c u32_max → Delays c (run n rounds)
unfolding run cleanup
run-Delays_from [] n c e = done
run-Delays_from (r ∷ rest) n c e = if_intro (Delays c) r.is_shut_down done (
    run_once-Delays r c _ (
      cleans (
        resets (elim (counted (run_pipeline_until_stopped r).0 n c e) [
          | inl last ↦ rw last done
          | inr more ↦ rw more (
              sleep-Delays _ (after c (run_pipeline_until_stopped r).0) r.is_woken refl
                (if_intro (Delays _) r.is_woken done (run-Delays_from rest _ _ refl)))
        ]))))

-- Whatever happens in the rounds, the supervisor sleeps after each one that goes on for one second,
-- doubled for each failed run in a row after the first and half a minute at most; the cap, the
-- saturating arithmetic and the width of the count have no other effect.
pub run-Delays : (rounds : List Round) → Delays 0 (run 0 rounds)
run-Delays rounds = run-Delays_from rounds 0 0 (omega arith)
