-- ===== src/Supervisor/Shutdown.antt =====
-- How src/supervisor.rs ends once the shutdown has been asked for.
use mathlib.Core.List.{append_assoc}
use mathlib.Core.Path.{subst}
use srt_whep.Prelude.{
  ℕ, zero, suc, ◌+◌, ◌≤◌, ◌≡◌, refl, sym, ap, Bool, true, if_intro, List, [], ◌∷◌, ◌++◌, arith, inl,
  inr, Option, none, some, String, Option-cases,
}
use srt_whep.Prelude.Results.{Result, ok, err}
use srt_whep.Signal.Errors.{SignalError}
use srt_whep.Supervisor.{
  Round, Action, Event, run, count_failures, run_pipeline_until_stopped, init_and_run, drain, stop,
  join, cleanup, ended, shutting_down, shutdown_join_timeout, reset_timeout,
}
use srt_whep.Supervisor.Downtime.{total}

-- The shutdown shows in this round: before it, while the run is up, or during the sleep.
pub data IsAsked (r : Round) : Type 0 where
  at_start : r.is_shut_down ≡ true → IsAsked r
  at_run : r.init ≡ ok tt → r.event ≡ Event.shutdown_requested → IsAsked r
  at_sleep : r.is_woken ≡ true → IsAsked r

-- After the end of the stream has been sent, the waits add up to no more than this.
abbrev pub Prompt : ℕ → List Action → Type 0
Prompt most [] = Unit
Prompt most (ended ∷ t) = total t ≤ most
Prompt most (a ∷ t) = Prompt most t

asked_last :
    (r : Round) (n : ℕ)
    → r.init ≡ ok tt
    → r.event ≡ Event.shutdown_requested
    → count_failures (run_pipeline_until_stopped r).0 n ≡ none
unfolding run_pipeline_until_stopped init_and_run stop count_failures
asked_last r n i e = rw (i, init_and_run) (rw (e, stop) refl)

-- The rounds after one in which the shutdown shows do not matter.
asked-run : (r : Round) (rest : List Round) (n : ℕ) → IsAsked r → run n (r ∷ rest) ≡ run n (r ∷ [])
unfolding run
asked-run r rest n (at_start e) = rw (e, run) refl
asked-run r rest n (at_run i e) = rw (asked_last r n i e, run) refl
asked-run r rest n (at_sleep e) =
    elim (Option-cases (count_failures (run_pipeline_until_stopped r).0 n)) [
      | inl last ↦ rw (last, run) refl
      | inr (n', more) ↦ rw (more, run) (rw (e, run) refl)
    ]

before-run :
    (before rest : List Round) (r : Round) (n : ℕ)
    → IsAsked r
    → run n (before ++ (r ∷ rest)) ≡ run n (before ++ (r ∷ []))
unfolding run
before-run [] rest r n a = asked-run r rest n a
before-run (x ∷ before) rest r n a =
    elim (Option-cases (count_failures (run_pipeline_until_stopped x).0 n)) [
      | inl last ↦ rw (last, run) refl
      | inr (n', more) ↦ rw (more, run) (rw (before-run before rest r n' a, run) refl)
    ]

drain-Prompt : (n most : ℕ) (t : List Action) → Prompt most t → Prompt most (drain n ++ t)
unfolding drain
drain-Prompt zero most t h = h
drain-Prompt (suc n) most t h = drain-Prompt n most t h

join-Prompt :
    (j : Option (Result (Result (Unit {0}) String) String)) (most : ℕ) (t : List Action)
    → Prompt most t
    → Prompt most (join j ++ t)
unfolding join
join-Prompt none most t h = h
join-Prompt (some r) most t h = h

join-total :
    (j : Option (Result (Result (Unit {0}) String) String)) (t : List Action)
    → total t ≤ 5
    → total (join j ++ t) ≤ 10
unfolding join
join-total none t h = omega (arith, h)
join-total (some r) t h = omega (arith, h)

module _ (is_shut_down : Bool) (stale : ℕ) (j : Option (Result (Result (Unit {0}) String) String))
    (cl : Result (Unit {0}) String) (rs : Option (Result (Unit {0}) SignalError)) (w : Bool) where
  abbrev round : Result (Unit {0}) String → Event → Round
  round i e = record {
    is_shut_down = is_shut_down;
    stale_requests = stale;
    init = i;
    event = e;
    joined = j;
    clean_up = cl;
    reset = rs;
    is_woken = w;
  }

  init_and_run-Prompt :
      (i : Result (Unit {0}) String) (e : Event) (t : List Action)
      → ((init_and_run (round i e)).0 ≡ shutting_down → total t ≤ 5)
      → Prompt 10 t
      → Prompt 10 ((init_and_run (round i e)).1 ++ t)
  unfolding init_and_run stop
  init_and_run-Prompt (err x) e t last h = h
  init_and_run-Prompt (ok tt) (Event.run_resolved res) t last h = h
  init_and_run-Prompt (ok tt) Event.shutdown_requested t last h = join-total j t (last refl)
  init_and_run-Prompt (ok tt) Event.restart_received t last h = join-Prompt j 10 t h

turn-Prompt :
    (r : Round) (t : List Action)
    → ((run_pipeline_until_stopped r).0 ≡ shutting_down → total t ≤ 5)
    → Prompt 10 t
    → Prompt 10 ((run_pipeline_until_stopped r).1 ++ t)
unfolding run_pipeline_until_stopped
turn-Prompt r t last h =
    subst (Prompt 10) (sym (append_assoc (drain r.stale_requests) (init_and_run r).1 t)) (
      drain-Prompt r.stale_requests 10 _ (
        init_and_run-Prompt r.is_shut_down r.stale_requests r.joined r.clean_up r.reset r.is_woken
          r.init r.event t last h))

run-Prompt : (rounds : List Round) (n : ℕ) → Prompt 10 (run n rounds)
unfolding run cleanup count_failures
run-Prompt [] n = tt
run-Prompt (r ∷ rest) n =
    if_intro (Prompt 10) r.is_shut_down tt
      (elim (Option-cases (count_failures (run_pipeline_until_stopped r).0 n)) [
        | inl last ↦ rw (last, run) (turn-Prompt r _ (λ e. omega arith) tt)
        | inr (n', more) ↦
            rw (more, run)
              (turn-Prompt r _ (λ e. cc (ap (λ o. count_failures o n) e, more))
                (if_intro (Prompt 10) r.is_woken tt (run-Prompt rest n')))
      ])

-- The supervisor ends in the first round in which the shutdown shows, be it before the round, while the
-- run is up or during the sleep: whatever would come after that round makes no difference. Once it has
-- sent the end of the stream, the waits for which it sets a limit, the join and the reset, take no longer
-- than these limits together; the pipeline's own clean-up between them, which has no limit, is not counted.
pub run-ends :
    (before rest : List Round) (r : Round) (n : ℕ)
    → IsAsked r
    → (run n (before ++ (r ∷ rest)) ≡ run n (before ++ (r ∷ [])))
      × Prompt (shutdown_join_timeout + reset_timeout) (run n (before ++ (r ∷ rest)))
run-ends before rest r n a = (before-run before rest r n a, run-Prompt _ n)
