-- ===== src/Supervisor/Order.antt =====
-- The order of the supervisor's actions in src/supervisor.rs, as an automaton that follows a trace.
use mathlib.Core.Path.{subst}
use mathlib.Core.List.{append_assoc}
use srt_whep.Prelude.{
  ℕ, zero, suc, ◌≡◌, refl, sym, ap, ◌∙◌, Bool, if_intro, if◌then◌else◌, true, false, ◌⊎◌, inl, inr,
  List, [], ◌∷◌, ◌++◌, Option, none, some, String,
}
use srt_whep.Prelude.Results.{Result, ok, err}
use srt_whep.Signal.Errors.{SignalError}
use srt_whep.Supervisor.{
  Round, Action, Event, RunOutcome, run, count_failures, run_pipeline_until_stopped, init_and_run,
  drain, stop, backoff_delay, join, cleanup, initialised, run_spawned, run_stopped, ended, quitted,
  slept, joined_within, aborted_after, cleaned_up, reset_within, request_dropped, completed,
  restart, shutting_down,
}

-- Where the pipeline stands. The flag says that the shutdown has been asked for.
pub data Phase : Type 0 where
  idle : Phase
  initial : Phase
  running : Phase
  stopping : Bool → Phase
  halted : Bool → Phase
  cleaned : Bool → Phase
  due : Phase
  over : Phase

-- The one order of actions: stale requests are dropped and the pipeline initialised only when it is
-- idle; a run that was ended or quitted is joined or aborted; whatever stopped is cleaned up, then the
-- signalling is reset, and then the supervisor sleeps once, or ends if the shutdown was asked for.
unfoldable pub next : Phase → Action → Option Phase
next idle request_dropped = some idle
next idle (initialised (ok _)) = some initial
next idle (initialised (err e)) = some (halted false)
next initial run_spawned = some running
next running (run_stopped r) = some (halted false)
next running ended = some (stopping true)
next running quitted = some (stopping false)
next (stopping b) (joined_within d r) = some (halted b)
next (stopping b) (aborted_after d) = some (halted b)
next (halted b) (cleaned_up r) = some (cleaned b)
next (cleaned true) (reset_within d r) = some over
next (cleaned false) (reset_within d r) = some due
next due (slept d woken) = some (if woken then over else idle)
next p a = none

pub follow : Phase → List Action → Option Phase
follow p [] = some p
follow p (a ∷ t) = elim (next p a) [ none ↦ none | some q ↦ follow q t ]

follow-join :
    (j : Option (Result (Result (Unit {0}) String) String)) (b : Bool) (t : List Action)
    → follow (stopping b) (join j ++ t) ≡ follow (halted b) t
unfolding follow next join
follow-join none b t = refl
follow-join (some r) b t = refl

follow-drain : (n : ℕ) (t : List Action) → follow idle (drain n ++ t) ≡ follow idle t
unfolding follow next drain
follow-drain zero t = refl
follow-drain (suc n) t = follow-drain n t

is_final : RunOutcome → Bool
is_final (completed r) = false
is_final shutting_down = true
is_final restart = false

module _ (is_shut_down : Bool) (stale : ℕ) (j : Option (Result (Result (Unit {0}) String) String))
    (cl : Result (Unit {0}) String) (rs : Option (Result (Unit {0}) SignalError)) (w : Bool) where
  abbrev round : Result (Unit {0}) String → Event → Round
  round i e = record {
    is_shut_down = is_shut_down;
    stale_requests = stale;
    init = i;
    event = e;
    joined = j;
    clean_up = cl;
    reset = rs;
    is_woken = w;
  }

  follow-init_and_run :
      (i : Result (Unit {0}) String) (e : Event) (t : List Action)
      → follow idle ((init_and_run (round i e)).1 ++ t)
        ≡ follow (halted (is_final (init_and_run (round i e)).0)) t
  unfolding init_and_run stop is_final follow next
  follow-init_and_run (err x) e t = refl
  follow-init_and_run (ok tt) (Event.run_resolved res) t = refl
  follow-init_and_run (ok tt) Event.shutdown_requested t = follow-join j true t
  follow-init_and_run (ok tt) Event.restart_received t = follow-join j false t

follow-run_pipeline_until_stopped :
    (r : Round) (t : List Action)
    → follow idle ((run_pipeline_until_stopped r).1 ++ t)
      ≡ follow (halted (is_final (run_pipeline_until_stopped r).0)) t
unfolding run_pipeline_until_stopped
follow-run_pipeline_until_stopped r t =
    ap (follow idle) (append_assoc (drain r.stale_requests) (init_and_run r).1 t)
    ∙ (follow-drain r.stale_requests ((init_and_run r).1 ++ t)
        ∙ follow-init_and_run r.is_shut_down r.stale_requests r.joined r.clean_up r.reset r.is_woken
            r.init r.event t)

counted :
    (o : RunOutcome) (n : ℕ)
    → ((is_final o ≡ true) × (count_failures o n ≡ none))
      ⊎ ((is_final o ≡ false) × (n' : ℕ) × (count_failures o n ≡ some n'))
unfolding count_failures is_final
counted (completed (ok tt)) n = inr (refl, 0, refl)
counted (completed (err x)) n = inr (refl, _, refl)
counted shutting_down n = inl (refl, refl)
counted restart n = inr (refl, 0, refl)

abbrev pub Ends : List Action → Type 0
Ends t = (follow idle t ≡ some idle) ⊎ (follow idle t ≡ some over)

follow-cleanup :
    (r : Round) (b : Bool) (t : List Action)
    → follow (halted b) (cleanup r ++ t) ≡ follow (if b then over else due) t
unfolding follow next cleanup
follow-cleanup r true t = refl
follow-cleanup r false t = refl

follow-slept :
    (d : ℕ) (b : Bool) (t : List Action)
    → follow due (slept d b ∷ (if b then [] else t)) ≡ (if b then some over else follow idle t)
unfolding follow next
follow-slept d true t = refl
follow-slept d false t = refl

follow-turn :
    (r : Round) (t : List Action)
    → follow idle ((run_pipeline_until_stopped r).1 ++ (cleanup r ++ t))
      ≡ follow (if is_final (run_pipeline_until_stopped r).0 then over else due) t
follow-turn r t =
    follow-run_pipeline_until_stopped r (cleanup r ++ t)
    ∙ follow-cleanup r (is_final (run_pipeline_until_stopped r).0) t

-- Whatever happens in the rounds, the supervisor's actions keep the order of `next`: it initialises only
-- a pipeline that is idle, joins or aborts a run that it ended or quitted, cleans up after every run and
-- every failed initialisation, then resets the signalling, before it sleeps and goes on; after the
-- shutdown it does nothing more. When the rounds are over, the pipeline is idle or all is over.
pub run-Ends : (rounds : List Round) (n : ℕ) → Ends (run n rounds)
unfolding run follow
run-Ends [] n = inl refl
run-Ends (r ∷ rest) n =
    if_intro Ends r.is_shut_down (inl refl) (elim (counted (run_pipeline_until_stopped r).0 n) [
      | inl (final, last) ↦ inr (rw last (follow-turn r [] ∙ rw final refl))
      | inr (on, n', more) ↦ rw more (
          subst (λ o. (o ≡ some idle) ⊎ (o ≡ some over))
            (sym
              (follow-turn r _ ∙ rw on (follow-slept (backoff_delay n') r.is_woken (run n' rest))))
            (if_intro (λ o. (o ≡ some idle) ⊎ (o ≡ some over)) r.is_woken (inr refl)
              (run-Ends rest n')))
    ])
