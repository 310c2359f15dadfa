-- ===== src/Signal/Coordinator/Deletion.antt =====
-- The client's DELETE in src/signal/coordinator.rs: what its reply says of the map.
use srt_whep.Prelude.{
  String, ◌≡◌, refl, ◌≢◌, ◌⊎◌, Option, none, some, Option-cases, List, arith, inl, inr, ◌∙◌, ap,
  if◌then◌else◌, str_eq, eq_iff,
}
use srt_whep.Prelude.Results.{Result, ok, err, Result-cases}
use mathlib.Core.Path.{subst}
use srt_whep.Stream.Errors.{PipelineError}
use srt_whep.Prelude.HashMap.{lookup, erase, insert, lookup-erase, lookup-insert}
use srt_whep.Signal.Errors.{SignalError, from_pipeline}
use srt_whep.Signal.Coordinator.State.{Runtime, ConnectionState, Coordinator}
use srt_whep.Signal.Coordinator.Policy.{deleted, gone}
use srt_whep.Signal.Coordinator.Terminate.{remove_branch_bounded, terminate}
use srt_whep.Signal.Coordinator.Handlers.{take_out}
use srt_whep.Signal.Coordinator.Cases.{deleted_cases}
use srt_whep.Signal.Coordinator.Accounts.{notify-connections}
use srt_whep.Signal.Coordinator.Changes.{at}
use srt_whep.Signal.Coordinator.Operations.{detached}

module _ {E : Type 0} (rt : Runtime E) where
  -- No failure of the pipeline reads as an unknown id.
  remove_branch_bounded-ne-not_found :
      (id i : String) (s : Coordinator E)
      → (remove_branch_bounded rt id s).0 ≢ err (SignalError.not_found i)
  unfolding remove_branch_bounded from_pipeline
  remove_branch_bounded-ne-not_found id i s = ground arith

  restored :
      (id : String) (s : Coordinator E) (state : ConnectionState)
      (m : List (String × ConnectionState))
      → at id s ≡ some state
      → m ≡ erase id s.connections
      → (j : String) → lookup j (insert id state m) ≡ at j s
  restored id s state m found e j = rw e (
      ground (
        arith,
        lookup-insert id j state (erase id s.connections),
        lookup-erase id j s.connections,
        eq_iff id j,
      ))

  -- What the pipeline answers when it is asked to detach the branch, `none` being the end of its time.
  abbrev pub answer : String → Coordinator E → Option (Result (Unit {0}) PipelineError)
  answer id s = (rt.remove_branch (s.config.teardown_timeout) id s.env).0

  -- The error in which the client sees that answer.
  abbrev pub Refuses : Option (Result (Unit {0}) PipelineError) → SignalError → Type 0
  Refuses o e =
      ((x : PipelineError) × (o ≡ some (err x)) × (e ≡ from_pipeline x))
      ⊎ ((o ≡ none) × (e ≡ SignalError.pipeline_busy "branch teardown timed out"))

  answered :
      (id : String) (s : Coordinator E)
      → ((answer id s ≡ some (ok tt)) × ((remove_branch_bounded rt id (take_out id s)).0 ≡ ok tt))
        ⊎ ((e : SignalError) × Refuses (answer id s) e
            × ((remove_branch_bounded rt id (take_out id s)).0 ≡ err e))
  unfolding remove_branch_bounded
  answered id s = elim (Option-cases (answer id s)) [
    | inl late ↦ inr (
      SignalError.pipeline_busy "branch teardown timed out",
      inr (late, refl),
      ground (arith, late),
    )
    | inr (r, e) ↦ elim (Result-cases r) [
      | inl (_, fine) ↦
          let done : answer id s ≡ some (ok tt) = e ∙ ap some fine in
          inl (done, ground (arith, done))
      | inr (x, bad) ↦
          let failed : answer id s ≡ some (err x) = e ∙ ap some bad in
          inr (from_pipeline x, inl (x, failed, refl), ground (arith, failed))
    ]
  ]

  abbrev pub Deletion :
      String → Coordinator E → Result (Unit {0}) SignalError × Coordinator E → Type 0
  Deletion id s o =
      ((at id s ≡ none)
        × (o.0 ≡ err (SignalError.not_found id))
        × ((j : String) → at j o.1 ≡ at j s))
      ⊎ ((at id s ≢ none)
          × (answer id s ≡ some (ok tt))
          × (o.0 ≡ ok tt)
          × ((j : String) → at j o.1 ≡ (if str_eq id j then none else at j s)))
      ⊎ ((e : SignalError) × (at id s ≢ none)
          × Refuses (answer id s) e
          × (o.0 ≡ err e)
          × ((i : String) → e ≢ SignalError.not_found i)
          × ((j : String) → at j o.1 ≡ at j s))

  refusal :
      (id : String) (s : Coordinator E) (e : SignalError)
      → (remove_branch_bounded rt id (take_out id s)).0 ≡ err e
      → Refuses (answer id s) e
  refusal id s e h = elim (answered id s) [
    | inl (a, fine) ↦ cc (fine, h)
    | inr (x, why, bad) ↦ let same : x ≡ e = cc (bad, h) in subst (Refuses (answer id s)) same why
  ]

  detachment :
      (id : String) (s : Coordinator E)
      → (remove_branch_bounded rt id (take_out id s)).0 ≡ ok tt
      → answer id s ≡ some (ok tt)
  detachment id s h = elim (answered id s) [ inl (a, fine) ↦ a | inr (x, why, bad) ↦ cc (bad, h) ]

  -- Ending a connection for a DELETE has one of three results. The id is unknown: NotFound, and nothing
  -- changes. The pipeline answers that the branch is detached: success, and this connection alone is gone.
  -- The pipeline refuses or is too slow: an error other than NotFound, which is the one that this answer
  -- gets, and every connection is there in its old state, so that a retried DELETE finds it.
  pub terminate-deleted :
      (id : String) (s : Coordinator E) → Deletion id s (terminate rt id deleted s)
  terminate-deleted id s =
      deleted_cases rt (Deletion id s) id s
        (λ absent.
          inl (absent, refl, λ j. ground (arith, lookup-erase id j s.connections, eq_iff id j)))
        (λ state e found refused. inr (
          inr (
            e,
            λ absent. cc,
            refusal id s e refused,
            refl,
            λ i same.
                remove_branch_bounded-ne-not_found id i (take_out id s) (refused ∙ ap err same),
            restored id s state _ found (detached rt id (take_out id s)),
          )))
        (λ state found done. inr (
          inl (
            λ absent. cc,
            detachment id s done,
            refl,
            λ j.
                rw
                  (notify-connections state gone id (remove_branch_bounded rt id (take_out id s)).1)
                  (rw (detached rt id (take_out id s)) (lookup-erase id j s.connections)),
          )))
