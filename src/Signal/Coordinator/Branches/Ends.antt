-- ===== src/Signal/Coordinator/Branches/Ends.antt =====
-- What a removed and an added branch, and each way to end a connection in src/signal/coordinator.rs, do to
-- the agreement of the map with the pipeline.
use srt_whep.Prelude.{
  String, true, ◌≡◌, refl, ◌∙◌, none, some, arith, inl, inr, Option-cases, if◌then◌else◌, str_eq,
}
use srt_whep.Prelude.Results.{ok, err, Result-cases}
use srt_whep.Prelude.HashMap.{lookup, erase, lookup-erase, erase_absent}
use srt_whep.Signal.Errors.{SignalError, from_pipeline}
use srt_whep.Signal.Coordinator.State.{Runtime, Coordinator}
use srt_whep.Signal.Coordinator.Policy.{deleted, expired, peer_gone, reaped, gone, expired_leg}
use srt_whep.Signal.Coordinator.Terminate.{remove_branch_bounded, feed_watchdog, terminate}
use srt_whep.Signal.Coordinator.Handlers.{put, take_out, add_branch_bounded}
use srt_whep.Signal.Coordinator.Cases.{
  feed_cases, deleted_cases, expired_cases, reaped_cases, peer_gone_cases,
}
use srt_whep.Signal.Coordinator.Accounts.{notify-connections, reset_all-connections}
use srt_whep.Signal.Coordinator.Endings.{erased}
use srt_whep.Signal.Coordinator.Changes.{at}
use srt_whep.Signal.Coordinator.Operations.{detached}
use srt_whep.Signal.Coordinator.Branches.{
  attached, doubtful, after_add, after_remove, fate, agrees, removed_agrees, Agree, notify-fate,
  moved, put_back,
}

module _ {E : Type 0} (rt : Runtime E) where
  pub removed-fate :
      (id j : String) (s : Coordinator E)
      → fate j (remove_branch_bounded rt id s).1.log ≡ (
          if str_eq id j
          then after_remove (rt.remove_branch s.config.teardown_timeout id s.env).0
          else fate j s.log)
  unfolding remove_branch_bounded
  removed-fate id j s = ground arith

  pub fed-Agree : (s : Coordinator E) → Agree s → Agree (feed_watchdog rt true s)
  unfolding lookup
  fed-Agree s a =
      feed_cases rt Agree s (λ e. record { each = λ j. rw (reset_all-connections _) refl })
        (λ e. record { each = a.each })

  pub unknown : (id : String) (s : Coordinator E) → Agree s → at id s ≡ none → Agree (take_out id s)
  unknown id s a e = record { each = λ j. rw (erase_absent id s.connections e) (a.each j) }

  -- The entry is out of the map, and then its branch is taken down.
  pub detached-Agree :
      (id : String) (s s' : Coordinator E)
      → Agree s
      → s'.connections ≡ erase id s.connections
      → ((j : String) → fate j s'.log ≡ fate j s.log)
      → Agree (remove_branch_bounded rt id s').1
  detached-Agree id s s' a c l =
      moved id none (after_remove (rt.remove_branch s'.config.teardown_timeout id s'.env).0) a
        (λ j. rw (detached rt id s') (rw c (lookup-erase id j s.connections)))
        (λ j. ground (arith, removed-fate id j s', l j)) (removed_agrees _)

  pub expired-Agree :
      (id : String) (s : Coordinator E) → Agree s → Agree (terminate rt id expired s).1
  expired-Agree id s a =
      expired_cases rt (λ r. Agree r.1) id s (λ e. unknown id s a e)
        (λ state found. fed-Agree _ (
          detached-Agree id s _ a (notify-connections state expired_leg id (take_out id s))
            (λ j. notify-fate state expired_leg id j (take_out id s))))

  pub reaped-Agree :
      (id : String) (s : Coordinator E) → Agree s → Agree (terminate rt id reaped s).1
  reaped-Agree id s a =
      reaped_cases rt (λ r. Agree r.1) id s (λ e. unknown id s a e)
        (λ state found.
          detached-Agree id s _ a (notify-connections state gone id (take_out id s))
            (λ j. notify-fate state gone id j (take_out id s)))

  -- The teardown failed or timed out.
  pub undone_removal :
      (id : String) (s : Coordinator E) (e : SignalError)
      → (remove_branch_bounded rt id s).0 ≡ err e
      → after_remove (rt.remove_branch s.config.teardown_timeout id s.env).0 ≡ doubtful
  unfolding remove_branch_bounded
  undone_removal id s e h =
      elim (Option-cases (rt.remove_branch s.config.teardown_timeout id s.env).0) [
        | inl timeout ↦ ground (arith, timeout)
        | inr (r, answered) ↦ elim (Result-cases r) [
          | inl (u, fine) ↦
              let done : (remove_branch_bounded rt id s).0 ≡ ok u =
                ground (arith, answered, fine) in
              cc (done, h)
          | inr (x, failed) ↦ ground (arith, answered, failed)
        ]
      ]

  pub added-fate :
      (id j : String) (s : Coordinator E)
      → fate j (add_branch_bounded rt id s).1.log ≡ (
          if str_eq id j
          then after_add (rt.add_branch s.config.teardown_timeout id s.env).0 (fate j s.log)
          else fate j s.log)
  unfolding add_branch_bounded
  added-fate id j s = ground arith

  pub undone_addition :
      (id : String) (s : Coordinator E) (e : SignalError)
      → agrees none (fate id s.log) ≡ true
      → (add_branch_bounded rt id s).0 ≡ err e
      → agrees none (after_add (rt.add_branch s.config.teardown_timeout id s.env).0 (fate id s.log))
        ≡ true
  unfolding add_branch_bounded
  undone_addition id s e a h =
      elim (Option-cases (rt.add_branch s.config.teardown_timeout id s.env).0) [
        | inl timeout ↦ ground (arith, timeout)
        | inr (r, answered) ↦ elim (Result-cases r) [
          | inl (u, fine) ↦
              let done : (add_branch_bounded rt id s).0 ≡ ok u = ground (arith, answered, fine) in
              cc (done, h)
          | inr (x, failed) ↦ ground (arith, answered, failed)
        ]
      ]

  pub attached_addition :
      (id : String) (s : Coordinator E)
      → (add_branch_bounded rt id s).0 ≡ ok tt
      → after_add (rt.add_branch s.config.teardown_timeout id s.env).0 (fate id s.log) ≡ attached
  unfolding add_branch_bounded
  attached_addition id s h =
      elim (Option-cases (rt.add_branch s.config.teardown_timeout id s.env).0) [
        | inl timeout ↦
            let failed : (add_branch_bounded rt id s).0
                ≡ err (SignalError.pipeline_busy "branch attach/cleanup timed out") =
              ground (arith, timeout) in
            cc (failed, h)
        | inr (r, answered) ↦ elim (Result-cases r) [
          | inl (u, fine) ↦ ground (arith, answered, fine)
          | inr (x, failed) ↦
              let refused : (add_branch_bounded rt id s).0 ≡ err (from_pipeline x) =
                ground (arith, answered, failed) in
              cc (refused, h)
        ]
      ]

  pub deleted-Agree :
      (id : String) (s : Coordinator E) → Agree s → Agree (terminate rt id deleted s).1
  deleted-Agree id s a =
      deleted_cases rt (λ r. Agree r.1) id s (λ e. unknown id s a e)
        (λ state e found failed.
          let c : (j : String)
              → at j (put id state (remove_branch_bounded rt id (take_out id s)).1)
                ≡ (if str_eq id j then some state else at j s) =
            λ j. rw (detached rt id (take_out id s)) (put_back id s state j) in
          moved id (some state) doubtful a c
            (λ j. ground (
              arith,
              removed-fate id j (take_out id s),
              undone_removal id (take_out id s) e failed,
            ))
            refl)
        (λ state found done.
          let b = detached-Agree id s (take_out id s) a refl (λ j. refl) in
          record {
            each = λ j.
                rw (notify-connections state gone id _)
                  (rw (notify-fate state gone id j _) (b.each j));
          })

  -- The entry is out of the map, and replies have been given since.
  pub lost-Agree :
      (id : String) (s s' : Coordinator E)
      → Agree s
      → s'.connections ≡ erase id s.connections
      → ((j : String) → fate j s'.log ≡ fate j s.log)
      → Agree (terminate rt id peer_gone s').1
  lost-Agree id s s' a c l =
      let out : lookup id s'.connections ≡ none = rw c (erased rt 0 id s) in
      peer_gone_cases rt (λ r. Agree r.1) id s' out
        (fed-Agree _
          (detached-Agree id s (take_out id s') a (erase_absent id s'.connections out ∙ c) l))
