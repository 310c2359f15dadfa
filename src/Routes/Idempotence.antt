-- ===== src/Routes/Idempotence.antt =====
-- DELETE of src/routes/remove.rs over the coordinator of src/signal/coordinator.rs.
use mathlib.Core.Path.{subst}
use srt_whep.Prelude.{
  ℕ, String, ◌≡◌, refl, ◌≢◌, ◌⊎◌, some, none, arith, inl, inr, ◌∙◌, sym, ap, if◌then◌else◌, str_eq,
  eq_iff, [],
}
use srt_whep.Prelude.Results.{Result, ok, err}
use srt_whep.Signal.Errors.{SignalError, status_code, http_contract}
use srt_whep.Signal.Coordinator.State.{Runtime, Coordinator, unit_reply, emit}
use srt_whep.Signal.Coordinator.Policy.{deleted}
use srt_whep.Signal.Coordinator.Terminate.{terminate}
use srt_whep.Signal.Coordinator.Changes.{at}
use srt_whep.Signal.Coordinator.Deletion.{answer, Refuses, terminate-deleted}
use srt_whep.Routes.Mailbox.{over, remove_connection_lem}
use srt_whep.Routes.{SignalHandle, Reply, empty, delete}

abbrev pub bare : (status : ℕ) → Reply
bare status = record { status = status; headers = []; content = empty }

status_404 : (e : SignalError) → status_code e ≡ 404 → (i : String) × (e ≡ SignalError.not_found i)
unfolding status_code http_contract
status_404 (SignalError.not_found i) h = (i, refl)
status_404 _ h = absurd (omega (arith, h))

module _ {E : Type 0} (rt : Runtime E) where
  -- What a DELETE answers, and what it leaves.
  abbrev pub Outcome : String → Coordinator E → Result Reply SignalError × Coordinator E → Type 0
  Outcome id s o =
      ((at id s ≢ none)
        × (answer rt id s ≡ some (ok tt))
        × (o.0 ≡ ok (bare 200))
        × ((j : String) → at j o.1 ≡ (if str_eq id j then none else at j s)))
      ⊎ ((at id s ≡ none) × (o.0 ≡ ok (bare 204)) × ((j : String) → at j o.1 ≡ at j s))
      ⊎ ((e : SignalError) × (at id s ≢ none)
          × Refuses rt (answer rt id s) e
          × (o.0 ≡ err e)
          × (status_code e ≢ 404)
          × ((j : String) → at j o.1 ≡ at j s))

  module _ (signal : SignalHandle (Coordinator E)) where
    delete_refused :
        (id : String) (s s' : Coordinator E) (e : SignalError)
        → ((i : String) → e ≢ SignalError.not_found i)
        → signal.remove_connection id s ≡ (err e, s')
        → delete signal id s ≡ (err e, s')
    unfolding delete
    delete_refused id s s' (SignalError.not_found i) n h = absurd (n i refl)
    delete_refused id s s' _ n h = ground arith

    delete_done :
        (id : String) (s s' : Coordinator E)
        → signal.remove_connection id s ≡ (ok tt, s')
        → delete signal id s ≡ (ok (bare 200), s')
    unfolding delete
    delete_done id s s' h = ground arith

    delete_unknown :
        (id i : String) (s s' : Coordinator E)
        → signal.remove_connection id s ≡ (err (SignalError.not_found i), s')
        → delete signal id s ≡ (ok (bare 204), s')
    unfolding delete
    delete_unknown id i s s' h = ground arith

    abbrev answered : ℕ → String → Coordinator E → Result (Unit {0}) SignalError × Coordinator E
    answered reply id s =
        let t = terminate rt id deleted s in (t.0, emit (unit_reply reply t.0) t.1)

    settled :
        (reply : ℕ) (id : String) (s : Coordinator E)
        → signal.remove_connection id s ≡ answered reply id s
        → Outcome id s (delete signal id s)
    settled reply id s link =
        let t = terminate rt id deleted s in
        let left = emit (unit_reply reply t.0) t.1 in
        elim (terminate-deleted rt id s) [
          | inl (absent, r, kept) ↦
              subst (Outcome id s) (sym (delete_unknown id id s _ (link ∙ ap (λ x. (x, left)) r)))
                (inr (inl (absent, refl, kept)))
          | inr (inl (found, a, r, gone)) ↦
              subst (Outcome id s) (sym (delete_done id s _ (link ∙ ap (λ x. (x, left)) r)))
                (inl (found, a, refl, gone))
          | inr (inr (e, found, why, r, known, kept)) ↦
              subst (Outcome id s)
                (sym (delete_refused id s _ e known (link ∙ ap (λ x. (x, left)) r)))
                (inr (
                  inr (
                    e,
                    found,
                    why,
                    refl,
                    λ h. let (i, same) = status_404 e h in known i same,
                    kept,
                  )))
        ]

  -- Through the mailbox of a running coordinator: the route answers 200 and this connection alone is
  -- gone, where the pipeline answers that the branch is detached; or 204 because there was none; or the
  -- error that the pipeline's refusal gets, which is not 404, and every connection is still there.
  pub delete-Outcome :
      (signal : SignalHandle (Coordinator E)) (reply : ℕ) (id : String) (s : Coordinator E)
      → Outcome id s (delete (over rt reply signal) id s)
  delete-Outcome signal reply id s =
      settled (over rt reply signal) reply id s (remove_connection_lem rt reply id s)

  -- Through the mailbox of a running coordinator: after a DELETE that was not refused the connection is
  -- unknown, and a second DELETE that comes next answers 204 and changes no connection.
  pub delete_again :
      (signal : SignalHandle (Coordinator E)) (reply reply' : ℕ) (id : String) (s : Coordinator E)
      (r : Reply)
      → (delete (over rt reply signal) id s).0 ≡ ok r
      → let s' = (delete (over rt reply signal) id s).1 in
        (at id s' ≡ none)
        × ((delete (over rt reply' signal) id s').0 ≡ ok (bare 204))
        × ((j : String) → at j (delete (over rt reply' signal) id s').1 ≡ at j s')
  delete_again signal reply reply' id s r fine =
      let s' = (delete (over rt reply signal) id s).1 in
      let missing : at id s' ≡ none = elim (delete-Outcome signal reply id s) [
        | inl (found, a, r, gone) ↦ ground (arith, gone id, eq_iff id id)
        | inr (inl (absent, r, kept)) ↦ kept id ∙ absent
        | inr (inr (e, found, why, r, known, kept)) ↦ cc (r, fine)
      ] in
      elim (delete-Outcome signal reply' id s') [
        | inl (found, a, r, gone) ↦ absurd (found missing)
        | inr (inl (absent, r, kept)) ↦ (missing, r, kept)
        | inr (inr (e, found, why, r, known, kept)) ↦ absurd (found missing)
      ]
