-- ===== src/Service/Tidy.antt =====
-- The map of src/signal/coordinator.rs against the elements in the pipeline of src/stream/gst_pipeline.rs,
-- for the ways in which a connection begins and ends.
use mathlib.Core.Path.{subst}
use srt_whep.Prelude.{
  ℕ, ◌+◌, String, Bool, true, false, ◌≡◌, refl, sym, ap, ◌∙◌, none, some, List, arith, inl, inr,
  Bool-cases, str_eq, eq_iff,
}
use srt_whep.Prelude.Results.{Result, ok, err, Result-cases}
use srt_whep.Prelude.HashMap.{lookup, erase, insert, lookup-erase, lookup-insert, erase_absent}
use srt_whep.Domain.{SdpOffer, SdpAnswer}
use srt_whep.Stream.Errors.{PipelineError}
use srt_whep.Stream.Gst.{Gst, IsLawful}
use srt_whep.Stream.Branch.Detach.{
  is_of_branch, is_of_branch-IsBranchElement, is_of_branch-other, of_branch-IsGiven,
}
use srt_whep.Stream.GstPipeline.Control.{PipelineWrapper, add_branch, remove_branch}
use srt_whep.Stream.GstPipeline.Atomicity.{IsNew}
use srt_whep.Signal.Errors.{SignalError}
use srt_whep.Signal.Watchdog.{record_failure}
use srt_whep.Signal.Coordinator.State.{
  Runtime, ConnectionState, awaiting_offer, awaiting_answer, established, Coordinator,
}
use srt_whep.Signal.Coordinator.Policy.{WaiterNotice, deleted, peer_gone, reaped, gone}
use srt_whep.Signal.Coordinator.Connection.{notify}
use srt_whep.Signal.Coordinator.Terminate.{remove_branch_bounded, feed_watchdog, terminate}
use srt_whep.Signal.Coordinator.Handlers.{
  take_out, add_branch_bounded, on_create, on_offer, on_answer,
}
use srt_whep.Signal.Coordinator.Cases.{feed_cases, deleted_cases, reaped_cases, peer_gone_cases}
use srt_whep.Signal.Coordinator.Legs.{create_cases, offer_cases, answer_cases}
use srt_whep.Signal.Coordinator.Accounts.{notify-connections}
use srt_whep.Signal.Coordinator.Endings.{erased}
use srt_whep.Signal.Coordinator.Changes.{at, restarts, reset_all-restarts}
use srt_whep.Signal.Coordinator.Operations.{remove_branch_bounded-restarts, detached}
use srt_whep.Signal.Coordinator.Branches.{put_back}
use srt_whep.Signal.Coordinator.Replies.{add_branch_bounded-connections}
use srt_whep.Service.{service}
use srt_whep.Service.Effects.{HasQueues, removed-Cleared, add_branch-Added}

module _ {E H : Type 0} (g : Gst E H) (L : IsLawful g) (p : H) where
  -- No element of a viewer who is not in the map is in the pipeline, and what stands under the names of
  -- branch queues are queues.
  pub record Tidy (s : Coordinator E) : Type 0 where
    pub queues : HasQueues g L p s.env
    pub unconnected : (j : String) → at j s ≡ none → IsNew g L p j s.env

  -- The pipeline has not changed, and no connection has gone.
  pub kept-Tidy :
      (s s' : Coordinator E)
      → Tidy s
      → s'.env ≡ s.env
      → ((j : String) → at j s' ≡ none → at j s ≡ none)
      → Tidy s'
  kept-Tidy s s' a e c = record {
    queues = subst (HasQueues g L p) (sym e) a.queues;
    unconnected = λ j h. subst (IsNew g L p j) (sym e) (a.unconnected j (c j h));
  }

  module _ (lock : E → Result (Unit {0}) String) (wrapper : PipelineWrapper H)
      (at_p : wrapper.pipeline ≡ some p) (free : (w : E) → lock w ≡ ok tt) (now : E → ℕ)
      (is_closed : ℕ → E → Bool) where
    abbrev rt : Runtime E
    rt = service g lock wrapper now is_closed

    pub notify-env :
        (state : ConnectionState) (n : WaiterNotice) (id : String) (s : Coordinator E)
        → (notify state n id s).env ≡ s.env
    unfolding notify
    notify-env state n id s = ground arith

    removed-env :
        (id : String) (s : Coordinator E)
        → (remove_branch_bounded rt id s).1.env ≡ (remove_branch g lock wrapper id s.env).1
    unfolding remove_branch_bounded
    removed-env id s = ground arith

    removed-ok :
        (id : String) (s : Coordinator E)
        → HasQueues g L p s.env
        → (remove_branch_bounded rt id s).0 ≡ ok tt
    unfolding remove_branch_bounded
    removed-ok id s q = ground (arith, (removed-Cleared g L p lock wrapper at_p free id s.env q).0)

    -- A viewer's own elements are no other viewer's.
    strangers :
        (id j k : String)
        → str_eq id j ≡ false
        → is_of_branch j k ≡ true
        → is_of_branch id k ≡ false
    strangers id j k differs own =
        is_of_branch-other id j k (λ e. cc ((eq_iff id j).1 e, differs))
          (is_of_branch-IsBranchElement j k own)

    -- The entry is out of the map, and then its branch is taken down.
    pub detached-Tidy :
        (id : String) (s s' : Coordinator E)
        → Tidy s
        → s'.env ≡ s.env
        → s'.connections ≡ erase id s.connections
        → Tidy (remove_branch_bounded rt id s').1
    detached-Tidy id s s' a e c =
        let q : HasQueues g L p s'.env = subst (HasQueues g L p) (sym e) a.queues in
        let (fine, cleared) = removed-Cleared g L p lock wrapper at_p free id s'.env q in
        record {
          queues = subst (HasQueues g L p) (sym (removed-env id s')) cleared.queues;
          unconnected = λ j h.
              subst (IsNew g L p j) (sym (removed-env id s')) (elim (Bool-cases (str_eq id j)) [
                | inl same ↦
                    subst (λ i. IsNew g L p i (remove_branch g lock wrapper id s'.env).1)
                      ((eq_iff id j).0 same) cleared.gone
                | inr other ↦ λ k own.
                    let out : lookup j (erase id s.connections) ≡ none =
                      sym (ap (lookup j) (detached rt id s' ∙ c)) ∙ h in
                    let h' : at j s ≡ none =
                      ground (arith, out, lookup-erase id j s.connections, other) in
                    cleared.others k (of_branch-IsGiven j k own) (strangers id j k other own)
                    ∙ (ap (g.by_name p k) e ∙ a.unconnected j h' k own)
              ]);
        }

    -- The watchdog has asked for no restart since.
    abbrev pub Calm : Coordinator E → Coordinator E → Type 0
    Calm s s' = restarts s'.log ≡ restarts s.log → Tidy s'

    pub fed-Calm :
        (s s' : Coordinator E)
        → restarts s'.log ≡ restarts s.log
        → Tidy s'
        → Calm s (feed_watchdog rt true s')
    fed-Calm s s' r a =
        feed_cases rt (Calm s) s'
          (λ tripped h.
            let dog = (record_failure (now s'.env) s'.watchdog).1 in
            let same = reset_all-restarts (record s' { watchdog = dog }) in
            absurd (omega (arith, h, r, same)))
          (λ counted h. record { queues = a.queues; unconnected = a.unconnected })

    lost-Calm :
        (id : String) (s s' : Coordinator E)
        → Tidy s
        → s'.env ≡ s.env
        → s'.connections ≡ erase id s.connections
        → restarts s'.log ≡ restarts s.log
        → Calm s (terminate rt id peer_gone s').1
    lost-Calm id s s' a e c r =
        let out : lookup id s'.connections ≡ none = rw c (erased rt 0 id s) in
        peer_gone_cases rt (λ o. Calm s o.1) id s' out
          (fed-Calm s _ (remove_branch_bounded-restarts rt id (take_out id s') ∙ r)
            (detached-Tidy id s (take_out id s') a e (erase_absent id s'.connections out ∙ c)))

    pub reaped-Tidy : (id : String) (s : Coordinator E) → Tidy s → Tidy (terminate rt id reaped s).1
    reaped-Tidy id s a =
        reaped_cases rt (λ o. Tidy o.1) id s
          (λ absent.
            kept-Tidy s _ a refl
              (λ j h. sym (ap (lookup j) (erase_absent id s.connections absent)) ∙ h))
          (λ state found.
            detached-Tidy id s _ a (notify-env state gone id (take_out id s))
              (notify-connections state gone id (take_out id s)))

    pub deleted-Tidy :
        (id : String) (s : Coordinator E) → Tidy s → Tidy (terminate rt id deleted s).1
    deleted-Tidy id s a =
        deleted_cases rt (λ o. Tidy o.1) id s
          (λ absent.
            kept-Tidy s _ a refl
              (λ j h. sym (ap (lookup j) (erase_absent id s.connections absent)) ∙ h))
          (λ state e found failed. absurd (cc (failed, removed-ok id (take_out id s) a.queues)))
          (λ state found fine.
            let b = detached-Tidy id s (take_out id s) a refl refl in
            kept-Tidy (remove_branch_bounded rt id (take_out id s)).1 _ b
              (notify-env state gone id _)
              (λ j h. sym (ap (lookup j) (notify-connections state gone id _)) ∙ h))

    added-env :
        (id : String) (s : Coordinator E)
        → (add_branch_bounded rt id s).1.env ≡ (add_branch g lock wrapper id s.env).1
    unfolding add_branch_bounded
    added-env id s = ground arith

    added-error :
        (id : String) (s : Coordinator E) (e : SignalError)
        → (add_branch_bounded rt id s).0 ≡ err e
        → (x : PipelineError) × ((add_branch g lock wrapper id s.env).0 ≡ err x)
    unfolding add_branch_bounded
    added-error id s e h = elim (Result-cases (add_branch g lock wrapper id s.env).0) [
      | inr found ↦ found
      | inl (u, fine) ↦
          let done : (add_branch_bounded rt id s).0 ≡ ok u = ground (arith, fine) in cc (done, h)
    ]

    -- After an attempt to add a branch, each other viewer who is not connected has nothing there.
    added_others :
        (id j : String) (s : Coordinator E)
        → Tidy s
        → at id s ≡ none
        → str_eq id j ≡ false
        → at j s ≡ none
        → IsNew g L p j (add_branch_bounded rt id s).1.env
    added_others id j s a fresh other h =
        let added =
          add_branch-Added g L p lock wrapper at_p free id s.env a.queues
            (a.unconnected id fresh) in
        subst (IsNew g L p j) (sym (added-env id s)) λ k own.
          added.others k (of_branch-IsGiven j k own) (strangers id j k other own)
          ∙ a.unconnected j h k own

    pub create-Tidy :
        (id : String) (reply : ℕ) (s : Coordinator E) → Tidy s → Tidy (on_create rt id reply s)
    create-Tidy id reply s a =
        create_cases rt Tidy id reply s (λ state found. kept-Tidy s _ a refl (λ j h. h))
          (λ e fresh failed.
            let (x, refused) = added-error id s e failed in
            let added =
              add_branch-Added g L p lock wrapper at_p free id s.env a.queues
                (a.unconnected id fresh) in
            record {
              queues = subst (HasQueues g L p) (sym (added-env id s)) added.queues;
              unconnected = λ j h. elim (Bool-cases (str_eq id j)) [
                | inl same ↦
                    subst (λ i. IsNew g L p i (add_branch_bounded rt id s).1.env)
                      ((eq_iff id j).0 same)
                      (subst (IsNew g L p id) (sym (added-env id s)) (added.failed x refused))
                | inr other ↦
                    added_others id j s a fresh other
                      (sym (ap (lookup j) (add_branch_bounded-connections rt 0 id s)) ∙ h)
              ];
            })
          (λ fresh done.
            let added =
              add_branch-Added g L p lock wrapper at_p free id s.env a.queues
                (a.unconnected id fresh) in
            record {
              queues = subst (HasQueues g L p) (sym (added-env id s)) added.queues;
              unconnected = λ j h.
                  let s' = (add_branch_bounded rt id s).1 in
                  let parked = awaiting_offer reply (now s'.env + s'.config.offer_timeout) in
                  let (other, h') = absent_after_insert id j parked s'.connections h in
                  added_others id j s a fresh other
                    (sym (ap (lookup j) (add_branch_bounded-connections rt 0 id s)) ∙ h');
            })
      where
        absent_after_insert :
            (id j : String) (state : ConnectionState) (m : List (String × ConnectionState))
            → lookup j (insert id state m) ≡ none
            → (str_eq id j ≡ false) × (lookup j m ≡ none)
        absent_after_insert id j state m h = (
          ground (arith, lookup-insert id j state m, h),
          ground (arith, lookup-insert id j state m, h),
        )

    -- A connection that is put back under its id, in whatever state, leaves the map's ids as they were.
    replaced-Tidy :
        (id : String) (state state' : ConnectionState) (s s' : Coordinator E)
        → Tidy s
        → at id s ≡ some state
        → s'.env ≡ s.env
        → s'.connections ≡ insert id state' (erase id s.connections)
        → Tidy s'
    replaced-Tidy id state state' s s' a found e c = kept-Tidy s s' a e λ j h.
        let out : lookup j (insert id state' (erase id s.connections)) ≡ none =
          sym (ap (lookup j) c) ∙ h in
        ground (arith, out, put_back id s state' j)

    pub offer-Calm :
        (id : String) (sdp : SdpOffer) (reply : ℕ) (s : Coordinator E)
        → Tidy s
        → Calm s (on_offer rt id sdp reply s)
    offer-Calm id sdp reply s a =
        offer_cases rt (Calm s) id sdp reply s (λ absent h. kept-Tidy s _ a refl (λ j h. h))
          (λ state found other h. replaced-Tidy id state state s _ a found refl refl)
          (λ w d found arrives h.
            replaced-Tidy id (awaiting_offer w d)
              (awaiting_answer reply (now s.env + s.config.answer_timeout)) s _ a found refl refl)
          (λ w d found lost. lost-Calm id s _ a refl refl refl)

    pub answer-Calm :
        (id : String) (sdp : SdpAnswer) (reply : ℕ) (s : Coordinator E)
        → Tidy s
        → Calm s (on_answer rt id sdp reply s)
    answer-Calm id sdp reply s a =
        answer_cases rt (Calm s) id sdp reply s (λ absent h. kept-Tidy s _ a refl (λ j h. h))
          (λ state found other h. replaced-Tidy id state state s _ a found refl refl)
          (λ w d found arrives h.
            replaced-Tidy id (awaiting_answer w d) (established (now s.env)) s _ a found refl refl)
          (λ w d found lost. lost-Calm id s _ a refl refl refl)
