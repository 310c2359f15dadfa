-- ===== src/Signal/Coordinator/Accounts.antt =====
-- Where a reply channel of src/signal/coordinator.rs is: parked on a connection, or answered. What the
-- ways in which a connection ends do to it.
use srt_whep.Prelude.{
  ℕ, ◌+◌, String, ◌≡◌, refl, ◌∙◌, none, List, [], ◌∷◌, arith, ◌==◌, if◌then◌else◌,
}
use srt_whep.Prelude.HashMap.{lookup, total, HasUniqueKeys, total-insert, insert-HasUniqueKeys}
use srt_whep.Signal.Coordinator.State.{
  ConnectionState, awaiting_offer, awaiting_answer, established, Effect, offer_reply, answer_reply,
  unit_reply, list_reply, branch_added, branch_removed, restart_requested, Coordinator, emit,
}
use srt_whep.Signal.Coordinator.Handlers.{put}
use srt_whep.Signal.Coordinator.Connection.{notify}
use srt_whep.Signal.Coordinator.Policy.{WaiterNotice, unavailable}
use srt_whep.Signal.Coordinator.Terminate.{notify_all, reset_all}

abbrev pub is : ℕ → ℕ → ℕ
is ch other = if other == ch then 1 else 0

-- 1 for the connection on which a channel is parked.
abbrev pub holds : ℕ → ConnectionState → ℕ
holds ch (awaiting_offer whep_reply d) = is ch whep_reply
holds ch (awaiting_answer whip_reply d) = is ch whip_reply
holds ch (established since) = 0

-- 1 for a reply to the channel.
abbrev pub answers : ℕ → Effect → ℕ
answers ch (offer_reply reply r) = is ch reply
answers ch (answer_reply reply r) = is ch reply
answers ch (unit_reply reply r) = is ch reply
answers ch (list_reply reply r) = is ch reply
answers ch (branch_added id r) = 0
answers ch (branch_removed id r) = 0
answers ch restart_requested = 0

abbrev pub sent : ℕ → List Effect → ℕ
sent ch [] = 0
sent ch (e ∷ log) = answers ch e + sent ch log

abbrev pub parked : ℕ → List (String × ConnectionState) → ℕ
parked ch m = total (holds ch) m

module _ {E : Type 0} where
  pub notify-connections :
      (state : ConnectionState) (n : WaiterNotice) (id : String) (s : Coordinator E)
      → (notify state n id s).connections ≡ s.connections
  unfolding notify
  notify-connections state n id s = ground arith

  notify_all-connections :
      (n : WaiterNotice) (m : List (String × ConnectionState)) (s : Coordinator E)
      → (notify_all n m s).connections ≡ s.connections
  unfolding notify_all
  notify_all-connections n [] s = refl
  notify_all-connections n ((id, state) ∷ m) s =
      notify_all-connections n m (notify state n id s) ∙ notify-connections state n id s

  pub reset_all-connections : (s : Coordinator E) → (reset_all s).connections ≡ []
  unfolding reset_all
  reset_all-connections s = notify_all-connections unavailable s.connections _

module _ {E : Type 0} (ch : ℕ) where
  -- Where a channel is: parked, or answered.
  abbrev pub weight : Coordinator E → ℕ
  weight s = parked ch s.connections + sent ch s.log

  notify-sent :
      (state : ConnectionState) (n : WaiterNotice) (id : String) (s : Coordinator E)
      → sent ch (notify state n id s).log ≡ holds ch state + sent ch s.log
  unfolding notify
  notify-sent state n id s = ground arith

  notify_all-sent :
      (n : WaiterNotice) (m : List (String × ConnectionState)) (s : Coordinator E)
      → sent ch (notify_all n m s).log ≡ parked ch m + sent ch s.log
  unfolding notify_all total
  notify_all-sent n [] s = omega arith
  notify_all-sent n ((id, state) ∷ m) s =
      omega (arith, notify_all-sent n m (notify state n id s), notify-sent state n id s)

  -- A state that keeps the keys distinct, and in which the channel weighs so much more.
  pub record Accounts (extra : ℕ) (s s' : Coordinator E) : Type 0 where
    pub unique : HasUniqueKeys s'.connections
    pub balanced : weight s' ≡ weight s + extra

  pub reset_all-sent : (s : Coordinator E) → sent ch (reset_all s).log ≡ weight s
  unfolding reset_all
  reset_all-sent s = notify_all-sent unavailable s.connections (record s { connections = [] })

  pub reset_all-Accounts : (s : Coordinator E) → Accounts 0 s (reset_all s)
  unfolding reset_all total
  reset_all-Accounts s =
      let empty = reset_all-connections s in
      record {
        unique = rw empty tt;
        balanced = rw empty (
            omega
              (arith, notify_all-sent unavailable s.connections (record s { connections = [] })));
      }

  pub Accounts-trans :
      {a b c : ℕ} {s t u : Coordinator E}
      → Accounts a s t
      → Accounts b t u
      → a + b ≡ c
      → Accounts c s u
  Accounts-trans p q e = record {
    unique = q.unique;
    balanced = omega (arith, p.balanced, q.balanced, e);
  }

  -- A waiter that is told was parked before.
  pub told-Accounts :
      (state : ConnectionState) (n : WaiterNotice) (id : String) (s : Coordinator E)
      → HasUniqueKeys s.connections
      → Accounts (holds ch state) s (notify state n id s)
  told-Accounts state n id s u =
      let same = notify-connections state n id s in
      record { unique = rw same u; balanced = rw same (omega (arith, notify-sent state n id s)) }

  pub put-Accounts :
      (state : ConnectionState) (id : String) (s : Coordinator E)
      → HasUniqueKeys s.connections
      → lookup id s.connections ≡ none
      → Accounts (holds ch state) s (put id state s)
  put-Accounts state id s u e = record {
    unique = insert-HasUniqueKeys id state s.connections u;
    balanced = omega (arith, total-insert (holds ch) id state s.connections e);
  }

  pub emit-Accounts :
      (e : Effect) (s : Coordinator E)
      → HasUniqueKeys s.connections
      → Accounts (answers ch e) s (emit e s)
  emit-Accounts e s u = record { unique = u; balanced = omega arith }
