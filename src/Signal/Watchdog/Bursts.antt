-- ===== src/Signal/Watchdog/Bursts.antt =====
-- When the watchdog of src/signal/watchdog.rs trips, said of the history of failures and successes.
use Prim.Native.Nat.{◌%◌, ◌^◌}
use native.Mathlib.Nat.{mod-lt, mod-eq_of_lt, mod_self, suc-mod, zero-mod}
use native.Mathlib.Numerals.{add-one}
use native.Mathlib.Decide.{ℕ_discrete}
use srt_whep.Prelude.{
  ℕ, suc, ◌+◌, ◌-◌, ◌<◌, ◌≡◌, refl, ◌↔◌, ◌⊎◌, inl, inr, Bool, true, false, List, [], ◌∷◌, Option,
  none, some, arith, ap, sym, ◌∙◌, Option-cases, leb, if◌then◌else◌,
}
use srt_whep.Signal.Watchdog.{Watchdog, new, decayed, u32_suc, record_failure, record_success}

-- One event of the watchdog's life: a failure at an instant, or a success.
pub data Event : Type 0 where
  failed : ℕ → Event
  succeeded : Event

-- The event before came at most a window earlier, and was a failure.
abbrev pub is_recent : ℕ → ℕ → List Event → Bool
is_recent window now [] = false
is_recent window now (succeeded ∷ h) = false
is_recent window now (failed last ∷ h) = leb (now - last) window

-- The failures in a row, each at most a window after the one before. The newest event comes first.
pub streak : ℕ → List Event → ℕ
streak window [] = 0
streak window (succeeded ∷ h) = 0
streak window (failed now ∷ h) = if is_recent window now h then suc (streak window h) else 1

abbrev pub after : Event → Watchdog → Watchdog
after (failed now) dog = (record_failure now dog).1
after succeeded dog = record_success dog

-- A new watchdog after a history.
unfoldable pub lived : ℕ → ℕ → List Event → Watchdog
lived threshold window [] = new threshold window
lived threshold window (e ∷ h) = after e (lived threshold window h)

-- The failure before, where the watchdog remembers one.
abbrev Remembers : List Event → Option ℕ → Type 0
Remembers h none = Unit {0}
Remembers [] (some last) = ⊥
Remembers (succeeded ∷ h) (some last) = ⊥
Remembers (failed now ∷ h) (some last) = last ≡ now

record Tracks (threshold window : ℕ) (h : List Event) (dog : Watchdog) : Type 0 where
  threshold_kept : dog.threshold ≡ threshold
  window_kept : dog.window ≡ window
  counted : dog.consecutive_failures ≡ streak window h % threshold
  forgets : dog.last_failure ≡ none → dog.consecutive_failures ≡ 0
  remembered : Remembers h dog.last_failure

u32_suc-lt : (n : ℕ) → n + 1 < 2 ^ 32 → u32_suc n ≡ n + 1
u32_suc-lt n h = mod-eq_of_lt h

Remembers-recent :
    (h : List Event) (window now last : ℕ)
    → Remembers h (some last)
    → is_recent window now h ≡ leb (now - last) window
Remembers-recent [] window now last r = absurd r
Remembers-recent (succeeded ∷ h) window now last r = absurd r
Remembers-recent (failed earlier ∷ h) window now last r = rw r refl

module _ (threshold window : ℕ) (pos : 0 < threshold) (bounded : threshold < 2 ^ 32) where
  suc-mod_cases :
      (k : ℕ)
      → ((k % threshold + 1 ≡ threshold) × (suc k % threshold ≡ 0))
        ⊎ ((k % threshold + 1 < threshold) × (suc k % threshold ≡ k % threshold + 1))
  suc-mod_cases k = elim (ℕ_discrete (k % threshold + 1) threshold) [
    | yes e ↦
        inl (e, suc-mod k threshold ∙ (rw (sym (add-one (k % threshold)), e) (mod_self threshold)))
    | no n ↦
        let small : suc (k % threshold) < threshold = omega (arith, mod-lt k pos) in
        inr (omega arith, suc-mod k threshold ∙ mod-eq_of_lt small ∙ omega arith)
  ]

  -- The run of failures that a failure at `now` goes on from.
  before : ℕ → List Event → ℕ
  before now h = if is_recent window now h then streak window h else 0

  streak-failed : (now : ℕ) (h : List Event) → streak window (failed now ∷ h) ≡ suc (before now h)
  unfolding streak before
  streak-failed now h = ground arith

  decayed-before :
      (now : ℕ) (h : List Event) (dog : Watchdog)
      → Tracks threshold window h dog
      → decayed now dog ≡ before now h % threshold
  unfolding before
  decayed-before now h dog t = elim (Option-cases dog.last_failure) [
    | inl e ↦ ground (arith, t.forgets e, t.counted, zero-mod threshold)
    | inr (last, e) ↦ ground (
      arith,
      Remembers-recent h window now last (rw e at t.remembered),
      t.counted,
      t.window_kept,
      zero-mod threshold,
    )
  ]

  -- A failure trips the watchdog, or is counted.
  failed_cases :
      (now : ℕ) (h : List Event) (dog : Watchdog)
      → Tracks threshold window h dog
      → ((streak window (failed now ∷ h) % threshold ≡ 0)
          × (record_failure now dog
              ≡ (true, record dog { consecutive_failures = 0; last_failure = none })))
        ⊎ ((streak window (failed now ∷ h) % threshold ≡ before now h % threshold + 1)
            × (record_failure now dog ≡ (
              false,
              record dog {
                consecutive_failures = before now h % threshold + 1;
                last_failure = some now;
              },
            )))
  unfolding record_failure
  failed_cases now h dog t = elim (suc-mod_cases (before now h)) [
    | inl (full, zero_left) ↦ inl (
      rw (streak-failed now h) zero_left,
      ground (
        arith,
        full,
        t.threshold_kept,
        decayed-before now h dog t,
        u32_suc-lt (before now h % threshold) (omega (arith, full)),
      ),
    )
    | inr (room, next) ↦ inr (
      rw (streak-failed now h) next,
      ground (
        arith,
        room,
        t.threshold_kept,
        decayed-before now h dog t,
        u32_suc-lt (before now h % threshold) (omega (arith, room)),
      ),
    )
  ]

  after-Tracks :
      (e : Event) (h : List Event) (dog : Watchdog)
      → Tracks threshold window h dog
      → Tracks threshold window (e ∷ h) (after e dog)
  unfolding record_success streak
  after-Tracks succeeded h dog t =
      ground (arith, t.threshold_kept, t.window_kept, zero-mod threshold)
  after-Tracks (failed now) h dog t = elim (failed_cases now h dog t) [
    | inl (s, e) ↦ rw (e, after) (ground (arith, s, t.threshold_kept, t.window_kept))
    | inr (s, e) ↦ rw (e, after) (ground (arith, s, t.threshold_kept, t.window_kept))
  ]

  lived-Tracks : (h : List Event) → Tracks threshold window h (lived threshold window h)
  unfolding lived new streak
  lived-Tracks [] = ground (arith, zero-mod threshold)
  lived-Tracks (e ∷ h) = after-Tracks e h (lived threshold window h) (lived-Tracks h)

  -- With a threshold of at least 1 that a u32 holds: whatever came before, a failure trips the watchdog if and only if the run of failures that it
  -- ends, each at most a window after the one before, is a multiple of the threshold long.
  pub record_failure_trips_iff :
      (h : List Event) (now : ℕ)
      → ((record_failure now (lived threshold window h)).0 ≡ true)
        ↔ (streak window (failed now ∷ h) % threshold ≡ 0)
  record_failure_trips_iff h now =
      elim (failed_cases now h (lived threshold window h) (lived-Tracks h)) [
        | inl (s, e) ↦ (λ _. s, λ _. rw e refl)
        | inr (s, e) ↦ (λ yes_trip. cc (ap (λ r. r.0) e), λ z. absurd (omega (arith, s)))
      ]

  -- With a threshold of at least 1 that a u32 holds, the count of a watchdog stays below it, so that its
  -- `u32` never wraps.
  pub lived-lt-threshold :
      (h : List Event)
      → ((lived threshold window h).consecutive_failures < threshold)
        × (u32_suc (lived threshold window h).consecutive_failures
            ≡ (lived threshold window h).consecutive_failures + 1)
  lived-lt-threshold h =
      let t = lived-Tracks h in
      let small = mod-lt (streak window h) pos in
      (omega (arith, t.counted, small), u32_suc-lt _ (omega (arith, t.counted, small)))
