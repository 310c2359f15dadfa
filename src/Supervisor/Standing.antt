-- ===== src/Supervisor/Standing.antt =====
-- Which actions of src/supervisor.rs bring a pipeline up.
use srt_whep.Prelude.{String, Bool, true, false, ◌≡◌, some, arith}
use srt_whep.Prelude.Results.{Result, ok, err}
use srt_whep.Supervisor.{Action, initialised, cleaned_up}
use srt_whep.Supervisor.Order.{Phase, idle, initial, running, stopping, halted, next}

-- No pipeline is there: before an initialisation and after a clean-up.
abbrev pub is_down : Phase → Bool
is_down initial = false
is_down running = false
is_down (stopping b) = false
is_down (halted b) = false
is_down p = true

pub init_phases :
    (p q : Phase) (r : Result (Unit {0}) String)
    → next p (initialised r) ≡ some q
    → (p ≡ idle) × (is_down q ≡ false)
unfolding next
init_phases p q (ok tt) e = ground arith
init_phases p q (err x) e = ground arith

-- An action that brings the pipeline up or takes it down.
abbrev is_turn : Action → Bool
is_turn (initialised r) = true
is_turn (cleaned_up r) = true
is_turn a = false

pub stays_down :
    (a : Action) (p q : Phase)
    → is_turn a ≡ false
    → next p a ≡ some q
    → is_down q ≡ true
    → is_down p ≡ true
unfolding next
stays_down a p q h e d = ground arith
