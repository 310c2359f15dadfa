-- ===== src/Startup/Wiring.antt =====
-- What `assemble` of src/startup.rs has made, on every path.
use srt_whep.Prelude.{
  ℕ, String, ◌≡◌, Option, none, some, List, [], ◌∷◌, arith, inl, inr, Bool-cases, ◌==◌,
}
use srt_whep.Prelude.Results.{Result, ok, err}
use srt_whep.Startup.{Part, pipeline, coordinator, supervisor, server, wire, assemble}

-- How assembling ends: refused before anything was made; without a server, as the listener failed; or
-- whole, on the port at which the pipeline posts its offers, if it has one.
pub data Assembled (expected : Option ℕ) : Result ℕ String × List Part → Type 0 where
  refused : (e : String) → Assembled expected (err e, [])
  serverless : (e : String) → Assembled expected (err e, pipeline ∷ coordinator ∷ supervisor ∷ [])
  whole :
      (port : ℕ)
      → ((e : ℕ) → expected ≡ some e → e ≡ port)
      → Assembled expected (ok port, pipeline ∷ coordinator ∷ supervisor ∷ server ∷ [])

wire-Assembled :
    (expected : Option ℕ) (port : ℕ) (listening : Result (Unit {0}) String)
    → ((e : ℕ) → expected ≡ some e → e ≡ port)
    → Assembled expected (wire port listening)
unfolding wire
wire-Assembled expected port (ok tt) h = whole port h
wire-Assembled expected port (err e) h = serverless e

-- An application is assembled in one of three ways: refused with nothing made; with a listener that
-- fails once the pipeline, the coordinator and the supervisor are there; or whole, and then the port
-- that it listens on is the one at which the pipeline posts its offers, if it posts any.
pub assemble-Assembled :
    (address : Result ℕ String) (expected : Option ℕ) (listening : Result (Unit {0}) String)
    → Assembled expected (assemble address expected listening)
unfolding assemble
assemble-Assembled (err e) expected listening = refused e
assemble-Assembled (ok port) none listening = wire-Assembled none port listening (λ e h. cc)
assemble-Assembled (ok port) (some expected) listening = elim (Bool-cases (expected == port)) [
  | inl same ↦
      let here : expected ≡ port = ground (arith, same) in
      rw (same, assemble) (wire-Assembled (some expected) port listening (λ e h. cc (here, h)))
  | inr other ↦ rw (other, assemble) (refused _)
]
