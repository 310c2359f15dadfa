-- ===== src/Prelude/Calls.antt =====
-- A fallible call that changes the outside: the new state comes back beside the error too, since what
-- was done before the error stays done. The bind is Rust's `?`.
use srt_whep.Prelude.Results.{Result, ok, err}

abbrev pub Call {ℓ} : Type ℓ → Type ℓ → Type ℓ → Type ℓ
Call E X A = E → Result A X × E

module _ {ℓ} {E X A : Type ℓ} where
  abbrev pub return : A → Call E X A
  return a w = (ok a, w)

  abbrev pub fail : X → Call E X A
  fail e w = (err e, w)

module _ {ℓ} {E X A B : Type ℓ} where
  abbrev pub proceed : Result A X → (A → Call E X B) → Call E X B
  proceed (ok a) f w = f a w
  proceed (err e) f w = (err e, w)

  infixl 5 ◌>>=◌ ◌>>◌
  abbrev pub ◌>>=◌ : Call E X A → (A → Call E X B) → Call E X B
  ◌>>=◌ m f w = let (r, w') = m w in proceed r f w'

  abbrev pub ◌>>◌ : Call E X A → Call E X B → Call E X B
  m >> k = m >>= λ _. k
