-- ===== src/Stream/GstPipeline/Spares.antt =====
-- Chains of calls, as in src/stream, that leave what is found under one name as it was.
use srt_whep.Prelude.{String, ◌≡◌, refl, ◌∙◌}
use srt_whep.Prelude.Results.{Result, ok, err}
use srt_whep.Prelude.Calls.{Call, ◌>>=◌, proceed}
use srt_whep.Stream.Gst.{Gst}

module _ {E H : Type 0} (g : Gst E H) (p : H) (k : String) where
  -- What is found under this name is the same after the call.
  pub record Spares {A : Type 0} (m : Call E String A) : Type 0 where
    pub from : (w : E) → g.by_name p k (m w).1 ≡ g.by_name p k w

  module _ {A B : Type 0} where
    proceed-Spares :
        (r : Result A String) (f : A → Call E String B) (w : E)
        → ((a : A) → r ≡ ok a → Spares (f a))
        → g.by_name p k (proceed r f w).1 ≡ g.by_name p k w
    proceed-Spares (ok a) f w h = (h a refl).from w
    proceed-Spares (err e) f w h = refl

    pub bind-Spares :
        (m : Call E String A) (f : A → Call E String B)
        → Spares m
        → ((a : A) → Spares (f a))
        → Spares (m >>= f)
    bind-Spares m f a b = record {
      from = λ w. proceed-Spares (m w).0 f (m w).1 (λ x e. b x) ∙ a.from w;
    }

    -- The rest may use what is known of the first answer.
    pub bind-Spares_known :
        (P : A → Type 0) (m : Call E String A) (f : A → Call E String B)
        → ((w : E) (a : A) → (m w).0 ≡ ok a → P a)
        → Spares m
        → ((a : A) → P a → Spares (f a))
        → Spares (m >>= f)
    bind-Spares_known P m f known a b = record {
      from = λ w. proceed-Spares (m w).0 f (m w).1 (λ x e. b x (known w x e)) ∙ a.from w;
    }
