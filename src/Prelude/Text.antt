-- ===== src/Prelude/Text.antt =====
-- The string operations of Rust's standard library that the program calls, over code points:
-- `strip_prefix`, `starts_with`, `contains`, `trim().is_empty()` and `replace`.
use Prim.Native.Nat.{ℕ, zero, suc, ◌-◌}
use Prim.Native.Char.{code}
use Prim.Native.String.{String, [], ◌∷◌, ◌++◌, count}
use mathlib.Core.Path.{◌≡◌, refl, ap}
use mathlib.Core.Logic.{inl, inr, ◌↔◌}
use mathlib.Core.Bool.{Bool, true, false, ◌&&◌, ◌||◌}
use mathlib.Core.Option.{Option, none, some}
use native.Mathlib.Omega.{arith}
use text.Mathlib.TextEquality.{Char-path}
use text.Mathlib.TextLemmas.{nil-append, cons-append}
use srt_whep.Prelude.Tests.{if◌then◌else◌, ◌==◌, leb, Bool-cases}

unfoldable pub strip_prefix : String → String → Option String
strip_prefix s [] = some s
strip_prefix [] (c ∷ p) = none
strip_prefix (d ∷ s) (c ∷ p) = if code d == code c then strip_prefix s p else none

abbrev is_some {ℓ} : {A : Type ℓ} → Option A → Bool
is_some none = false
is_some (some a) = true

unfoldable pub starts_with : String → String → Bool
unfolding strip_prefix
starts_with s p = is_some (strip_prefix s p)

unfoldable pub contains : String → String → Bool
unfolding starts_with
contains [] p = starts_with [] p
contains (c ∷ s) p = starts_with (c ∷ s) p || contains s p

-- The Unicode property White_Space.
pub is_whitespace : ℕ → Bool
is_whitespace c =
    (leb 0x9 c && leb c 0xd)
    || c == 0x20
    || c == 0x85
    || c == 0xa0
    || c == 0x1680
    || (leb 0x2000 c && leb c 0x200a)
    || c == 0x2028
    || c == 0x2029
    || c == 0x202f
    || c == 0x205f
    || c == 0x3000

-- `s.trim().is_empty()`.
unfoldable pub trim_is_empty : String → Bool
unfolding is_whitespace
trim_is_empty [] = true
trim_is_empty (c ∷ s) = is_whitespace (code c) && trim_is_empty s

-- The scan of `replace`; `skip` counts the characters of a match that are left to drop.
replace_from : ℕ → String → String → String → String
replace_from skip [] p to = []
replace_from (suc skip) (c ∷ s) p to = replace_from skip s p to
replace_from zero (c ∷ s) p to =
    let kept = c ∷ replace_from 0 s p to in
    let swapped = to ++ replace_from (count p - 1) s p to in
    if starts_with (c ∷ s) p then swapped else kept

-- `s.replace(p, to)` for a pattern `p` that is not empty.
unfoldable pub replace : String → String → String → String
unfolding replace_from starts_with
replace s p to = replace_from 0 s p to

pub strip_prefix-append : (p s : String) → strip_prefix (p ++ s) p ≡ some s
unfolding strip_prefix
strip_prefix-append [] s = rw nil-append
strip_prefix-append (c ∷ p) s = rw cons-append (ground (arith, strip_prefix-append p s))

pub strip_prefix-eq_some : (s p : String) {r : String} → strip_prefix s p ≡ some r → s ≡ p ++ r
unfolding strip_prefix
strip_prefix-eq_some s [] {r} e = rw nil-append (ground arith)
strip_prefix-eq_some [] (c ∷ p) e = cc
strip_prefix-eq_some (d ∷ s) (c ∷ p) {r} e = elim (Bool-cases (code d == code c)) [
  | inl same ↦
      rw cons-append
        (cc (Char-path d c (ground arith), strip_prefix-eq_some s p {r = r} (ground arith)))
  | inr other ↦ ground arith
]

-- Two texts that differ before either ends, so that neither is a prefix of the other.
abbrev pub differ : String → String → Bool
differ [] q = false
differ (c ∷ p) [] = false
differ (c ∷ p) (d ∷ q) = if code c == code d then differ p q else true

pub strip_prefix-differ : (p s q : String) → differ p q ≡ true → strip_prefix (p ++ s) q ≡ none
unfolding strip_prefix
strip_prefix-differ [] s q h = cc
strip_prefix-differ (c ∷ p) s [] h = cc
strip_prefix-differ (c ∷ p) s (d ∷ q) h = rw cons-append (ground (arith, strip_prefix-differ p s q))

pub starts_with_iff : (s p : String) → (starts_with s p ≡ true) ↔ ((r : String) × (s ≡ p ++ r))
unfolding starts_with
starts_with_iff s p = (forth (strip_prefix s p) refl, back)
  where
    forth :
        (o : Option String) → strip_prefix s p ≡ o → is_some o ≡ true → (r : String) × (s ≡ p ++ r)
    forth none e h = cc
    forth (some r) e h = (r, strip_prefix-eq_some s p e)

    back : ((r : String) × (s ≡ p ++ r)) → is_some (strip_prefix s p) ≡ true
    back (r, e) = rw (e, strip_prefix-append p r) refl

pub starts_with-contains : (s p : String) → starts_with s p ≡ true → contains s p ≡ true
unfolding contains
starts_with-contains [] p h = h
starts_with-contains (c ∷ s) p h = rw h

-- `contains` finds exactly the infixes.
pub contains_sound : (s p : String) → contains s p ≡ true → (a b : String) × (s ≡ a ++ (p ++ b))
unfolding contains
contains_sound [] p h = let (r, e) = (starts_with_iff [] p).0 h in ([], r, rw nil-append e)
contains_sound (c ∷ s) p h = elim (Bool-cases (starts_with (c ∷ s) p)) [
  | inl here ↦ let (r, e) = (starts_with_iff (c ∷ s) p).0 here in ([], r, rw nil-append e)
  | inr later ↦
      let (a, b, e) = contains_sound s p (ground arith) in (c ∷ a, b, rw cons-append (ap (◌∷◌ c) e))
]

pub contains_complete : (a p b : String) → contains (a ++ (p ++ b)) p ≡ true
unfolding contains
contains_complete [] p b =
    rw nil-append (starts_with-contains (p ++ b) p ((starts_with_iff _ p).1 (b, refl)))
contains_complete (c ∷ a) p b = rw cons-append (ground (arith, contains_complete a p b))
