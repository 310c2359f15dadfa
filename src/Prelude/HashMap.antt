-- ===== src/Prelude/HashMap.antt =====
-- `HashMap<String, V>` as an association list. The order of the list stands for the order of
-- `iter` and `drain`, which Rust leaves open.
use Prim.Native.Nat.{ℕ, ◌+◌}
use Prim.Native.String.{String}
use mathlib.Core.Path.{◌≡◌, refl}
use mathlib.Core.Option.{Option, none, some}
use mathlib.Core.List.{List, [], ◌∷◌}
use native.Mathlib.Omega.{arith}
use text.Mathlib.Text.{◌==◌}
use text.Mathlib.TextEquality.{eq_iff}
use srt_whep.Prelude.Tests.{if◌then◌else◌}

module _ {ℓ} {V : Type ℓ} where
  unfoldable pub erase : String → List (String × V) → List (String × V)
  erase key [] = []
  erase key ((other, v) ∷ entries) =
      if other == key then erase key entries else (other, v) ∷ erase key entries

  unfoldable pub insert : String → V → List (String × V) → List (String × V)
  insert key v entries = (key, v) ∷ erase key entries

  -- `get`, and the value that `remove` takes out.
  unfoldable pub lookup : String → List (String × V) → Option V
  lookup key [] = none
  lookup key ((found, value) ∷ entries) = if found == key then some value else lookup key entries

  -- The sum of a measure over the values.
  unfoldable pub total : (V → ℕ) → List (String × V) → ℕ
  total f [] = 0
  total f ((other, v) ∷ entries) = f v + total f entries

  abbrev pub measure : (V → ℕ) → Option V → ℕ
  measure f none = 0
  measure f (some v) = f v

  abbrev pub HasUniqueKeys : List (String × V) → Type ℓ
  HasUniqueKeys [] = Unit
  HasUniqueKeys ((other, v) ∷ entries) = (lookup other entries ≡ none) × HasUniqueKeys entries

  pub lookup-erase :
      (key other : String) (entries : List (String × V))
      → lookup other (erase key entries) ≡ (if key == other then none else lookup other entries)
  unfolding lookup erase
  lookup-erase key other [] = ground (arith, eq_iff key other)
  lookup-erase key other ((i, w) ∷ entries) =
      ground (arith, eq_iff key other, eq_iff i key, eq_iff i other, lookup-erase key other entries)

  pub lookup-insert :
      (key other : String) (v : V) (entries : List (String × V))
      → lookup other (insert key v entries)
        ≡ (if key == other then some v else lookup other entries)
  unfolding lookup insert
  lookup-insert key other v entries = ground (arith, lookup-erase key other entries)

  pub erase-HasUniqueKeys :
      (key : String) (entries : List (String × V))
      → HasUniqueKeys entries
      → HasUniqueKeys (erase key entries)
  unfolding erase
  erase-HasUniqueKeys key [] u = tt
  erase-HasUniqueKeys key ((other, v) ∷ entries) (fresh, u) =
      ground (arith, erase-HasUniqueKeys key entries u, lookup-erase key other entries)

  pub insert-HasUniqueKeys :
      (key : String) (v : V) (entries : List (String × V))
      → HasUniqueKeys entries
      → HasUniqueKeys (insert key v entries)
  unfolding insert
  insert-HasUniqueKeys key v entries u =
      ground
        (arith, erase-HasUniqueKeys key entries u, lookup-erase key key entries, eq_iff key key)

  pub erase_absent :
      (key : String) (entries : List (String × V))
      → lookup key entries ≡ none
      → erase key entries ≡ entries
  unfolding lookup erase
  erase_absent key [] e = refl
  erase_absent key ((other, v) ∷ entries) e = ground (arith, erase_absent key entries)

  pub total-erase :
      (f : V → ℕ) (key : String) (entries : List (String × V))
      → HasUniqueKeys entries
      → total f entries ≡ total f (erase key entries) + measure f (lookup key entries)
  unfolding lookup erase total
  total-erase f key [] u = omega arith
  total-erase f key ((other, v) ∷ entries) (fresh, u) = ground (
    arith,
    total-erase f key entries u,
    eq_iff other key,
    erase_absent other entries,
    erase_absent key entries,
  )

  -- A new key adds its value to a sum.
  pub total-insert :
      (f : V → ℕ) (key : String) (v : V) (entries : List (String × V))
      → lookup key entries ≡ none
      → total f (insert key v entries) ≡ f v + total f entries
  unfolding insert total
  total-insert f key v entries e = rw (erase_absent key entries e) refl

  pub lookup-erase_self :
      (key : String) (entries : List (String × V)) → lookup key (erase key entries) ≡ none
  lookup-erase_self key entries = ground (arith, lookup-erase key key entries, eq_iff key key)
