-- ===== src/Prelude/Map.antt =====
-- A `HashMap` as an association list. `insert` overwrites; the code never depends on the order.
use mathlib.Core.Path.{◌≡◌, refl, ap}
use mathlib.Core.Logic.{inl, inr}
use mathlib.Core.List.{List, [], ◌∷◌}
use mathlib.Core.Option.{Option, none, some}
use Prim.Native.Nat.{suc}
use mandate_ledger.Prelude.Lists.{length}
use native.Mathlib.Omega.{arith}
use mandate_ledger.Prelude.Logic.{if◌then◌else◌, Bool-cases}
use mandate_ledger.Prelude.Equality.{Eq, ◌==◌}

abbrev pub Map : Type 0 → Type 0 → Type 0
Map K V = List (K × V)

abbrev pub get_or : {V : Type 0} → V → Option V → V
get_or d none = d
get_or d (some v) = v

module _ {K V : Type 0} ⦃e : Eq K⦄ where
  -- `get(k)`
  unfoldable pub get : Map K V → K → Option V
  get [] k = none
  get ((j, v) ∷ m) k = if j == k then some v else get m k

  -- `insert(k, v)`, and `entry(k).or_default()` followed by a write
  unfoldable pub insert : Map K V → K → V → Map K V
  insert [] k v = (k, v) ∷ []
  insert ((j, w) ∷ m) k v = if j == k then (j, v) ∷ m else (j, w) ∷ insert m k v

  -- Reading any key after a write.
  pub get-insert :
      (m : Map K V) (k j : K) (v : V) → get (insert m k v) j ≡ (if k == j then some v else get m j)
  unfolding get insert
  get-insert [] k j v = refl
  get-insert ((i, w) ∷ m) k j v =
      ground (arith, e.beq_iff k j, e.beq_iff i k, e.beq_iff i j, get-insert m k j v)

  -- A second write to a key replaces the first.
  pub insert-insert : (m : Map K V) (k : K) (v w : V) → insert (insert m k v) k w ≡ insert m k w
  unfolding insert
  insert-insert [] k v w = ground (arith, e.beq_iff k k)
  insert-insert ((i, u) ∷ m) k v w = elim (Bool-cases (i == k)) [
    | inl same ↦ rw same (rw same refl)
    | inr other ↦ rw other (rw other (ap (λ (r : Map K V). (i, u) ∷ r) (insert-insert m k v w)))
  ]

  -- How a write changes the number of keys.
  pub length-insert :
      (m : Map K V) (k : K) (v : V)
      → length (insert m k v) ≡ elim (get m k) [ none ↦ suc (length m) | some w ↦ length m ]
  unfolding insert get
  length-insert [] k v = refl
  length-insert ((i, u) ∷ m) k v = ground (arith, length-insert m k v)
