-- ===== src/Base/Map.antt =====
-- `std::map` as the list of its entries in the order of their keys.
pub mod Laws
pub mod Prefix
pub mod Collect
use haraka_engine.Base.Order.{Ord}
use Prim.Native.Nat.Ordering.{lt, eq, gt}
use mathlib.Core.Path.{◌≡◌}
use mathlib.Core.Bool.{Bool, true, false}
use mathlib.Core.Option.{Option, none, some}
use mathlib.Core.List.{List, [], ◌∷◌}

abbrev pub Map {ℓ κ} : Type ℓ → Type κ → Type (ℓ ⊔ κ)
Map K V = List (K × V)

abbrev pub same {ℓ} : {K : Type ℓ} ⦃o : Ord K⦄ → K → K → Bool
same ⦃o⦄ j k = elim (o.cmp j k) [ eq ↦ true | _ ↦ false ]

module _ {ℓ κ} {K : Type ℓ} ⦃o : Ord K⦄ {V : Type κ} where
  -- `m.find(k)`, `m.at(k)`
  unfoldable pub find : K → Map K V → Option V
  find k [] = none
  find k ((j, v) ∷ m) = elim (o.cmp k j) [ eq ↦ some v | _ ↦ find k m ]

  -- `m[k] = v`
  unfoldable pub assign : K → V → Map K V → Map K V
  assign k v [] = (k, v) ∷ []
  assign k v ((j, w) ∷ m) = elim (o.cmp k j) [
    | lt ↦ (k, v) ∷ (j, w) ∷ m
    | eq ↦ (k, v) ∷ m
    | gt ↦ (j, w) ∷ assign k v m
  ]

  -- `m.insert({k, v})`: an entry that is there stays.
  unfoldable pub insert : K → V → Map K V → Map K V
  insert k v m = elim (find k m) [ none ↦ assign k v m | some _ ↦ m ]

  -- `m.erase(it)`
  unfoldable pub erase : K → Map K V → Map K V
  erase k [] = []
  erase k ((j, w) ∷ m) = elim (o.cmp k j) [ eq ↦ m | _ ↦ (j, w) ∷ erase k m ]

  -- Every key lies above `k`.
  abbrev pub Above : K → Map K V → Type ℓ
  Above k [] = Unit
  Above k ((j, v) ∷ m) = (o.cmp k j ≡ lt) × Above k m

  abbrev pub IsSorted : Map K V → Type ℓ
  IsSorted [] = Unit
  IsSorted ((k, v) ∷ m) = Above k m × IsSorted m

  -- Every key lies below `k`.
  abbrev pub Below : Map K V → K → Type ℓ
  Below [] k = Unit
  Below ((j, v) ∷ m) k = (o.cmp j k ≡ lt) × Below m k

  -- Every key of the first map lies below every key of the second, which is sorted.
  abbrev pub Before {μ} : {W : Type μ} → Map K V → Map K W → Type ℓ
  Before pre [] = Unit
  Before pre ((k, v) ∷ m) = Below pre k

-- What holds of each entry.
abbrev pub Entries : {K V : Type 0} → (K → V → Type 0) → Map K V → Type 0
Entries P [] = Unit
Entries P ((k, v) ∷ m) = P k v × Entries P m

-- Two maps with the same keys, and values that are related.
abbrev pub Aligned : {K V W : Type 0} → (V → W → Type 0) → Map K V → Map K W → Type 0
Aligned R [] [] = Unit
Aligned R ((j, v) ∷ m) ((k, w) ∷ n) = (j ≡ k) × R v w × Aligned R m n
Aligned R [] ((k, w) ∷ n) = ⊥
Aligned R ((j, v) ∷ m) [] = ⊥
