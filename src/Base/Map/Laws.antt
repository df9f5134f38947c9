-- ===== src/Base/Map/Laws.antt =====
-- The laws of `std::map`: what a lookup finds after a write, that writes keep the order of the
-- keys, and that a map is known by its lookups.
use Prim.Native.Nat.{Ordering}
use Prim.Native.Nat.Ordering.{lt, eq, gt}
use mathlib.Core.Path.{◌≡◌, refl}
use mathlib.Core.Bool.{true}
use mathlib.Core.Logic.{◌⊎◌, inl, inr}
use mathlib.Core.Option.{none, some}
use mathlib.Core.List.{[], ◌∷◌}
use native.Mathlib.Omega.{arith}
use haraka_engine.Base.Tests.{if◌then◌else◌}
use haraka_engine.Base.Order.{Ord}
use haraka_engine.Base.Map.{Map, find, assign, insert, erase, same, Above, IsSorted, Entries}

Ordering-cases : (c : Ordering) → (c ≡ lt) ⊎ ((c ≡ eq) ⊎ (c ≡ gt))
Ordering-cases lt = inl refl
Ordering-cases eq = inr (inl refl)
Ordering-cases gt = inr (inr refl)

module _ {ℓ} {K : Type ℓ} ⦃o : Ord K⦄ where
  pub same_refl : (k : K) → same k k ≡ true
  same_refl k = rw (o.cmp_same k, same)

  pub eq_of_same : (j k : K) → same j k ≡ true → j ≡ k
  eq_of_same j k h = ground (arith, o.same_of_eq j k)

module _ {ℓ κ} {K : Type ℓ} ⦃o : Ord K⦄ {V : Type κ} where
  pub find-assign :
      (j k : K) (v : V) (m : Map K V)
      → find j (assign k v m) ≡ (if same j k then some v else find j m)
  unfolding find assign
  find-assign j k v [] = ground arith
  find-assign j k v ((i, w) ∷ m) = ground (
    arith,
    o.same_of_eq k i,
    o.same_of_eq j i,
    o.same_of_eq j k,
    o.cmp_same k,
    find-assign j k v m,
  )

  Above-trans : (j k : K) (m : Map K V) → o.cmp j k ≡ lt → Above k m → Above j m
  Above-trans j k [] h a = tt
  Above-trans j k ((i, w) ∷ m) h a = (o.lt_chain j k i h a.0, Above-trans j k m h a.1)

  -- A key below all others is not there.
  pub find-Above : (k : K) (m : Map K V) → Above k m → find k m ≡ none
  unfolding find
  find-Above k [] a = refl
  find-Above k ((i, w) ∷ m) a = rw (a.0, find) (find-Above k m a.1)

  Above-assign :
      (j k : K) (v : V) (m : Map K V) → o.cmp j k ≡ lt → Above j m → Above j (assign k v m)
  unfolding assign
  Above-assign j k v [] h a = (h, tt)
  Above-assign j k v ((i, w) ∷ m) h a = ground (arith, Above-assign j k v m h a.1)

  Above-erase : (j k : K) (m : Map K V) → Above j m → Above j (erase k m)
  unfolding erase
  Above-erase j k [] a = tt
  Above-erase j k ((i, w) ∷ m) a = ground (arith, Above-erase j k m a.1)

  pub assign-IsSorted : (k : K) (v : V) (m : Map K V) → IsSorted m → IsSorted (assign k v m)
  unfolding assign
  assign-IsSorted k v [] s = (tt, tt)
  assign-IsSorted k v ((i, w) ∷ m) s = ground (
    arith,
    o.flip_gt k i,
    o.same_of_eq k i,
    Above-trans k i m,
    Above-assign i k v m,
    assign-IsSorted k v m s.1,
  )

  pub erase-IsSorted : (k : K) (m : Map K V) → IsSorted m → IsSorted (erase k m)
  unfolding erase
  erase-IsSorted k [] s = tt
  erase-IsSorted k ((i, w) ∷ m) s = ground (arith, Above-erase i k m s.0, erase-IsSorted k m s.1)

  pub insert_new : (k : K) (v : V) (m : Map K V) → find k m ≡ none → insert k v m ≡ assign k v m
  unfolding insert
  insert_new k v m h = rw (h, insert)

  pub find-erase :
      (j k : K) (m : Map K V)
      → IsSorted m
      → find j (erase k m) ≡ (if same j k then none else find j m)
  unfolding find erase
  find-erase j k [] s = ground arith
  find-erase j k ((i, w) ∷ m) s = ground (
    arith,
    o.same_of_eq k i,
    o.same_of_eq j i,
    o.same_of_eq j k,
    o.cmp_same k,
    find-Above i m s.0,
    find-erase j k m s.1,
  )

  pub erase_absent : (k : K) (m : Map K V) → find k m ≡ none → erase k m ≡ m
  unfolding find erase
  erase_absent k [] h = refl
  erase_absent k ((i, w) ∷ m) h = ground (arith, erase_absent k m)

  pub find-head : (k : K) (v : V) (m : Map K V) → find k ((k, v) ∷ m) ≡ some v
  unfolding find
  find-head k v m = rw (o.cmp_same k, find)

  pub find_below :
      (i j : K) (w : V) (n : Map K V) → o.cmp i j ≡ lt → Above j n → find i ((j, w) ∷ n) ≡ none
  find_below i j w n h a = find-Above i ((j, w) ∷ n) (h, Above-trans i j n h a)

  -- The entries behind equal heads, where the whole maps have equal lookups.
  find_tails :
      (i j : K) (v w : V) (m n : Map K V)
      → i ≡ j
      → Above i m
      → Above j n
      → ((k : K) → find k ((i, v) ∷ m) ≡ find k ((j, w) ∷ n))
      → (k : K) → find k m ≡ find k n
  unfolding find
  find_tails i j v w m n e a b h k =
      ground (arith, h k, o.same_of_eq k i, o.same_of_eq k j, find-Above i m a, find-Above j n b)

  pub find_nil : (k : K) → find {V = V} k [] ≡ none
  unfolding find
  find_nil k = refl

  -- Two maps with the same lookups are one map.
  pub map_ext : (m n : Map K V) → IsSorted m → IsSorted n → ((k : K) → find k m ≡ find k n) → m ≡ n
  map_ext [] [] s t h = refl
  map_ext [] ((j, w) ∷ n) s t h = cc (h j, find_nil j, find-head j w n)
  map_ext ((i, v) ∷ m) [] s t h = cc (h i, find_nil i, find-head i v m)
  map_ext ((i, v) ∷ m) ((j, w) ∷ n) s t h = elim (Ordering-cases (o.cmp i j)) [
    | inl below ↦ cc (h i, find-head i v m, find_below i j w n below t.0)
    | inr (inl met) ↦
        let e = o.same_of_eq i j met in
        cc (
          e,
          h i,
          find-head i v m,
          find-head j w n,
          map_ext m n s.1 t.1 (find_tails i j v w m n e s.0 t.0 h),
        )
    | inr (inr above) ↦ cc (h j, find-head j w n, find_below j i v m (o.flip_gt i j above) s.0)
  ]

pub Entries-assign :
    {K V : Type 0} ⦃o : Ord K⦄ (P : K → V → Type 0) (k : K) (v : V) (m : Map K V)
    → P k v
    → Entries P m
    → Entries P (assign k v m)
unfolding assign
Entries-assign P k v [] h es = (h, tt)
Entries-assign ⦃o⦄ P k v ((j, w) ∷ m) h es =
    elim (o.cmp k j)
      as (λ c.
        Entries P
          (elim c [ lt ↦ (k, v) ∷ (j, w) ∷ m | eq ↦ (k, v) ∷ m | gt ↦ (j, w) ∷ assign k v m ])) [
            | lt ↦ (h, es)
            | eq ↦ (h, es.1)
            | gt ↦ (es.0, Entries-assign P k v m h es.1)
          ]
