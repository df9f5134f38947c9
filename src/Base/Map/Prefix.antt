-- ===== src/Base/Map/Prefix.antt =====
-- A loop over a map in the order of its keys works behind a prefix of smaller keys.
use Prim.Native.Nat.Ordering.{lt}
use mathlib.Core.Path.{◌≡◌, refl, ap}
use mathlib.Core.Option.{none, some}
use mathlib.Core.List.{List, [], ◌∷◌, ◌++◌}
use haraka_engine.Base.Order.{Ord}
use haraka_engine.Base.Map.{Map, find, assign, insert, Above, Below, Before}
use haraka_engine.Base.Map.Laws.{insert_new, find-head}

pub snoc-append {ℓ} :
    {A : Type ℓ} (xs : List A) (a : A) (ys : List A) → xs ++ a ∷ ys ≡ (xs ++ a ∷ []) ++ ys
snoc-append [] a ys = refl
snoc-append (x ∷ xs) a ys = ap (λ r. x ∷ r) (snoc-append xs a ys)

module _ {ℓ κ} {K : Type ℓ} ⦃o : Ord K⦄ {V : Type κ} where
  pub find-prefix : (k : K) (pre m : Map K V) → Below pre k → find k (pre ++ m) ≡ find k m
  unfolding find
  find-prefix k [] m b = refl
  find-prefix k ((j, v) ∷ pre) m b = rw (o.flip_lt j k b.0, find) (find-prefix k pre m b.1)

  assign-prefix :
      (k : K) (v : V) (pre m : Map K V) → Below pre k → assign k v (pre ++ m) ≡ pre ++ assign k v m
  unfolding assign
  assign-prefix k v [] m b = refl
  assign-prefix k v ((j, w) ∷ pre) m b =
      rw (o.flip_lt j k b.0, assign) (ap (λ r. (j, w) ∷ r) (assign-prefix k v pre m b.1))

  assign-head : (k : K) (v w : V) (m : Map K V) → assign k v ((k, w) ∷ m) ≡ (k, v) ∷ m
  unfolding assign
  assign-head k v w m = rw (o.cmp_same k, assign)

  -- The entry behind the prefix is found and replaced in its place.
  pub find-here :
      (k : K) (v : V) (pre m : Map K V) → Below pre k → find k (pre ++ (k, v) ∷ m) ≡ some v
  find-here k v pre m b = rw (find-prefix k pre ((k, v) ∷ m) b) (find-head k v m)

  pub assign-here :
      (k : K) (v w : V) (pre m : Map K V)
      → Below pre k
      → assign k v (pre ++ (k, w) ∷ m) ≡ (pre ++ (k, v) ∷ []) ++ m
  assign-here k v w pre m b =
      rw (assign-prefix k v pre ((k, w) ∷ m) b, assign-head k v w m) (snoc-append pre (k, v) m)

  -- A key above all others goes to the end.
  pub assign-end : (k : K) (v : V) (m : Map K V) → Below m k → assign k v m ≡ m ++ (k, v) ∷ []
  unfolding assign
  assign-end k v [] b = refl
  assign-end k v ((j, w) ∷ m) b =
      rw (o.flip_lt j k b.0, assign) (ap (λ r. (j, w) ∷ r) (assign-end k v m b.1))

  find_end : (k : K) (m : Map K V) → Below m k → find k m ≡ none
  unfolding find
  find_end k [] b = refl
  find_end k ((j, w) ∷ m) b = rw (o.flip_lt j k b.0, find) (find_end k m b.1)

  pub insert-end : (k : K) (v : V) (m : Map K V) → Below m k → insert k v m ≡ m ++ (k, v) ∷ []
  insert-end k v m b = rw (insert_new k v m (find_end k m b)) (assign-end k v m b)

  Below-trans : (j k : K) (m : Map K V) → o.cmp j k ≡ lt → Below m j → Below m k
  Below-trans j k [] h b = tt
  Below-trans j k ((i, w) ∷ m) h b = (o.lt_chain i j k b.0 h, Below-trans j k m h b.1)

  pub Below-snoc :
      (j k : K) (v : V) (m : Map K V) → o.cmp j k ≡ lt → Below m j → Below (m ++ (j, v) ∷ []) k
  Below-snoc j k v [] h b = (h, tt)
  Below-snoc j k v ((i, w) ∷ m) h b = (o.lt_chain i j k b.0 h, Below-snoc j k v m h b.1)

  pub Before-snoc {μ} :
      {W : Type μ} (j : K) (v : V) (pre : Map K V) (m : Map K W)
      → Above j m
      → Below pre j
      → Before (pre ++ (j, v) ∷ []) m
  Before-snoc j v pre [] a b = tt
  Before-snoc j v pre ((k, w) ∷ m) a b = Below-snoc j k v pre a.0 b

pub Before-nil {ℓ κ μ} :
    {K : Type ℓ} ⦃o : Ord K⦄ (V : Type κ) {W : Type μ} (m : Map K W) → Before {V = V} [] m
Before-nil V [] = tt
Before-nil V ((k, w) ∷ m) = tt
