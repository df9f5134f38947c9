-- ===== src/Base/Map/Collect.antt =====
-- A loop that reads the entries of an unordered map into a `std::map`, in two orders.
use mathlib.Core.Path.{◌≡◌, refl, sym, ap, ◌∙◌, subst}
use mathlib.Core.Bool.{true, false}
use mathlib.Core.Logic.{inl, inr}
use mathlib.Core.Option.{Option, none, some}
use mathlib.Core.List.{[], ◌∷◌}
use native.Mathlib.Omega.{arith}
use haraka_engine.Base.Tests.{Bool-cases, Option-cases}
use haraka_engine.Base.Outcome.{Result, ok, ◌>>=◌, >>=-eq-ok}
use haraka_engine.Base.Order.{Ord}
use haraka_engine.Base.Map.{Map, find, insert, same, IsSorted}
use haraka_engine.Base.Map.Laws.{
  find-assign, assign-IsSorted, eq_of_same, same_refl, map_ext, find-head,
}

-- A first value stays.
abbrev or_else : {V : Type 0} → Option V → V → Option V
or_else none v = some v
or_else (some u) v = some u

module _ {K V : Type 0} ⦃o : Ord K⦄ where
  -- No key stands twice in the list of entries.
  abbrev pub DistinctKeys : Map K V → Type 0
  DistinctKeys [] = Unit
  DistinctKeys ((k, v) ∷ m) = (find k m ≡ none) × DistinctKeys m

  pub find_met : (j k : K) (v : V) (m : Map K V) → same j k ≡ true → find j ((k, v) ∷ m) ≡ some v
  find_met j k v m h = rw (eq_of_same j k h) (find-head k v m)

  pub find_other :
      (j k : K) (v : V) (m : Map K V) → same j k ≡ false → find j ((k, v) ∷ m) ≡ find j m
  unfolding find
  find_other j k v m h = ground (arith, h)

  find-insert_same : (k : K) (v : V) (m : Map K V) → find k (insert k v m) ≡ or_else (find k m) v
  unfolding insert
  find-insert_same k v m = elim (Option-cases (find k m)) [
    | inl e ↦ rw (e, insert) (find-assign k k v m ∙ rw (same_refl k) refl)
    | inr (u, e) ↦ rw (e, insert, e) refl
  ]

  find-insert_met :
      (j k : K) (v : V) (m : Map K V)
      → same j k ≡ true
      → find j (insert k v m) ≡ or_else (find j m) v
  find-insert_met j k v m h =
      subst (λ i. find i (insert k v m) ≡ or_else (find i m) v) (sym (eq_of_same j k h))
        (find-insert_same k v m)

  find-insert_other :
      (j k : K) (v : V) (m : Map K V) → same j k ≡ false → find j (insert k v m) ≡ find j m
  unfolding insert
  find-insert_other j k v m h = elim (Option-cases (find k m)) [
    | inl e ↦ rw (e, insert) (find-assign j k v m ∙ rw h refl)
    | inr (u, e) ↦ rw (e, insert) refl
  ]

  insert-IsSorted : (k : K) (v : V) (m : Map K V) → IsSorted m → IsSorted (insert k v m)
  unfolding insert
  insert-IsSorted k v m s = elim (Option-cases (find k m)) [
    | inl e ↦ rw (e, insert) (assign-IsSorted k v m s)
    | inr (u, e) ↦ rw (e, insert) s
  ]

module _ {K V D : Type 0} ⦃o : Ord K⦄ (step : K → D → Result V) where
  -- The loop: each entry's value is made, and inserted under its key.
  unfoldable pub collect : Map K D → Map K V → Result (Map K V)
  collect [] acc = ok acc
  collect ((k, d) ∷ ds) acc = step k d >>= λ v. collect ds (insert k v acc)

  abbrev Outcome : Map K V → Map K V → K → Option D → Type 0
  Outcome acc ws j none = find j ws ≡ find j acc
  Outcome acc ws j (some d) = (v : V) × (step j d ≡ ok v) × (find j ws ≡ or_else (find j acc) v)

  collect-IsSorted :
      (ds : Map K D) (acc ws : Map K V) → IsSorted acc → collect ds acc ≡ ok ws → IsSorted ws
  unfolding collect
  collect-IsSorted [] acc ws s e = let q : acc ≡ ws = cc in subst IsSorted q s
  collect-IsSorted ((k, d) ∷ ds) acc ws s e =
      let (v, made, rest) = >>=-eq-ok (step k d) _ e in
      collect-IsSorted ds (insert k v acc) ws (insert-IsSorted k v acc s) rest

  Outcome-insert :
      (j k : K) (v : V) (acc ws : Map K V) (r : Option D)
      → same j k ≡ false
      → Outcome (insert k v acc) ws j r
      → Outcome acc ws j r
  Outcome-insert j k v acc ws none e h = h ∙ find-insert_other j k v acc e
  Outcome-insert j k v acc ws (some d) e (u, made, put) =
      (u, made, put ∙ ap (λ r. or_else r u) (find-insert_other j k v acc e))

  collect-Outcome :
      (ds : Map K D) (acc ws : Map K V) (j : K)
      → DistinctKeys ds
      → collect ds acc ≡ ok ws
      → Outcome acc ws j (find j ds)
  unfolding collect find
  collect-Outcome [] acc ws j u e = let q : acc ≡ ws = cc in ap (find j) (sym q)
  collect-Outcome ((k, d) ∷ ds) acc ws j u e =
      let (v, made, rest) = >>=-eq-ok (step k d) _ e in
      elim (Bool-cases (same j k)) [
        | inl h ↦
            let jk = eq_of_same j k h in
            let kept =
              subst (Outcome (insert k v acc) ws j) (ap (λ i. find i ds) jk ∙ u.0)
                (collect-Outcome ds (insert k v acc) ws j u.1 rest) in
            subst (Outcome acc ws j) (sym (find_met j k d ds h))
              (v, subst (λ i. step i d ≡ ok v) (sym jk) made, kept ∙ find-insert_met j k v acc h)
        | inr h ↦ subst (Outcome acc ws j) (sym (find_other j k d ds h)) (
            Outcome-insert j k v acc ws (find j ds) h
              (collect-Outcome ds (insert k v acc) ws j u.1 rest))
      ]

  -- Each entry has a value.
  abbrev Ready : K → Option D → Type 0
  Ready j none = Unit
  Ready j (some d) = (v : V) × (step j d ≡ ok v)

  collect-Ready :
      (ds : Map K D) (acc : Map K V)
      → DistinctKeys ds
      → ((j : K) → Ready j (find j ds))
      → (ws : Map K V) × (collect ds acc ≡ ok ws)
  unfolding collect
  collect-Ready [] acc u ready = (acc, refl)
  collect-Ready ((k, d) ∷ ds) acc u ready =
      let (v, made) = subst (Ready k) (find-head k d ds) (ready k) in
      let (ws, rest) = collect-Ready ds (insert k v acc) u.1 (λ j. elim (Bool-cases (same j k)) [
        | inl h ↦ subst (Ready j) (sym (ap (λ i. find i ds) (eq_of_same j k h) ∙ u.0)) tt
        | inr h ↦ subst (Ready j) (find_other j k d ds h) (ready j)
      ]) in
      (ws, rw made rest)

  -- What one list of entries gives, the other gives too.
  abbrev pub Agrees : K → Option D → Option D → Type 0
  Agrees j none none = Unit
  Agrees j (some d) (some e) = (v : V) → step j d ≡ ok v → step j e ≡ ok v
  Agrees j _ _ = ⊥

  Outcome-Agrees :
      (acc ws : Map K V) (j : K) (r q : Option D)
      → Agrees j r q
      → Outcome acc ws j r
      → Outcome acc ws j q
  Outcome-Agrees acc ws j none none a h = h
  Outcome-Agrees acc ws j (some d) (some e) a (v, made, put) = (v, a v made, put)
  Outcome-Agrees acc ws j none (some e) a h = absurd a
  Outcome-Agrees acc ws j (some d) none a h = absurd a

  Outcome-Ready : (acc ws : Map K V) (j : K) (r : Option D) → Outcome acc ws j r → Ready j r
  Outcome-Ready acc ws j none h = tt
  Outcome-Ready acc ws j (some d) (v, made, put) = (v, made)

  Outcome-one :
      (acc ws us : Map K V) (j : K) (r : Option D)
      → Outcome acc ws j r
      → Outcome acc us j r
      → find j ws ≡ find j us
  Outcome-one acc ws us j none h g = h ∙ sym g
  Outcome-one acc ws us j (some d) (v, made, put) (v', made', put') =
      let one : v ≡ v' = cc in put ∙ ap (or_else (find j acc)) one ∙ sym put'

  pub collect_order :
      (ds es : Map K D) (acc ws : Map K V)
      → DistinctKeys ds
      → DistinctKeys es
      → ((j : K) → Agrees j (find j ds) (find j es))
      → IsSorted acc
      → collect ds acc ≡ ok ws
      → collect es acc ≡ ok ws
  collect_order ds es acc ws u v agrees s e =
      let outcome : (j : K) → Outcome acc ws j (find j es) = λ j.
        Outcome-Agrees acc ws j (find j ds) (find j es) (agrees j)
          (collect-Outcome ds acc ws j u e) in
      let (us, f) = collect-Ready es acc v (λ j. Outcome-Ready acc ws j (find j es) (outcome j)) in
      let one : us ≡ ws =
        map_ext us ws (collect-IsSorted es acc us s f) (collect-IsSorted ds acc ws s e) (λ j.
          Outcome-one acc us ws j (find j es) (collect-Outcome es acc us j v f) (outcome j)) in
      f ∙ ap ok one
