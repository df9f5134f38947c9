-- ===== src/Core/Object/AnyOrder.antt =====
-- The buffers' maps of protocol buffers are read in no particular order: what that does to an object.
use haraka_engine.Base.{
  ◌≡◌, refl, sym, ap, ◌∙◌, subst, Option, Bool-cases, inl, inr, none, some, [], ◌∷◌, Result, ok,
  or_fail, null_pointer, >>=-eq-ok, false,
}
use haraka_engine.Base.Order.{Bytes, bytes_ord}
use haraka_engine.Base.Map.{Map, find, assign, same, IsSorted}
use haraka_engine.Base.Map.Laws.{
  find-assign, assign-IsSorted, eq_of_same, same_refl, map_ext, find-head,
}
use haraka_engine.Base.Map.Collect.{DistinctKeys, find_met, find_other}
use haraka_engine.Core.Platform.{Platform}
use haraka_engine.Core.Object.{
  GameObject, ObjectBuffer, Game, for_values, restore, instantiate, deserialize,
}

module _ {D : Type 0} where
  assign_here : (k : Bytes) (d : D) (ds : Map Bytes D) → find k (assign k d ds) ≡ some d
  assign_here k d ds = find-assign k k d ds ∙ rw (same_refl k) refl

  assign_other :
      (j k : Bytes) (d : D) (ds : Map Bytes D)
      → same j k ≡ false
      → find j (assign k d ds) ≡ find j ds
  assign_other j k d ds h = find-assign j k d ds ∙ rw h refl

module _ {V D : Type 0} (step : V → D → Result V) where
  -- What the loop makes of the value of a name.
  abbrev pub Outcome : Map Bytes V → Map Bytes V → Bytes → Option D → Type 0
  Outcome vs ws j none = find j ws ≡ find j vs
  Outcome vs ws j (some d) =
      (v : V) × (w : V) × (find j vs ≡ some v) × (step v d ≡ ok w) × (find j ws ≡ some w)

  abbrev Ready : Map Bytes V → Bytes → Option D → Type 0
  Ready vs j none = Unit
  Ready vs j (some d) = (v : V) × (w : V) × (find j vs ≡ some v) × (step v d ≡ ok w)

  or_fail-some : (o : Option V) {v : V} → or_fail o null_pointer ≡ ok v → o ≡ some v
  or_fail-some none h = absurd (cc)
  or_fail-some (some v) h = cc

  -- The loop's first entry, taken apart.
  for_values-cons :
      (k : Bytes) (d : D) (ds : Map Bytes D) (vs ws : Map Bytes V)
      → for_values step ((k, d) ∷ ds) vs ≡ ok ws
      → (v : V) × (w : V) × (find k vs ≡ some v)
        × (step v d ≡ ok w)
        × (for_values step ds (assign k w vs) ≡ ok ws)
  unfolding for_values
  for_values-cons k d ds vs ws e =
      let (v, found, rest) = >>=-eq-ok (or_fail (find k vs) null_pointer) _ e in
      let (w, made, end) = >>=-eq-ok (step v d) _ rest in
      (v, w, or_fail-some (find k vs) found, made, end)

  for_values-IsSorted :
      (ds : Map Bytes D) (vs ws : Map Bytes V)
      → IsSorted vs
      → for_values step ds vs ≡ ok ws
      → IsSorted ws
  unfolding for_values
  for_values-IsSorted [] vs ws s e = subst IsSorted (cc) s
  for_values-IsSorted ((k, d) ∷ ds) vs ws s e =
      let (v, w, _, _, rest) = for_values-cons k d ds vs ws e in
      for_values-IsSorted ds (assign k w vs) ws (assign-IsSorted k w vs s) rest

  Outcome-assign :
      (j k : Bytes) (w : V) (vs ws : Map Bytes V) (r : Option D)
      → same j k ≡ false
      → Outcome (assign k w vs) ws j r
      → Outcome vs ws j r
  Outcome-assign j k w vs ws none e h = h ∙ assign_other j k w vs e
  Outcome-assign j k w vs ws (some d) e (v, u, found, made, put) =
      (v, u, sym (assign_other j k w vs e) ∙ found, made, put)

  pub for_values-Outcome :
      (ds : Map Bytes D) (vs ws : Map Bytes V) (j : Bytes)
      → DistinctKeys ds
      → for_values step ds vs ≡ ok ws
      → Outcome vs ws j (find j ds)
  unfolding for_values find
  for_values-Outcome [] vs ws j u e = ap (find j) (cc)
  for_values-Outcome ((k, d) ∷ ds) vs ws j u e =
      let (v, w, found, made, rest) = for_values-cons k d ds vs ws e in
      elim (Bool-cases (same j k)) [
        | inl h ↦
            let kept =
              subst (Outcome (assign k w vs) ws k) u.0
                (for_values-Outcome ds (assign k w vs) ws k u.1 rest) in
            subst (Outcome vs ws j) (sym (find_met j k d ds h)) (
              subst (λ i. Outcome vs ws i (some d)) (sym (eq_of_same j k h))
                (v, w, found, made, kept ∙ assign_here k w vs))
        | inr h ↦ subst (Outcome vs ws j) (sym (find_other j k d ds h)) (
            Outcome-assign j k w vs ws (find j ds) h
              (for_values-Outcome ds (assign k w vs) ws j u.1 rest))
      ]

  Ready-assign :
      (j k : Bytes) (w : V) (vs : Map Bytes V) (r : Option D)
      → same j k ≡ false
      → Ready vs j r
      → Ready (assign k w vs) j r
  Ready-assign j k w vs none e h = tt
  Ready-assign j k w vs (some d) e (v, u, found, made) =
      (v, u, assign_other j k w vs e ∙ found, made)

  Ready-rest :
      (k : Bytes) (d : D) (ds : Map Bytes D) (vs : Map Bytes V) (w : V)
      → find k ds ≡ none
      → ((j : Bytes) → Ready vs j (find j ((k, d) ∷ ds)))
      → (j : Bytes) → Ready (assign k w vs) j (find j ds)
  Ready-rest k d ds vs w absent ready j = elim (Bool-cases (same j k)) [
    | inl h ↦
        subst (Ready (assign k w vs) j) (sym (ap (λ i. find i ds) (eq_of_same j k h) ∙ absent)) tt
    | inr h ↦
        Ready-assign j k w vs (find j ds) h (subst (Ready vs j) (find_other j k d ds h) (ready j))
  ]

  for_values-Ready :
      (ds : Map Bytes D) (vs : Map Bytes V)
      → DistinctKeys ds
      → ((j : Bytes) → Ready vs j (find j ds))
      → (ws : Map Bytes V) × (for_values step ds vs ≡ ok ws)
  unfolding for_values
  for_values-Ready [] vs u ready = (vs, refl)
  for_values-Ready ((k, d) ∷ ds) vs u ready =
      let (v, w, found, made) = subst (Ready vs k) (find-head k d ds) (ready k) in
      let (ws, rest) = for_values-Ready ds (assign k w vs) u.1 (Ready-rest k d ds vs w u.0 ready) in
      (ws, rw (found, made) rest)

  Outcome-Ready :
      (vs ws : Map Bytes V) (j : Bytes) (r : Option D) → Outcome vs ws j r → Ready vs j r
  Outcome-Ready vs ws j none h = tt
  Outcome-Ready vs ws j (some d) (v, w, found, made, _) = (v, w, found, made)

  Outcome-one :
      (vs ws us : Map Bytes V) (j : Bytes) (r : Option D)
      → Outcome vs ws j r
      → Outcome vs us j r
      → find j ws ≡ find j us
  Outcome-one vs ws us j none h g = h ∙ sym g
  Outcome-one vs ws us j (some d) (v, w, found, made, put) (v', w', found', made', put') =
      let same_v : v ≡ v' = cc in
      let same_w : w ≡ w' = cc (made, ap (λ x. step x d) same_v, made') in
      put ∙ ap some same_w ∙ sym put'

  pub for_values_order :
      (ds es : Map Bytes D) (vs ws : Map Bytes V)
      → DistinctKeys ds
      → DistinctKeys es
      → ((j : Bytes) → find j ds ≡ find j es)
      → IsSorted vs
      → for_values step ds vs ≡ ok ws
      → for_values step es vs ≡ ok ws
  for_values_order ds es vs ws u v same_map s e =
      let outcome : (j : Bytes) → Outcome vs ws j (find j es) =
        λ j. subst (Outcome vs ws j) (same_map j) (for_values-Outcome ds vs ws j u e) in
      let (us, f) = for_values-Ready es vs v (λ j. Outcome-Ready vs ws j (find j es) (outcome j)) in
      let one : us ≡ ws =
        map_ext us ws (for_values-IsSorted es vs us s f) (for_values-IsSorted ds vs ws s e) (λ j.
          Outcome-one vs us ws j (find j es) (for_values-Outcome es vs us j v f) (outcome j)) in
      f ∙ ap ok one

module _ {F : Type 0} ⦃p : Platform F⦄ where
  -- With a game whose `add_values` keeps the values in the order of their names: where a buffer
  -- with distinct names is read to an object, a buffer with the same values, the names distinct and
  -- in any other order, is read to the same object.
  pub deserialize_any_order :
      (g : Game F) (b : ObjectBuffer) (values : Map Bytes Bytes) (o : GameObject F)
      → DistinctKeys b.values
      → DistinctKeys values
      → ((name : Bytes) → find name b.values ≡ find name values)
      → ((x : GameObject F) → IsSorted (g.add_values x).values)
      → deserialize g b ≡ ok o
      → deserialize g (record b { values = values }) ≡ ok o
  unfolding deserialize
  deserialize_any_order g b values o u v same_map sorted e =
      let (created, found, rest) = >>=-eq-ok (instantiate g b.type_name) _ e in
      let (ws, ran, made) =
        >>=-eq-ok (for_values restore b.values (g.add_values (record created { id = b.id })).values)
          _ rest in
      rw
        (
          found,
          for_values_order restore b.values values _ ws u v same_map
              (sorted (record created { id = b.id })) ran,
        )
        made
