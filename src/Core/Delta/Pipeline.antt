-- ===== src/Core/Delta/Pipeline.antt =====
-- `evaluate`, `serialize`, `deserialize` and `apply` in a row: how the state of a game gets to a
-- client that has the older snapshot.
use haraka_engine.Base.{
  ℕ, ◌+◌, ◌%◌, ◌^◌, ◌≡◌, refl, sym, ap, ◌∙◌, subst, some, [], ◌∷◌, ◌++◌, ok, ◌>>=◌, ◌==◌,
  Bool-cases, Option-cases, inl, inr,
}
use haraka_engine.Base.Order.{Bytes, nat_ord, bytes_ord}
use haraka_engine.Base.Int.{◌-ℤ◌}
use haraka_engine.Base.Map.{Map, find, Above, Before, IsSorted, Aligned}
use haraka_engine.Base.Map.Laws.{Entries-assign}
use haraka_engine.Base.Map.Prefix.{find-here, Before-nil, Before-snoc, snoc-append}
use haraka_engine.Core.Platform.{Platform, IsIeee}
use haraka_engine.Core.Types.{
  GameValue, int_value, float_value, int_value_nointerp, vec2i, vec2f, get_delta,
}
use haraka_engine.Core.Types.Recovery.{IsExact, abs-IsInt32, checked_exact}
use haraka_engine.Core.Types.Wire.{IsFloat32, Reads}
use haraka_engine.Core.Object
use haraka_engine.Core.Object.{GameObject, DiffSet, Game, Clones}
use haraka_engine.Core.Object.Compare.{Deltas, compare-Deltas}
use haraka_engine.Core.Snapshot.{Snapshot}
use haraka_engine.Core.Snapshot.Serial.{AllRegistered}
use haraka_engine.Core.Object.Serial.{IsRegistered}
use haraka_engine.Core.Delta.{DeltaSnapshot, empty, evaluate, serialize, deserialize, apply}
use haraka_engine.Core.Delta.Pairs.{Part, Part-self, IsSuccession, differences, or_nothing}
use haraka_engine.Core.Delta.Evaluate.{
  extra, extra-Keyed, extra-IsSorted, changed, marks, marks-IsSorted, evaluated, evaluate_lem,
}
use haraka_engine.Core.Delta.Sync.{apply-evaluate}
use haraka_engine.Core.Delta.Serial.{
  ReadableValues, IsReadable, Readable, IsSendable, deserialize-serialize_delta,
}

module _ {F : Type 0} ⦃p : Platform F⦄ where
  -- The difference of two floats has a bit pattern of 32 bits, as every float has.
  abbrev pub Fits : GameValue F → GameValue F → Type 0
  Fits (float_value a) (float_value b) = IsFloat32 (p.sub b a)
  Fits (vec2f a) (vec2f b) = IsFloat32 (p.sub b.x a.x) × IsFloat32 (p.sub b.y a.y)
  Fits _ _ = Unit

  -- What two successive snapshots need for their difference to be sent.
  pub record IsExchangeable (g : Game F) (prev next : Snapshot F) : Type 0 where
    pub fits :
        (id : ℕ) (o n : GameObject F)
        → find id prev.objects ≡ some o
        → find id next.objects ≡ some n
        → Aligned Fits o.values n.values
    pub registered : AllRegistered g next.objects

  module _ (ieee : IsIeee p) where
    get_delta-Reads :
        (v w d : GameValue F) → get_delta v w ≡ ok d → IsExact v w → Fits v w → Reads v d
    unfolding get_delta
    get_delta-Reads (int_value a) (int_value b) d e h f =
        let q : int_value (b -ℤ a) ≡ d = cc (rw (checked_exact ieee a b h) at e) in
        subst (Reads (int_value a)) q (abs-IsInt32 _ h.2)
    get_delta-Reads (float_value a) (float_value b) d e h f =
        let q : float_value (p.sub b a) ≡ d = cc in subst (Reads (float_value a)) q f
    get_delta-Reads (int_value_nointerp a) (int_value_nointerp b) d e h f =
        let q : int_value (b -ℤ a) ≡ d = cc (rw (checked_exact ieee a b h.0) at e) in
        subst (Reads (int_value_nointerp a)) q (abs-IsInt32 _ h.0.2)
    get_delta-Reads (vec2i a) (vec2i b) d e h f =
        let q : vec2i (record { x = b.x -ℤ a.x; y = b.y -ℤ a.y }) ≡ d =
          cc (rw (checked_exact ieee a.x b.x h.0, checked_exact ieee a.y b.y h.1) at e) in
        subst (Reads (vec2i a)) q (abs-IsInt32 _ h.0.2, abs-IsInt32 _ h.1.2)
    get_delta-Reads (vec2f a) (vec2f b) d e h f =
        let q : vec2f (record { x = p.sub b.x a.x; y = p.sub b.y a.y }) ≡ d = cc in
        subst (Reads (vec2f a)) q f
    get_delta-Reads _ _ d e h f = absurd h

    Deltas-Reads :
        (ds vs ws : Map Bytes (GameValue F))
        → Deltas ds vs ws
        → Aligned IsExact vs ws
        → Aligned Fits vs ws
        → Aligned Reads vs ds
    Deltas-Reads [] [] [] d h f = tt
    Deltas-Reads ((i, d) ∷ ds) ((j, v) ∷ vs) ((k, w) ∷ ws) (e, made, rest) h f =
        (sym e, get_delta-Reads v w d made h.1 f.1, Deltas-Reads ds vs ws rest h.2 f.2)
    Deltas-Reads _ _ _ d h f = absurd d

  Above-Aligned :
      (k : Bytes) (vs ds : Map Bytes (GameValue F)) → Aligned Reads vs ds → Above k vs → Above k ds
  Above-Aligned k [] [] h a = tt
  Above-Aligned k ((j, v) ∷ vs) ((i, d) ∷ ds) h a =
      (rw (sym h.0) a.0, Above-Aligned k vs ds h.2 a.1)
  Above-Aligned k [] (_ ∷ _) h a = absurd h
  Above-Aligned k (_ ∷ _) [] h a = absurd h

  IsSorted-Aligned :
      (vs ds : Map Bytes (GameValue F)) → Aligned Reads vs ds → IsSorted vs → IsSorted ds
  IsSorted-Aligned [] [] h s = tt
  IsSorted-Aligned ((j, v) ∷ vs) ((i, d) ∷ ds) h s =
      (rw (sym h.0) (Above-Aligned j vs ds h.2 s.0), IsSorted-Aligned vs ds h.2 s.1)
  IsSorted-Aligned [] (_ ∷ _) h s = absurd h
  IsSorted-Aligned (_ ∷ _) [] h s = absurd h

  ReadableValues-Aligned :
      (o : GameObject F) (pre vs : Map Bytes (GameValue F)) (ds : DiffSet F)
      → o.values ≡ pre ++ vs
      → IsSorted vs
      → Before pre vs
      → Aligned Reads vs ds
      → ReadableValues o ds
  ReadableValues-Aligned o pre [] [] e s b h = tt
  ReadableValues-Aligned o pre ((j, v) ∷ vs) ((i, d) ∷ ds) e s b h = (
    (v, rw (sym h.0, e) (find-here j v pre vs b), h.1),
    ReadableValues-Aligned o (pre ++ (j, v) ∷ []) vs ds (e ∙ snoc-append pre (j, v) vs) s.1
        (Before-snoc j v pre vs s.0 b) h.2,
  )
  ReadableValues-Aligned o pre [] (_ ∷ _) e s b h = absurd h
  ReadableValues-Aligned o pre (_ ∷ _) [] e s b h = absurd h

  module _ (ieee : IsIeee p) (g : Game F) (clones : Clones g) (prev next : Snapshot F)
      (h : IsSuccession prev next) (x : IsExchangeable g prev next) where
    differences-IsReadable :
        (id : ℕ) (o n : GameObject F)
        → find id prev.objects ≡ some o
        → find id next.objects ≡ some n
        → IsReadable prev id (differences o n)
    differences-IsReadable id o n e f =
        let exact = h.exact id o n e f in
        let (ds, found, deltas) = compare-Deltas ieee o n exact in
        let aligned =
          Deltas-Reads ieee ds o.values n.values deltas exact.aligned (x.fits id o n e f) in
        subst (IsReadable prev id) (sym (ap or_nothing found)) (
          o,
          e,
          IsSorted-Aligned o.values ds aligned exact.sorted,
          ReadableValues-Aligned o [] o.values ds refl exact.sorted
              (Before-nil (GameValue F) o.values) aligned,
        )

    marks-Readable :
        (es : Map ℕ (GameObject F)) (acc : Map ℕ (DiffSet F))
        → Part es prev.objects
        → Readable prev acc
        → Readable prev (marks next.objects es acc)
    unfolding marks changed
    marks-Readable [] acc part r = r
    marks-Readable ((id, o) ∷ es) acc part r = elim (Option-cases (find id next.objects)) [
      | inl e ↦ rw (e, marks) (marks-Readable es acc part.1 r)
      | inr (n, e) ↦ elim (Bool-cases (Object.checksum o == Object.checksum n)) [
        | inl c ↦ rw (e, c, marks, changed) (marks-Readable es acc part.1 r)
        | inr c ↦
            rw (e, c, marks, changed)
              (marks-Readable es _ part.1 (
                Entries-assign (IsReadable prev) id (differences o n) acc
                  (differences-IsReadable id o n part.0 e) r))
      ]
    ]

    extra-AllRegistered :
        (es acc : Map ℕ (GameObject F))
        → AllRegistered g es
        → AllRegistered g acc
        → AllRegistered g (extra prev.objects es acc)
    unfolding extra
    extra-AllRegistered [] acc r a = a
    extra-AllRegistered ((id, n) ∷ es) acc r a = elim (Option-cases (find id prev.objects)) [
      | inl e ↦
          rw (e, extra)
            (extra-AllRegistered es _ r.1 (Entries-assign (λ k o. IsRegistered g o) id n acc r.0 a))
      | inr (o, e) ↦ rw (e, extra) (extra-AllRegistered es acc r.1 a)
    ]

    -- x
    pub evaluated-IsSendable :
        IsSendable g prev (evaluated ieee g clones prev next h (empty prev.tick next.tick))
    unfolding empty
    evaluated-IsSendable = record {
      sorted = marks-IsSorted next.objects prev.objects [] tt;
      readable = marks-Readable prev.objects [] (Part-self prev.objects h.older.sorted) tt;
      added_sorted = extra-IsSorted prev.objects next.objects [] tt;
      added_keyed = extra-Keyed prev.objects next.objects [] h.newer.keyed tt;
      registered = extra-AllRegistered next.objects [] x.registered tt;
    }

    -- With IEEE floats, a `clone` that copies, two snapshots in succession whose differences fit
    -- their types, and a newer one whose objects have registered classes: `evaluate` gives a
    -- difference which, serialized, read again with the older snapshot as its reference and applied
    -- to that one at 1.0, gives the objects of the newer one at the older one's tick plus 1, in 32
    -- bits.
    pub delta_exchange :
        (d : DeltaSnapshot F) × (evaluate (empty prev.tick next.tick) prev next ≡ ok d)
        × ((deserialize g (serialize d) prev >>= λ received. apply g prev received p.one)
            ≡ ok (record next { tick = (prev.tick + 1) % 2 ^ 32 }))
    delta_exchange =
        let (d, made, applied) = apply-evaluate ieee g clones prev next h in
        let sent = evaluated ieee g clones prev next h (empty prev.tick next.tick) in
        let same : sent ≡ d =
          cc (made, evaluate_lem ieee g clones prev next h (empty prev.tick next.tick)) in
        let back = deserialize-serialize_delta ieee g prev sent evaluated-IsSendable in
        let received = subst (λ r. deserialize g (serialize r) prev ≡ ok r) same back in
        (d, made, rw received applied)
