-- ===== src/Core/Delta/Pairs.antt =====
-- Two successive snapshots of one game, and what `evaluate` has to find for each object.
use haraka_engine.Base.{ℕ, ◌≡◌, sym, ap, ◌∙◌, subst, some, [], ◌∷◌, Result, ok, err}
use haraka_engine.Base.Order.{nat_ord}
use haraka_engine.Base.Map.{Map, find, Above, IsSorted}
use haraka_engine.Base.Map.Laws.{find-head}
use haraka_engine.Core.Platform.{Platform, IsIeee}
use haraka_engine.Core.Object
use haraka_engine.Core.Object.{GameObject, DiffSet, Game, Clones}
use haraka_engine.Core.Object.Compare.{IsExactPair, interpolate-compare}
use haraka_engine.Core.Snapshot.{Snapshot}
use haraka_engine.Core.Snapshot.WellFormed.{IsSnapshot}

module _ {F : Type 0} where
  -- The entries are among those of the map.
  abbrev pub Part : Map ℕ (GameObject F) → Map ℕ (GameObject F) → Type 0
  Part [] m = Unit
  Part ((id, o) ∷ es) m = (find id m ≡ some o) × Part es m

  Part-cons :
      (k : ℕ) (w : GameObject F) (es m : Map ℕ (GameObject F))
      → Above k es
      → Part es m
      → Part es ((k, w) ∷ m)
  unfolding find
  Part-cons k w [] m a h = tt
  Part-cons k w ((id, o) ∷ es) m a h =
      (rw (nat_ord.flip_lt k id a.0, find) h.0, Part-cons k w es m a.1 h.1)

  pub Part-self : (m : Map ℕ (GameObject F)) → IsSorted m → Part m m
  Part-self [] s = tt
  Part-self ((k, o) ∷ m) s = (find-head k o m, Part-cons k o m m s.0 (Part-self m s.1))

module _ {F : Type 0} ⦃p : Platform F⦄ where
  -- The two snapshots are well formed; an object that is in both has two states with an exact
  -- difference, and two states with one checksum are equal (the CRC has no collision on them).
  pub record IsSuccession (prev next : Snapshot F) : Type 0 where
    pub older : IsSnapshot prev
    pub newer : IsSnapshot next
    pub exact :
        (id : ℕ) (o n : GameObject F)
        → find id prev.objects ≡ some o
        → find id next.objects ≡ some n
        → IsExactPair o n
    pub no_collision :
        (id : ℕ) (o n : GameObject F)
        → find id prev.objects ≡ some o
        → find id next.objects ≡ some n
        → Object.checksum o ≡ Object.checksum n
        → o ≡ n

  abbrev pub or_nothing : Result (DiffSet F) → DiffSet F
  or_nothing (ok ds) = ds
  or_nothing (err _) = []

  -- The differences, where `compare` succeeds.
  abbrev pub differences : GameObject F → GameObject F → DiffSet F
  differences o n = or_nothing (Object.compare o n)

  module _ (ieee : IsIeee p) (g : Game F) (clones : Clones g) where
    pub compare-differences :
        (o n : GameObject F)
        → IsExactPair o n
        → (Object.compare o n ≡ ok (differences o n))
          × (Object.interpolate g o (differences o n) p.one ≡ ok n)
    compare-differences o n h =
        let (ds, found, applied) = interpolate-compare ieee g o n clones h in
        let same : differences o n ≡ ds = ap or_nothing found in
        (
          found ∙ ap ok (sym same),
          subst (λ e. Object.interpolate g o e p.one ≡ ok n) (sym same) applied,
        )
