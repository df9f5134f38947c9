-- ===== src/Core/Examples/State.antt =====
-- The theorems on values, objects, snapshots and differences, used on the example game.
use haraka_engine.Base.{[], ◌∷◌, ℕ, ◌≡◌, refl, ok}
use haraka_engine.Base.Int.{ℤ, pos, negsuc, ◌+ℤ◌, ◌*ℤ◌}
use haraka_engine.Base.Map.{find, assign}
use haraka_engine.Core.Platform.{whole_floats, whole_floats-IsIeee}
use haraka_engine.Core.Types
use haraka_engine.Core.Types.Primitives
use haraka_engine.Core.Types.{GameValue, int_value, vec2f}
use haraka_engine.Core.Object
use haraka_engine.Core.Object.{DiffSet, for_values, advance}
use haraka_engine.Core.Object.Compare.{interpolate-compare}
use haraka_engine.Core.Snapshot
use haraka_engine.Core.Snapshot.{Snapshot, SnapshotBuffer}
use haraka_engine.Core.Snapshot.WellFormed.{IsSnapshot}
use haraka_engine.Core.Delta
use haraka_engine.Core.Delta.{DeltaSnapshot}
use haraka_engine.Core.Delta.Sync.{apply-evaluate}
use haraka_engine.Core.Delta.Keeps.{has, apply_before}
use haraka_engine.Core.Delta.Reachable.{Reach-IsSnapshot, made, later, adds, updates, applies}
use haraka_engine.Core.Events.{Observable}
use haraka_engine.Core.Examples.{
  player, arena, arena-Clones, arena-KeepsIds, older, newer, older-IsSnapshot, succession,
  hit-IsExactPair, hit,
}

apply-evaluate_example :
    (d : DeltaSnapshot ℤ) × (Delta.evaluate (Delta.empty 7 8) older newer ≡ ok d)
    × (Delta.apply arena older d (pos 1) ≡ ok newer)
apply-evaluate_example =
    apply-evaluate whole_floats-IsIeee arena arena-Clones older newer (succession 7 8)

interpolate-compare_example :
    (ds : DiffSet ℤ) × (Object.compare
        (player 1 (pos 10) (pos 0) (pos 0))
        (player 1 (pos 8) (negsuc 2) (pos 4))
      ≡ ok ds)
    × (Object.interpolate arena (player 1 (pos 10) (pos 0) (pos 0)) ds (pos 1)
        ≡ ok (player 1 (pos 8) (negsuc 2) (pos 4)))
interpolate-compare_example =
    interpolate-compare whole_floats-IsIeee arena (player 1 (pos 10) (pos 0) (pos 0))
      (player 1 (pos 8) (negsuc 2) (pos 4)) arena-Clones hit-IsExactPair

abbrev waiting : Snapshot ℤ
waiting = record older { tick = 8 }

hit-waiting : Delta.apply arena older hit (pos 0) ≡ ok waiting
unfolding Delta.apply Delta.apply_objects Delta.apply_values Snapshot.copy Snapshot.copy_objects
    Snapshot.get_object Object.interpolate for_values advance Types.interp Types.change
    Primitives.interp find assign Types.cast_int ◌+ℤ◌ ◌*ℤ◌
hit-waiting = refl

apply_before_example : (waiting.tick ≡ 8) × ((id : ℕ) → has id waiting ≡ has id older)
apply_before_example =
    apply_before arena arena-KeepsIds older older-IsSnapshot (pos 0) hit waiting refl hit-waiting

Reach-IsSnapshot_example : IsSnapshot waiting
unfolding Snapshot.empty Snapshot.add_object Snapshot.update assign
Reach-IsSnapshot_example = Reach-IsSnapshot arena waiting arena-KeepsIds (
    later
      (later
        (later (later (made 7) (adds (player 1 (pos 10) (pos 0) (pos 0))))
          (adds (player 2 (pos 20) (pos 5) (pos 5))))
        (updates (pos 1)))
      (applies hit (pos 0) hit-waiting))

abbrev watched : Observable
watched = record { observers = 4 ∷ 7 ∷ 9 ∷ [] }
