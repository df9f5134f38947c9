-- ===== src/Core/Delta/Reachable.antt =====
-- The snapshots that the operations of the engine make of each other.
use haraka_engine.Base.{ℕ, ◌≡◌, ok}
use haraka_engine.Core.Platform.{Platform}
use haraka_engine.Core.Object.{GameObject, Game}
use haraka_engine.Core.Snapshot
use haraka_engine.Core.Snapshot.{Snapshot, SnapshotBuffer}
use haraka_engine.Core.Snapshot.WellFormed.{
  IsSnapshot, KeepsIds, empty-IsSnapshot, add_object-IsSnapshot, delete_object-IsSnapshot,
  copy-IsSnapshot, update-IsSnapshot, deserialize-IsSnapshot,
}
use haraka_engine.Core.Delta.{DeltaSnapshot, apply}
use haraka_engine.Core.Delta.Keeps.{apply-IsSnapshot}

module _ {F : Type 0} ⦃p : Platform F⦄ (g : Game F) where
  -- One call on a snapshot: an object put in, one taken out, all of them updated, a copy, a difference
  -- applied at some time.
  pub data Step (s : Snapshot F) : Snapshot F → Type 0 where
    adds : (o : GameObject F) → Step s (Snapshot.add_object s o)
    deletes : (id : ℕ) → Step s (Snapshot.delete_object s id).0
    updates : (t : F) → Step s (Snapshot.update g t s)
    copies : Step s (Snapshot.copy g s)
    applies :
        {next : Snapshot F} (d : DeltaSnapshot F) (t : F) → apply g s d t ≡ ok next → Step s next

  -- A snapshot that begins without objects, or is read from a buffer.
  pub data Reach : Snapshot F → Type 0 where
    made : (tick : ℕ) → Reach (Snapshot.empty tick)
    read :
        {s : Snapshot F} (buffer : SnapshotBuffer) → Snapshot.deserialize g buffer ≡ ok s → Reach s
    later : {s t : Snapshot F} → Reach s → Step s t → Reach t

  Step-IsSnapshot : (s t : Snapshot F) → KeepsIds g → IsSnapshot s → Step s t → IsSnapshot t
  Step-IsSnapshot s t keeps h (adds o) = add_object-IsSnapshot s o h
  Step-IsSnapshot s t keeps h (deletes id) = delete_object-IsSnapshot s id h
  Step-IsSnapshot s u keeps h (updates t) = update-IsSnapshot g t s keeps h
  Step-IsSnapshot s t keeps h copies = copy-IsSnapshot g s keeps h
  Step-IsSnapshot s next keeps h (applies d t e) = apply-IsSnapshot g keeps s h t d next e

  -- With a game that keeps ids: every snapshot that is reached from an empty one, or from one read
  -- from any buffer, by putting objects in, taking them out, updates, copies and differences
  -- applied at any time has its objects in the order of their ids, each under its own id.
  pub Reach-IsSnapshot : (s : Snapshot F) → KeepsIds g → Reach s → IsSnapshot s
  Reach-IsSnapshot s keeps (made tick) = empty-IsSnapshot tick
  Reach-IsSnapshot s keeps (read buffer e) = deserialize-IsSnapshot g buffer s e
  Reach-IsSnapshot t keeps (later {s} r step) =
      Step-IsSnapshot s t keeps (Reach-IsSnapshot s keeps r) step
