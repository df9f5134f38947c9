-- ===== src/Core/Delta/Unordered.antt =====
-- What a buffer of a difference says, whatever the order of its maps: the buffers up to order.
use mathlib.Core.Quot
use mathlib.Core.Quot.{Quot}
use native.Mathlib.Nat.{ℕ_set}
use haraka_engine.Base.{◌≡◌, refl, sym, ap, ◌∙◌, Option, none, some, Result, ok, err}
use haraka_engine.Base.Order.{Bytes, nat_ord}
use haraka_engine.Base.Map.{Map, find}
use haraka_engine.Core.Platform.{Platform, IsIeee}
use haraka_engine.Core.Object.{Game}
use haraka_engine.Core.Snapshot.{Snapshot}
use haraka_engine.Core.Delta.{DeltaSnapshot, DeltaBuffer, serialize, deserialize}
use haraka_engine.Core.Delta.AnyOrder.{Alike, IsReordered, deserialize_reordered}
use haraka_engine.Core.Delta.Serial.{IsSendable, deserialize-serialize_delta}

-- Two buffers that say the same, their maps in two orders.
pub record IsSame (b c : DeltaBuffer) : Type 0 where
  pub prev_tick : c.prev_tick ≡ b.prev_tick
  pub next_tick : c.next_tick ≡ b.next_tick
  pub added_objects : c.added_objects ≡ b.added_objects
  pub deleted_objects : c.deleted_objects ≡ b.deleted_objects
  pub reordered : IsReordered b.delta_objects c.delta_objects

abbrev pub Message : Type 0
Message = Quot IsSame

abbrev pub message : DeltaBuffer → Message
message = Quot.mk

Alike-sym : (r q : Option (Map Bytes Bytes)) → Alike r q → Alike q r
Alike-sym none none a = tt
Alike-sym (some m) (some n) (u, v, same) = (v, u, λ name. sym (same name))
Alike-sym none (some n) a = absurd a
Alike-sym (some m) none a = absurd a

IsSame-sym : (b c : DeltaBuffer) → IsSame b c → IsSame c b
IsSame-sym b c h = record {
  prev_tick = sym h.prev_tick;
  next_tick = sym h.next_tick;
  added_objects = sym h.added_objects;
  deleted_objects = sym h.deleted_objects;
  reordered = record {
    distinct = h.reordered.distinct';
    distinct' = h.reordered.distinct;
    alike =
        λ id. Alike-sym (find id b.delta_objects) (find id c.delta_objects) (h.reordered.alike id);
  };
}

abbrev value_of : {A : Type 0} → Result A → Option A
value_of (ok a) = some a
value_of (err e) = none

ok_of_value : {A : Type 0} (r : Result A) (a : A) → value_of r ≡ some a → r ≡ ok a
ok_of_value (ok b) a h = cc
ok_of_value (err e) a h = absurd (cc (h))

value_of_both :
    {A : Type 0} (r q : Result A)
    → ((a : A) → r ≡ ok a → q ≡ ok a)
    → ((a : A) → q ≡ ok a → r ≡ ok a)
    → value_of r ≡ value_of q
value_of_both (ok a) q there back = sym (ap value_of (there a refl))
value_of_both (err e) (ok a) there back = absurd (cc (back a refl))
value_of_both (err e) (err f) there back = refl

difference-set : {F : Type 0} → IsSet F → IsSet (Option (DeltaSnapshot F))
difference-set set = hlevel (set, ℕ_set)

module _ {F : Type 0} ⦃p : Platform F⦄ (set : IsSet F) (g : Game F) where
  IsSame-deserialize :
      (reference : Snapshot F) (b c : DeltaBuffer) (d : DeltaSnapshot F)
      → IsSame b c
      → deserialize g b reference ≡ ok d
      → deserialize g c reference ≡ ok d
  IsSame-deserialize reference b c d h e =
      let same : record b { delta_objects = c.delta_objects } ≡ c = λ i. record {
        prev_tick = sym h.prev_tick i;
        next_tick = sym h.next_tick i;
        delta_objects = c.delta_objects;
        added_objects = sym h.added_objects i;
        deleted_objects = sym h.deleted_objects i;
      } in
      ap (λ x. deserialize g x reference) (sym same)
      ∙ deserialize_reordered g b c.delta_objects reference d h.reordered e

  -- What a receiver makes of a message, if it can read it.
  receive : Snapshot F → Message → Option (DeltaSnapshot F)
  receive reference =
      Quot.lift (difference-set set) (λ b. value_of (deserialize g b reference))
        (λ b c h.
          value_of_both (deserialize g b reference) (deserialize g c reference)
            (λ d. IsSame-deserialize reference b c d h)
            (λ d. IsSame-deserialize reference c b d (IsSame-sym b c h)))

  -- With IEEE floats, numbers that form a set, and a difference that is sendable to holders of the
  -- reference snapshot: any buffer that is the difference's own up to reorderings of its changed
  -- objects and of their values, with no id and no name twice, is read to the difference.
  pub deserialize_as_sent :
      (reference : Snapshot F) (d : DeltaSnapshot F) (buffer : DeltaBuffer)
      → IsIeee p
      → IsSendable g reference d
      → message buffer ≡ message (serialize d)
      → deserialize g buffer reference ≡ ok d
  unfolding receive
  deserialize_as_sent reference d buffer ieee h e =
      ok_of_value (deserialize g buffer reference) d
        (ap (receive reference) e ∙ ap value_of (deserialize-serialize_delta ieee g reference d h))
