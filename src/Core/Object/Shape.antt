-- ===== src/Core/Object/Shape.antt =====
-- The names and the classes of an object's values, which no difference and no buffer changes.
use Prim.Native.Nat.Ordering.{lt, eq, gt}
use haraka_engine.Base.{
  Ordering, ◌≡◌, refl, sym, ap, ◌∙◌, subst, Option, none, some, List, [], ◌∷◌, map, Result, ok,
  null_pointer, or_fail, ◌>>=◌, >>=-eq-ok,
}
use haraka_engine.Base.Order.{Bytes, bytes_ord}
use haraka_engine.Base.Map.{Map, find, assign, IsSorted}
use haraka_engine.Base.Map.Laws.{find_below, assign-IsSorted}
use haraka_engine.Core.Platform.{Platform}
use haraka_engine.Core.Types
use haraka_engine.Core.Types.{
  GameValue, int_value, float_value, int_value_nointerp, vec2i, vec2f, change, cast_int, cast_float,
  cast_vec2i, cast_vec2f,
}
use haraka_engine.Core.Object.{
  GameObject, ObjectBuffer, DiffSet, Game, Clones, for_values, advance, interpolate, restore,
  instantiate, deserialize,
}

pub data Class : Type 0 where
  int_class float_class nointerp_class vec2i_class vec2f_class : Class

ok_value : {A : Type 0} {a b : A} → ok a ≡ ok b → a ≡ b
ok_value h = cc

module _ {F : Type 0} where
  abbrev pub class_of : GameValue F → Class
  class_of (int_value v) = int_class
  class_of (float_value v) = float_class
  class_of (int_value_nointerp v) = nointerp_class
  class_of (vec2i v) = vec2i_class
  class_of (vec2f v) = vec2f_class

  class_of-change : (v other w : GameValue F) → change v other ≡ ok w → class_of w ≡ class_of v
  unfolding change
  class_of-change (int_value v) other w e =
      let (x, _, made) = >>=-eq-ok (or_fail (cast_int other) null_pointer) _ e in
      ap class_of (sym (ok_value made))
  class_of-change (float_value v) other w e =
      let (x, _, made) = >>=-eq-ok (or_fail (cast_float other) null_pointer) _ e in
      ap class_of (sym (ok_value made))
  class_of-change (int_value_nointerp v) other w e =
      let (x, _, made) = >>=-eq-ok (or_fail (cast_int other) null_pointer) _ e in
      ap class_of (sym (ok_value made))
  class_of-change (vec2i v) other w e =
      let (x, _, made) = >>=-eq-ok (or_fail (cast_vec2i other) null_pointer) _ e in
      ap class_of (sym (ok_value made))
  class_of-change (vec2f v) other w e =
      let (x, _, made) = >>=-eq-ok (or_fail (cast_vec2f other) null_pointer) _ e in
      ap class_of (sym (ok_value made))

  -- Each name with the class of its value.
  abbrev pub shape : Map Bytes (GameValue F) → List (Bytes × Class)
  shape = map (λ e. (e.0, class_of e.1))

  shape-assign :
      (name : Bytes) (v w : GameValue F) (values : Map Bytes (GameValue F))
      → IsSorted values
      → find name values ≡ some v
      → class_of w ≡ class_of v
      → shape (assign name w values) ≡ shape values
  unfolding find assign
  shape-assign name v w [] s e c = absurd (cc (e))
  shape-assign name v w ((j, u) ∷ values) s e c =
      go (bytes_ord.cmp name j) refl (λ h. shape-assign name v w values s.1 h c)
    where
      go :
          (o : Ordering)
          → bytes_ord.cmp name j ≡ o
          → (find name values ≡ some v → shape (assign name w values) ≡ shape values)
          → shape (assign name w ((j, u) ∷ values)) ≡ shape ((j, u) ∷ values)
      go lt f rest = absurd (cc (e, find_below name j u values f s.0))
      go eq f rest =
          let same : u ≡ v = cc (rw (f, find) at e) in
          rw (f, assign)
            (λ i. (bytes_ord.same_of_eq name j f i, (c ∙ ap class_of (sym same)) i) ∷ shape values)
      go gt f rest = rw (f, assign) (ap (λ l. (j, class_of u) ∷ l) (rest (rw (f, find) at e)))

module _ {F : Type 0} {D : Type 0} (step : GameValue F → D → Result (GameValue F)) where
  -- The loops over entries keep names and classes, if a round keeps the class.
  for_values-shape :
      ((v w : GameValue F) (d : D) → step v d ≡ ok w → class_of w ≡ class_of v)
      → (entries : Map Bytes D) (values ws : Map Bytes (GameValue F)) → IsSorted values
      → for_values step entries values ≡ ok ws
      → (shape ws ≡ shape values) × IsSorted ws
  unfolding for_values
  for_values-shape keeps [] values ws s e =
      let same : values ≡ ws = cc in
      subst (λ l. (shape l ≡ shape values) × IsSorted l) same (refl, s)
  for_values-shape keeps ((name, d) ∷ entries) values ws s e =
      let (v, found, rest) = >>=-eq-ok (or_fail (find name values) null_pointer) _ e in
      let (w, made, others) = >>=-eq-ok (step v d) _ rest in
      let (k, sorted) =
        for_values-shape keeps entries (assign name w values) ws (assign-IsSorted name w values s)
          others in
      (
        k
            ∙ shape-assign name v w values s (found_value (find name values) v found)
                (keeps v w d made),
        sorted,
      )
    where
      found_value :
          (r : Option (GameValue F)) (v : GameValue F) → or_fail r null_pointer ≡ ok v → r ≡ some v
      found_value none v h = absurd (cc (h))
      found_value (some u) v h = cc

-- One object as the other, but for what the values hold.
pub record SameShape {F : Type 0} (o r : GameObject F) : Type 0 where
  pub id : r.id ≡ o.id
  pub type_name : r.type_name ≡ o.type_name
  pub values : shape r.values ≡ shape o.values

SameShape-trans :
    {F : Type 0} (o n r : GameObject F) → SameShape o n → SameShape n r → SameShape o r
SameShape-trans o n r h k = record {
  id = k.id ∙ h.id;
  type_name = k.type_name ∙ h.type_name;
  values = k.values ∙ h.values;
}

module _ {F : Type 0} ⦃p : Platform F⦄ (g : Game F) where
  -- The object of a class before its values are read.
  abbrev pub prototype : ObjectBuffer → Result (GameObject F)
  prototype buffer =
      instantiate g buffer.type_name >>= λ o. ok (g.add_values (record o { id = buffer.id }))

  -- An object taken along differences, each at its time.
  abbrev pub moved : List (DiffSet F × F) → GameObject F → Result (GameObject F)
  moved [] o = ok o
  moved ((differences, t) ∷ moves) o = interpolate g o differences t >>= moved moves

  advance-class : (t : F) (v w d : GameValue F) → advance t v d ≡ ok w → class_of w ≡ class_of v
  unfolding advance
  advance-class t v w d e =
      let (u, _, made) = >>=-eq-ok (Types.interp v d t) _ e in class_of-change v u w made

  restore-class :
      (v w : GameValue F) (bytes : Bytes) → restore v bytes ≡ ok w → class_of w ≡ class_of v
  unfolding restore
  restore-class v w bytes e = class_of-change v (Types.deserialize v bytes) w e

  interpolate-SameShape :
      (o r : GameObject F) (differences : DiffSet F) (t : F)
      → Clones g
      → IsSorted o.values
      → interpolate g o differences t ≡ ok r
      → SameShape o r × IsSorted r.values
  unfolding interpolate
  interpolate-SameShape o r differences t clones s e =
      let (ws, ran, made) = >>=-eq-ok (for_values (advance t) differences (g.clone o).values) _ e in
      let whole : record o { values = ws } ≡ r =
        ap (λ (x : GameObject F). record x { values = ws }) (sym (clones o)) ∙ ok_value made in
      let (same, sorted) =
        for_values-shape (advance t) (λ v w d. advance-class t v w d) differences o.values ws s
          (ap (λ (x : GameObject F). for_values (advance t) differences x.values) (sym (clones o))
            ∙ ran) in
      subst (λ x. SameShape o x × IsSorted x.values) whole
        (record { id = refl; type_name = refl; values = same }, sorted)

  moved_shape :
      (moves : List (DiffSet F × F)) (o r : GameObject F)
      → Clones g
      → IsSorted o.values
      → moved moves o ≡ ok r
      → SameShape o r
  moved_shape [] o r clones s e =
      subst (SameShape o) (ok_value e) (record { id = refl; type_name = refl; values = refl })
  moved_shape ((differences, t) ∷ moves) o r clones s e =
      let (n, one, others) = >>=-eq-ok (interpolate g o differences t) (moved moves) e in
      let (h, sorted) = interpolate-SameShape o n differences t clones s one in
      SameShape-trans o n r h (moved_shape moves n r clones sorted others)

  -- With a `clone` that copies and an `add_values` that keeps the values in the order of their
  -- names: an object that is read from any buffer, and then interpolated with any differences at
  -- any times, where all of these succeed, has the id, the type name, the names of the values and
  -- their classes that `add_values` gives to the new object of the registered class under the
  -- buffer's id.
  pub deserialize-SameShape :
      (buffer : ObjectBuffer) (moves : List (DiffSet F × F)) (o r : GameObject F)
      → Clones g
      → ((created : GameObject F) → IsSorted (g.add_values created).values)
      → deserialize g buffer ≡ ok o
      → moved moves o ≡ ok r
      → (q : GameObject F) × (prototype buffer ≡ ok q) × SameShape q r
  unfolding deserialize
  deserialize-SameShape buffer moves o r clones sorted_values e f =
      let (created, found, rest) = >>=-eq-ok (instantiate g buffer.type_name) _ e in
      let q = g.add_values (record created { id = buffer.id }) in
      let (ws, ran, made) = >>=-eq-ok (for_values restore buffer.values q.values) _ rest in
      let (same, sorted) =
        for_values-shape restore (λ v w d. restore-class v w d) buffer.values q.values ws
          (sorted_values (record created { id = buffer.id })) ran in
      let h : SameShape q o × IsSorted o.values =
        subst (λ x. SameShape q x × IsSorted x.values) (ok_value made)
          (record { id = refl; type_name = refl; values = same }, sorted) in
      (
        q,
        ap (λ r. r >>= λ x. ok (g.add_values (record x { id = buffer.id }))) found,
        SameShape-trans q o r h.0 (moved_shape moves o r clones h.1 f),
      )
