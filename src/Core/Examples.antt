-- ===== src/Core/Examples.antt =====
-- A small game for the examples: players with a number of lives and a position, of which one leaves
-- and one joins, over floats that are whole numbers.
pub mod Classes
pub mod State
pub mod Exchange
pub mod Reordered
pub mod Tick
pub mod Growing
mod Shapes
use haraka_engine.Base.{
  ℕ, ◌≡◌, refl, sym, ap, ◌∙◌, subst, compare, lt, eq, gt, Option, none, some, [], ◌∷◌, true, false,
  Ordering, ◌⊎◌, inl, inr, arith,
}
use haraka_engine.Base.Order.{Bytes, nat_ord, bytes_ord}
use haraka_engine.Base.Map.{Map, find}
use haraka_engine.Base.Int.{ℤ, pos, negsuc, ◌+ℤ◌, ◌-ℤ◌}
use haraka_engine.Base.Text.{codes}
use haraka_engine.Core.Platform.{whole_floats}
use haraka_engine.Core.Types
use haraka_engine.Core.Types.Primitives
use haraka_engine.Core.Types.Vectors
use haraka_engine.Core.Types.{GameValue, int_value, vec2f}
use haraka_engine.Core.Object.{GameObject, Game, Clones, checksum, checksum_bytes}
use haraka_engine.Core.Object.Compare.{IsExactPair}
use haraka_engine.Core.Snapshot.{Snapshot}
use haraka_engine.Core.Snapshot.WellFormed.{IsSnapshot, KeepsIds}
use haraka_engine.Core.Delta.{DeltaSnapshot}
use haraka_engine.Core.Action.{GameAction, ActionGame, returns}
use haraka_engine.Core.Delta.Pairs.{IsSuccession}

abbrev pub player_type : Bytes
player_type = codes "P"

abbrev pub player_values : ℤ → ℤ → ℤ → Map Bytes (GameValue ℤ)
player_values life x y =
    (codes "life", int_value life) ∷ (codes "pos", vec2f (record { x = x; y = y })) ∷ []

abbrev pub player : ℕ → ℤ → ℤ → ℤ → GameObject ℤ
player id life x y = record { id = id; type_name = player_type; values = player_values life x y }

abbrev pub arena : Game ℤ
arena = record {
  registry = (player_type, record { id = 0; type_name = player_type; values = [] }) ∷ [];
  add_values = λ o. record o { values = player_values (pos 100) (pos 0) (pos 0) };
  clone = λ o. o;
  update = λ t o. o;
}

pub arena-Clones : Clones arena
arena-Clones o = refl

pub arena-KeepsIds : KeepsIds arena
arena-KeepsIds = record { clone_id = λ o. refl; update_id = λ t o. refl }

abbrev pub older : Snapshot ℤ
older = record {
  objects = (1, player 1 (pos 10) (pos 0) (pos 0)) ∷ (2, player 2 (pos 20) (pos 5) (pos 5)) ∷ [];
  tick = 7;
}

abbrev pub newer : Snapshot ℤ
newer = record {
  objects = (1, player 1 (pos 8) (negsuc 2) (pos 4)) ∷ (3, player 3 (pos 100) (pos 0) (pos 0)) ∷ [];
  tick = 8;
}

pub older-IsSnapshot : IsSnapshot older
older-IsSnapshot = record { sorted = ((refl, tt), (tt, tt)); keyed = (refl, (refl, tt)) }

pub newer-IsSnapshot : IsSnapshot newer
newer-IsSnapshot = record { sorted = ((refl, tt), (tt, tt)); keyed = (refl, (refl, tt)) }

-- What holds of each object of the first map and the one with its id in the second.
module _ (R : GameObject ℤ → GameObject ℤ → Type 0) where
  abbrev pub OnFound : GameObject ℤ → Option (GameObject ℤ) → Type 0
  OnFound o none = Unit
  OnFound o (some n) = R o n

  abbrev pub AllPairs : Map ℕ (GameObject ℤ) → Map ℕ (GameObject ℤ) → Type 0
  AllPairs [] m = Unit
  AllPairs ((id, o) ∷ es) m = OnFound o (find id m) × AllPairs es m

  compare-cases : (a b : ℕ) → (compare a b ≡ eq) ⊎ ((compare a b ≡ lt) ⊎ (compare a b ≡ gt))
  compare-cases a b = cases (compare a b)
    where
      cases : (c : Ordering) → (c ≡ eq) ⊎ ((c ≡ lt) ⊎ (c ≡ gt))
      cases eq = inl refl
      cases lt = inr (inl refl)
      cases gt = inr (inr refl)

  pub find-AllPairs :
      (es m : Map ℕ (GameObject ℤ))
      → AllPairs es m
      → (id : ℕ) (o n : GameObject ℤ) → find id es ≡ some o
      → find id m ≡ some n
      → R o n
  unfolding find
  find-AllPairs [] m h id o n e f = absurd (cc)
  find-AllPairs ((k, w) ∷ es) m h id o n e f = elim (compare-cases id k) [
    | inl c ↦
        let same : w ≡ o = cc (rw (c, find) at e) in
        subst (λ x. R x n) same
          (subst (OnFound w) (ap (λ i. find i m) (sym (nat_ord.same_of_eq id k c)) ∙ f) h.0)
    | inr (inl c) ↦ find-AllPairs es m h.1 id o n (rw (c, find) at e) f
    | inr (inr c) ↦ find-AllPairs es m h.1 id o n (rw (c, find) at e) f
  ]

pub succession : (m n : ℕ) → IsSuccession (record older { tick = m }) (record newer { tick = n })
unfolding find checksum checksum_bytes Types.checksum Primitives.checksum Vectors.checksum
    Vectors.serialize Primitives.serialize ◌+ℤ◌ ◌-ℤ◌
succession m n = record {
  older = record { sorted = older-IsSnapshot.sorted; keyed = older-IsSnapshot.keyed };
  newer = record { sorted = newer-IsSnapshot.sorted; keyed = newer-IsSnapshot.keyed };
  exact = find-AllPairs IsExactPair older.objects newer.objects (
    record {
      same_id = refl;
      same_type = refl;
      sorted = ((refl, tt), (tt, tt));
      aligned =
          (refl, (omega arith, omega arith, omega arith), (refl, ((refl, refl), (refl, refl)), tt));
    },
    (tt, tt),
  );
  no_collision =
      find-AllPairs (λ o n. checksum o ≡ checksum n → o ≡ n) older.objects newer.objects
        (λ e. absurd (omega (arith, e)), (tt, tt));
}

-- The difference of the two snapshots, but for the move.
abbrev pub hit : DeltaSnapshot ℤ
hit = record {
  prev_tick = 7;
  next_tick = 8;
  delta_values = (1, (codes "life", int_value (negsuc 1)) ∷ []) ∷ [];
  deleted_objects = 2 ∷ [];
  added_objects = (3, player 3 (pos 100) (pos 0) (pos 0)) ∷ [];
}

-- An action that puts the newer objects in place of the older ones.
abbrev pub join : ℕ → ℤ → GameAction ℤ
join id life = record {
  id = id;
  values = (codes "life", int_value life) ∷ [];
  type_name = codes "J";
  check_action = λ values world. returns true;
  perform_act = λ values world. (record world { objects = newer.objects }, returns tt);
}

-- An action that is not possible.
abbrev pub cheat : ℕ → GameAction ℤ
cheat id = record {
  id = id;
  values = [];
  type_name = codes "C";
  check_action = λ values world. returns false;
  perform_act = λ values world. (world, returns tt);
}

abbrev pub skirmish : ActionGame ℤ
skirmish = record {
  registry = (codes "C", cheat 0) ∷ (codes "J", join 0 (pos 0)) ∷ [];
  add_values = λ a. a;
}

pub hit-IsExactPair :
    IsExactPair (player 1 (pos 10) (pos 0) (pos 0)) (player 1 (pos 8) (negsuc 2) (pos 4))
unfolding find
hit-IsExactPair = (succession 7 8).exact 1 _ _ refl refl
