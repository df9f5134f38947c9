-- ===== src/Core/Player.antt =====
-- core/teams.hpp, core/player.hpp and core/player.cpp: `Team`, which derives from
-- `PrimitiveValue<int>`, and `Player`, which has a copy of its team.
use haraka_engine.Base.{ℕ, ◌≡◌, ◌↔◌, Bool, true, Result, ok, arith}
use haraka_engine.Base.Int.{ℤ, pos, negsuc, ◌-ℤ◌, checked}
use haraka_engine.Core.Platform.{Platform, equal_ℤ}
use haraka_engine.Core.Types.Template.{int_type}
use haraka_engine.Core.Types.Primitives

pub data TeamType : Type 0 where
  blue red : TeamType

-- The field of the base class.
pub record Team : Type 0 where
  pub value : ℤ

unfoldable pub create_team : TeamType → Team
create_team blue = record { value = pos 0 }
create_team red = record { value = pos 1 }

unfoldable pub is_same : Team → Team → Bool
is_same t other = equal_ℤ t.value other.value

pub record Player : Type 0 where
  pub team : Team
  pub player_id : ℕ

unfoldable pub create : ℕ → Team → Player
create id team = record { team = team; player_id = id }

checked-equal : (a b : ℤ) → equal_ℤ a b ≡ true → checked (b -ℤ a) ≡ ok (pos 0)
unfolding ◌-ℤ◌
checked-equal (pos a) (pos b) e = ground (arith, e)
checked-equal (pos a) (negsuc b) e = ground (arith, e)
checked-equal (negsuc a) (pos b) e = ground (arith, e)
checked-equal (negsuc a) (negsuc b) e = ground (arith, e)

equal-checked : (a b : ℤ) → checked (b -ℤ a) ≡ ok (pos 0) → equal_ℤ a b ≡ true
unfolding ◌-ℤ◌
equal-checked (pos a) (pos b) e = ground (arith, e)
equal-checked (pos a) (negsuc b) e = ground (arith, e)
equal-checked (negsuc a) (pos b) e = ground (arith, e)
equal-checked (negsuc a) (negsuc b) e = ground (arith, e)

module _ {F : Type 0} (p : Platform F) where
  -- The inherited `get_delta`.
  unfoldable pub get_delta : Team → Team → Result ℤ
  get_delta t other = Primitives.get_delta (int_type ⦃p = p⦄) t.value other.value

  -- Two teams are the same exactly when the difference of one to the other is 0.
  is_same-get_delta : (t other : Team) → (is_same t other ≡ true) ↔ (get_delta t other ≡ ok (pos 0))
  unfolding is_same get_delta Primitives.get_delta ◌-ℤ◌
  is_same-get_delta t other = (checked-equal t.value other.value, equal-checked t.value other.value)
