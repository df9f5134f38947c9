-- ===== src/Base/Text.antt =====
-- A string literal as its bytes (its characters are ASCII).
use Prim.Native.Char.{code}
use Prim.Native.String.{String}
use mathlib.Core.List.{[], ◌∷◌}
use haraka_engine.Base.Order.{Bytes}

abbrev pub codes : String → Bytes
codes String.[] = []
codes (String.◌∷◌ c s) = code c ∷ codes s
