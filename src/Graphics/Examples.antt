-- ===== src/Graphics/Examples.antt =====
-- The theorem on windows, used on a window that gets no renderer.
use haraka_engine.Base.{◌≡◌, true, false, none, some, [], ◌∷◌}
use haraka_engine.Base.Int.{pos}
use haraka_engine.Graphics.Window
use haraka_engine.Graphics.Window.{Outcome, Window}
use haraka_engine.Graphics.Window.Handles.{frames, follow_all, nothing}
use haraka_engine.Graphics.Window.Freed.{destroy_frees}

-- SDL gives a window, and no renderer for it.
abbrev half : Outcome
half = record { started = true; window = some 3; renderer = none }

abbrev shown : Window
shown = frames (true ∷ false ∷ []) (Window.init half (Window.create (pos 1280) (pos 720))).0

destroy_frees_example :
    (follow_all (Window.destroy shown).0.calls nothing ≡ some nothing)
    × (follow_all (Window.destroy (Window.destroy shown).0).0.calls nothing ≡ none)
destroy_frees_example = destroy_frees half (pos 1280) (pos 720) (true ∷ false ∷ [])
