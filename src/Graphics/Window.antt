-- ===== src/Graphics/Window.antt =====
-- graphics/window.hpp and graphics/window.cpp: `Window`. A pointer that SDL gives is a number, and a
-- null pointer is `none`; what SDL answers are the arguments `Outcome`. The calls of SDL are recorded,
-- the latest one last, without the title, the position and the other constants that they are given.
-- `_instances` is used by no member.
pub mod Handles
pub mod Freed
use haraka_engine.Base.{
  ℕ, Bool, true, false, Option, none, some, List, [], ◌∷◌, ◌++◌, if◌then◌else◌,
}
use haraka_engine.Base.Int.{ℤ}

pub data Call : Type 0 where
  sdl_init : Bool → Call
  create_window : ℤ → ℤ → Option ℕ → Call
  set_hint : Call
  create_renderer : ℕ → Option ℕ → Call
  set_render_draw_color : Option ℕ → ℕ → ℕ → ℕ → ℕ → Call
  render_clear render_present destroy_renderer destroy_window : Option ℕ → Call

pub record Window : Type 0 where
  pub renderer : Option ℕ
  pub window : Option ℕ
  pub width : ℤ
  pub height : ℤ
  pub calls : List Call

-- Whether `SDL_Init` succeeds, and what `SDL_CreateWindow` and `SDL_CreateRenderer` give.
pub record Outcome : Type 0 where
  pub started : Bool
  pub window : Option ℕ
  pub renderer : Option ℕ

unfoldable pub called : Window → Call → Window
called w call = record w { calls = w.calls ++ call ∷ [] }

-- The constructor.
unfoldable pub create : ℤ → ℤ → Window
create width height = record {
  renderer = none;
  window = none;
  width = width;
  height = height;
  calls = [];
}

-- The end of `init`, once there is a window.
unfoldable pub init_renderer : Option ℕ → ℕ → Window → Window × Bool
unfolding called
init_renderer made handle w =
    let w' = record (called (called w set_hint) (create_renderer handle made)) {
      renderer = made;
    } in
    elim made [ none ↦ (w', false) | some r ↦ (w', true) ]

unfoldable pub init : Outcome → Window → Window × Bool
unfolding called init_renderer
init o w =
    let begun = called w (sdl_init o.started) in
    let w' = record (called begun (create_window w.width w.height o.window)) {
      window = o.window;
    } in
    elim o.started [
      | false ↦ (begun, false)
      | true ↦ elim o.window [
        | none ↦ (w', false)
        | some handle ↦ init_renderer o.renderer handle w'
      ]
    ]

unfoldable pub clear : Window → Window
unfolding called
clear w =
    called (called w (set_render_draw_color w.renderer 96 128 255 255)) (render_clear w.renderer)

unfoldable pub draw : Window → Window
unfolding called
draw w = called w (render_present w.renderer)

-- The two handles are destroyed, and the fields keep them.
unfoldable pub destroy : Window → Window × Bool
unfolding called
destroy w = (called (called w (destroy_renderer w.renderer)) (destroy_window w.window), true)
