-- ===== src/Graphics/Window/Handles.antt =====
-- What a window does to the handles that it is given: a reading of the recorded calls.
use haraka_engine.Base.{
  ℕ, ◌≡◌, refl, ap, ◌∙◌, Bool, true, false, if◌then◌else◌, Option, none, some, List, [], ◌∷◌, ◌++◌,
  append_assoc, ◌==◌, ==_refl,
}
use haraka_engine.Base.Int.{ℤ}
use haraka_engine.Graphics.Window.{
  Call, sdl_init, create_window, set_hint, create_renderer, set_render_draw_color, render_clear,
  render_present, destroy_renderer, destroy_window, Window, Outcome, called, create, init_renderer,
  init, clear, draw,
}

-- The handles that were made and not destroyed.
pub record Live : Type 0 where
  pub windows : List ℕ
  pub renderers : List ℕ

abbrev pub nothing : Live
nothing = record { windows = []; renderers = [] }

abbrev pub holds : List ℕ → ℕ → Bool
holds [] h = false
holds (x ∷ xs) h = if x == h then true else holds xs h

abbrev pub without : List ℕ → ℕ → List ℕ
without [] h = []
without (x ∷ xs) h = if x == h then xs else x ∷ without xs h

abbrev pub made : List ℕ → Option ℕ → List ℕ
made handles none = handles
made handles (some h) = h ∷ handles

-- A handle may be given to SDL when it is null or live.
abbrev pub usable : List ℕ → Option ℕ → Bool
usable handles none = true
usable handles (some h) = holds handles h

abbrev pub gone : List ℕ → Option ℕ → List ℕ
gone handles none = handles
gone handles (some h) = without handles h

-- What a call makes of the live handles; nothing, if it is given a handle that is not live.
abbrev pub follow : Live → Call → Option Live
follow l (sdl_init started) = some l
follow l (create_window width height h) = some (record l { windows = made l.windows h })
follow l set_hint = some l
follow l (create_renderer h r) =
    if holds l.windows h then some (record l { renderers = made l.renderers r }) else none
follow l (set_render_draw_color r red green blue alpha) =
    if usable l.renderers r then some l else none
follow l (render_clear r) = if usable l.renderers r then some l else none
follow l (render_present r) = if usable l.renderers r then some l else none
follow l (destroy_renderer r) =
    if usable l.renderers r then some (record l { renderers = gone l.renderers r }) else none
follow l (destroy_window h) =
    if usable l.windows h then some (record l { windows = gone l.windows h }) else none

abbrev pub follow_all : List Call → Live → Option Live
follow_all [] l = some l
follow_all (call ∷ calls) l = elim (follow l call) [ none ↦ none | some m ↦ follow_all calls m ]

-- A frame: cleared, or drawn.
abbrev pub frames : List Bool → Window → Window
frames [] w = w
frames (true ∷ fs) w = frames fs (clear w)
frames (false ∷ fs) w = frames fs (draw w)

-- The one window and renderer of these fields are what is live.
abbrev pub live_of : Window → Live
live_of w = record { windows = made [] w.window; renderers = made [] w.renderer }

abbrev pub IsTidy : Window → Type 0
IsTidy w = follow_all w.calls nothing ≡ some (live_of w)

pub follow_all-append :
    (calls more : List Call) (l m : Live)
    → follow_all calls l ≡ some m
    → follow_all (calls ++ more) l ≡ follow_all more m
follow_all-append [] more l m e = let same : l ≡ m = cc in ap (follow_all more) same
follow_all-append (call ∷ calls) more l m e =
    go (follow l call) refl (λ n. follow_all-append calls more n m)
  where
    go :
        (r : Option Live)
        → follow l call ≡ r
        → ((n : Live)
            → follow_all calls n ≡ some m
            → follow_all (calls ++ more) n ≡ follow_all more m)
        → follow_all (call ∷ calls ++ more) l ≡ follow_all more m
    go none f rest = absurd (cc (rw (f, follow_all) at e))
    go (some n) f rest = rw (f, follow_all) (rest n (rw (f, follow_all) at e))

pub usable-made : (h : Option ℕ) → usable (made [] h) h ≡ true
usable-made none = refl
usable-made (some h) = rw (==_refl h) refl

pub gone-made : (h : Option ℕ) → gone (made [] h) h ≡ []
gone-made none = refl
gone-made (some h) = rw (==_refl h) refl

-- A call that leaves the live handles as they are.
called-IsTidy :
    (w : Window) (call : Call)
    → follow (live_of w) call ≡ some (live_of w)
    → IsTidy w
    → IsTidy (called w call)
unfolding called
called-IsTidy w call e h =
    follow_all-append w.calls (call ∷ []) nothing (live_of w) h ∙ rw (e, follow_all) refl

clear-IsTidy : (w : Window) → IsTidy w → IsTidy (clear w)
unfolding clear called
clear-IsTidy w h =
    let colour = set_render_draw_color w.renderer 96 128 255 255 in
    called-IsTidy (called w colour) (render_clear w.renderer) (rw (usable-made w.renderer) refl)
      (called-IsTidy w colour (rw (usable-made w.renderer) refl) h)

draw-IsTidy : (w : Window) → IsTidy w → IsTidy (draw w)
unfolding draw
draw-IsTidy w h = called-IsTidy w (render_present w.renderer) (rw (usable-made w.renderer) refl) h

pub frames-IsTidy : (fs : List Bool) (w : Window) → IsTidy w → IsTidy (frames fs w)
frames-IsTidy [] w h = h
frames-IsTidy (true ∷ fs) w h = frames-IsTidy fs (clear w) (clear-IsTidy w h)
frames-IsTidy (false ∷ fs) w h = frames-IsTidy fs (draw w) (draw-IsTidy w h)

init_renderer-IsTidy :
    (r : Option ℕ) (handle : ℕ) (w : Window)
    → follow_all w.calls nothing ≡ some (record { windows = handle ∷ []; renderers = [] })
    → w.window ≡ some handle
    → IsTidy (init_renderer r handle w).0
unfolding init_renderer called
init_renderer-IsTidy none handle w h e =
    ap (λ l. follow_all l nothing) (append_assoc w.calls _ _)
    ∙ follow_all-append w.calls _ nothing _ h
    ∙ rw (==_refl handle, e, follow_all, follow) refl
init_renderer-IsTidy (some r) handle w h e =
    ap (λ l. follow_all l nothing) (append_assoc w.calls _ _)
    ∙ follow_all-append w.calls _ nothing _ h
    ∙ rw (==_refl handle, e, follow_all, follow) refl

pub init-IsTidy : (o : Outcome) (width height : ℤ) → IsTidy (init o (create width height)).0
unfolding init create called
init-IsTidy o width height = go o.started o.window o.renderer
  where
    go :
        (started : Bool) (h r : Option ℕ)
        → IsTidy
            (init (record { started = started; window = h; renderer = r }) (create width height)).0
    go false h r = refl
    go true none r = refl
    go true (some h) r =
        init_renderer-IsTidy r h
          (record {
            renderer = none;
            window = some h;
            width = width;
            height = height;
            calls = sdl_init true ∷ create_window width height (some h) ∷ [];
          })
          refl refl
