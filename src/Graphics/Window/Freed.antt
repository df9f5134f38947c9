-- ===== src/Graphics/Window/Freed.antt =====
-- What `destroy` frees, called once and twice.
use haraka_engine.Base.{
  ℕ, ◌≡◌, refl, ap, ◌∙◌, Bool, true, false, if◌then◌else◌, ◌&&◌, Option, none, some, List, [], ◌∷◌,
  append_assoc, ==_refl,
}
use haraka_engine.Base.Int.{ℤ}
use haraka_engine.Graphics.Window.{
  destroy_renderer, destroy_window, Window, Outcome, called, create, init_renderer, init, clear,
  draw, destroy,
}
use haraka_engine.Graphics.Window.Handles.{
  Live, nothing, follow, follow_all, follow_all-append, frames, made, live_of, IsTidy,
  frames-IsTidy, init-IsTidy,
}

abbrev is_some : Option ℕ → Bool
is_some none = false
is_some (some h) = true

-- SDL gives a window to `init`.
abbrev pub has_window : Outcome → Bool
has_window o = o.started && is_some o.window

frames-window : (fs : List Bool) (w : Window) → (frames fs w).window ≡ w.window
unfolding clear draw called
frames-window [] w = refl
frames-window (true ∷ fs) w = frames-window fs (clear w)
frames-window (false ∷ fs) w = frames-window fs (draw w)

frames-renderer : (fs : List Bool) (w : Window) → (frames fs w).renderer ≡ w.renderer
unfolding clear draw called
frames-renderer [] w = refl
frames-renderer (true ∷ fs) w = frames-renderer fs (clear w)
frames-renderer (false ∷ fs) w = frames-renderer fs (draw w)

-- The first `destroy` frees what is live.
destroy-nothing : (w : Window) → IsTidy w → follow_all (destroy w).0.calls nothing ≡ some nothing
unfolding destroy called
destroy-nothing w h =
    ap (λ l. follow_all l nothing) (append_assoc w.calls _ _)
    ∙ follow_all-append w.calls (destroy_renderer w.renderer ∷ destroy_window w.window ∷ []) nothing
        (live_of w) h
    ∙ freed w.renderer w.window
  where
    freed :
        (r h : Option ℕ)
        → follow_all
            (destroy_renderer r ∷ destroy_window h ∷ [])
            (record { windows = made [] h; renderers = made [] r })
          ≡ some nothing
    freed none none = refl
    freed none (some h) = rw (==_refl h, follow_all, follow) refl
    freed (some r) none = rw (==_refl r, follow_all, follow) refl
    freed (some r) (some h) = rw (==_refl r, ==_refl h, follow_all, follow) refl

-- The calls of another one, with nothing live.
again : (r h : Option ℕ) → Option Live
again r h = follow_all (destroy_renderer r ∷ destroy_window h ∷ []) nothing

destroy-again :
    (w : Window)
    → IsTidy w
    → follow_all (destroy (destroy w).0).0.calls nothing ≡ again w.renderer w.window
unfolding destroy called again
destroy-again w h =
    let v = (destroy w).0 in
    ap (λ l. follow_all l nothing) (append_assoc v.calls _ _)
    ∙ follow_all-append v.calls (destroy_renderer w.renderer ∷ destroy_window w.window ∷ []) nothing
        nothing (destroy-nothing w h)

init-again :
    (o : Outcome) (width height : ℤ)
    → let w = (init o (create width height)).0 in
      again w.renderer w.window ≡ (if has_window o then none else some nothing)
unfolding init create called init_renderer again
init-again o width height = go o.started o.window o.renderer
  where
    go :
        (started : Bool) (h r : Option ℕ)
        → let o : Outcome = record { started = started; window = h; renderer = r } in
          let w = (init o (create width height)).0 in
          again w.renderer w.window ≡ (if has_window o then none else some nothing)
    go false h r = refl
    go true none r = refl
    go true (some h) none = refl
    go true (some h) (some r) = refl

-- Whatever SDL answers to `init` on a new window, and whatever is cleared and drawn afterwards: up
-- to the end of `destroy` SDL is given no handle but null and live ones, and then none is live; up
-- to the end of a second `destroy` it is given one that is not live exactly when it had made a
-- window.
pub destroy_frees :
    (o : Outcome) (width height : ℤ) (fs : List Bool)
    → let w = frames fs (init o (create width height)).0 in
      (follow_all (destroy w).0.calls nothing ≡ some nothing)
      × (follow_all (destroy (destroy w).0).0.calls nothing
          ≡ (if has_window o then none else some nothing))
unfolding again
destroy_frees o width height fs =
    let v = (init o (create width height)).0 in
    let w = frames fs v in
    let tidy = frames-IsTidy fs v (init-IsTidy o width height) in
    (
      destroy-nothing w tidy,
      destroy-again w tidy
          ∙ rw (frames-window fs v, frames-renderer fs v) (init-again o width height),
    )
