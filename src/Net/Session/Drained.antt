-- ===== src/Net/Session/Drained.antt =====
-- Where the handlers of the sending half of a session come to rest.
use haraka_engine.Base.{
  zero, sym, ◌++◌, append-nil, append_assoc, ℕ, suc, ◌≤◌, ◌≡◌, refl, ap, ◌∙◌, true, List, [], ◌∷◌,
  ◌⊎◌, inl, inr, arith,
}
use haraka_engine.Net.Session.{
  Packet, Layout, Writer, Writing, idle, writing_header, writing_body, stopped, frames, Step, runs,
  header_done, body_done, Reach, start, later, sends, send_packet,
}
use haraka_engine.Net.Session.Runs.{
  Reach-IsOrdered, header_done-Continues, body_done-Continues, wrote-frames_idle,
}
use haraka_engine.Net.Session.Draining.{Alive, work, IsHandler, Step-Decreases}

module _ {E : Type 0} (layout : Layout E) where
  -- A run of so many handlers, without an error, in any order that the context may choose.
  pub data Handlers : Writer E → ℕ → Writer E → Type 0 where
    none : {s : Writer E} → Handlers s 0 s
    next :
        {n : ℕ} {s t u : Writer E} (step : Step layout s t)
        → IsHandler layout step
        → Handlers t n u
        → Handlers s (suc n) u

  -- Nothing is left to do, and every packet that was sent is written.
  pub record IsDrained (s t : Writer E) : Type 0 where
    pub writing : t.writing ≡ idle
    pub posted : t.posted ≡ []
    pub sent : t.sent ≡ s.sent
    pub wrote : t.wrote ≡ frames layout s.sent

  -- A handler can run.
  abbrev pub CanRun : Writer E → Type 0
  CanRun s = (t : Writer E) × (step : Step layout s t) × IsHandler layout step

  next_handler :
      (s : Writer E)
      → Reach layout s
      → Alive s.writing
      → s.is_open ≡ true
      → ((s.writing ≡ idle) × (s.posted ≡ [])) ⊎ CanRun s
  next_handler s r up live = go s.posted refl s.writing refl up
    where
      go :
          (ps : List (Packet E))
          → s.posted ≡ ps
          → (w : Writing) → s.writing ≡ w
          → Alive w
          → ((s.writing ≡ idle) × (s.posted ≡ [])) ⊎ CanRun s
      go (p ∷ ps) e w at _ = inr (_, runs p ps e, tt)
      go [] e idle at _ = inl (at, e)
      go [] e writing_header at _ =
          let (t, made, _) = header_done-Continues layout s at (Reach-IsOrdered layout r) in
          inr (t, header_done t live at made, tt)
      go [] e writing_body at _ =
          let (t, made, _) = body_done-Continues layout s at (Reach-IsOrdered layout r) in
          inr (t, body_done t live at made, tt)
      go [] e stopped at dead = absurd dead

  IsDrained-here :
      (s : Writer E) → Reach layout s → s.writing ≡ idle → s.posted ≡ [] → IsDrained s s
  IsDrained-here s r at e = record {
    writing = at;
    posted = e;
    sent = refl;
    wrote = wrote-frames_idle layout r at e;
  }

  IsDrained-before : (s t u : Writer E) → t.sent ≡ s.sent → IsDrained t u → IsDrained s u
  IsDrained-before s t u e h = record {
    writing = h.writing;
    posted = h.posted;
    sent = h.sent ∙ e;
    wrote = h.wrote ∙ ap (frames layout) e;
  }

  -- In every state of a sending session whose writes have not failed and whose socket is open: when
  -- the context runs handlers, in any order and without an error, and nothing more is sent, it runs
  -- at most three for each posted packet and two for each queued one; and as long as a packet that
  -- was sent is not wholly written, or a handler not run, there is a handler that can run.
  pub Handlers-IsDrained :
      {s t : Writer E} {n : ℕ}
      → Handlers s n t
      → Reach layout s
      → Alive s.writing
      → s.is_open ≡ true
      → (n ≤ work s) × (IsDrained s t ⊎ CanRun t)
  Handlers-IsDrained {s} none r up live = (
    omega arith,
    elim (next_handler s r up live) [
      | inl (at, e) ↦ inl (IsDrained-here s r at e)
      | inr more ↦ inr more
    ],
  )
  Handlers-IsDrained (next {n} {s} {t} {u} step h run) r up live =
      let d = Step-Decreases layout step h (Reach-IsOrdered layout r) up in
      let (k, end) = Handlers-IsDrained run (later r step) d.alive (d.is_open ∙ live) in
      (
        omega (arith, k, d.less),
        elim end [ inl done ↦ inl (IsDrained-before s t u d.sent done) | inr more ↦ inr more ],
      )

  IsDrained-within :
      (fuel : ℕ) (s : Writer E)
      → Reach layout s
      → Alive s.writing
      → s.is_open ≡ true
      → work s ≤ fuel
      → (t : Writer E) × Reach layout t × IsDrained s t
  IsDrained-within zero s r up live enough = elim (next_handler s r up live) [
    | inl (at, e) ↦ (s, r, IsDrained-here s r at e)
    | inr (t, step, h) ↦
        let d = Step-Decreases layout step h (Reach-IsOrdered layout r) up in
        absurd (omega (arith, enough, d.less))
  ]
  IsDrained-within (suc fuel) s r up live enough = elim (next_handler s r up live) [
    | inl (at, e) ↦ (s, r, IsDrained-here s r at e)
    | inr (t, step, h) ↦
        let d = Step-Decreases layout step h (Reach-IsOrdered layout r) up in
        let (u, run, done) =
          IsDrained-within fuel t (later r step) d.alive (d.is_open ∙ live)
            (omega (arith, enough, d.less)) in
        (u, run, IsDrained-before s t u d.sent done)
  ]

  send_all :
      (ps : List (Packet E)) {s : Writer E}
      → Reach layout s
      → Alive s.writing
      → s.is_open ≡ true
      → (t : Writer E) × Reach layout t
        × Alive t.writing
        × (t.is_open ≡ true)
        × (t.sent ≡ s.sent ++ ps)
  unfolding send_packet
  send_all [] {s} r up live = (s, r, up, live, sym (append-nil s.sent))
  send_all (p ∷ ps) {s} r up live =
      let (t, run, still, opened, e) = send_all ps (later r (sends p)) up live in
      (t, run, still, opened, e ∙ append_assoc s.sent (p ∷ []) ps)

  -- For any packets there is a run of a session that sends them and comes to rest.
  pub send_all-IsDrained :
      (ps : List (Packet E))
      → (t : Writer E) × Reach layout t × (t.writing ≡ idle) × (t.posted ≡ []) × (t.sent ≡ ps)
  send_all-IsDrained ps =
      let (s, sending, up, live, sent) = send_all ps start tt refl in
      let (t, run, done) = IsDrained-within (work s) s sending up live (omega arith) in
      (t, run, done.writing, done.posted, done.sent ∙ sent)
