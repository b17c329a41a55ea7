-- ===== src/Gui/Poll.antt =====
-- What the window shows after a poll.
use scmdb_log_watcher_es.Base.{
  ℕ, ◌+◌, ◌-◌, ◌*◌, ◌<◌, ◌≡◌, ◌≢◌, refl, sym, ap, ◌∙◌, subst, if◌then◌else◌, Bool, true, false, not,
  none, some, Option, [], ◌∷◌, Bool-cases, inl, inr, arith,
}
use scmdb_log_watcher_es.Text.{Text, codes, text_eq, text_eq_iff}
use scmdb_log_watcher_es.Domain.State.{second}
use scmdb_log_watcher_es.Gui.Command.{port_of, ping_ok}
use scmdb_log_watcher_es.Gui.Status.{
  decide_poll_status, Shown, plain, build_status_text, green, orange, red,
}
use scmdb_log_watcher_es.Gui.State.{Machine, Gui}
use scmdb_log_watcher_es.Gui.Watch.{
  is_running, Answers, default_port, set_status, toggle_buttons, poll_status, poll_body,
  poll_running, poll_port, apply_decision, forget_start, in_grace,
}

abbrev connected : Text → Shown
connected [] = plain (codes "status_ok_no_version")
connected (c ∷ s) = record { key = codes "status_ok"; argument = c ∷ s }

-- The text and the colour, by whether the process runs, answers, and has only just started.
abbrev display : Bool → Bool → Bool → Text → Shown × Text
display true true grace version = (connected version, green)
display true false true version = (plain (codes "status_starting"), orange)
display true false false version = (plain (codes "status_wait_conn"), orange)
display false answers grace version = (plain (codes "status_stopped"), red)

-- The window displays that, and the buttons go with it.
abbrev Displays : Bool → Shown × Text → Gui → Type 0
Displays running (status, color) g =
    (g.status ≡ status)
    × (g.color ≡ color)
    × (g.stop_enabled ≡ running)
    × (g.start_enabled ≡ not running)

module _ (m : Machine) where
  poll_running-Displays :
      (a : Answers) (running ok grace : Bool) (version : Text) (g : Gui)
      → Displays running
          (display running ok grace version)
          (poll_running m a running (ok, version) grace g)
  unfolding poll_running apply_decision set_status toggle_buttons build_status_text text_eq
      decide_poll_status
  poll_running-Displays a true true grace [] g = (refl, refl, refl, refl)
  poll_running-Displays a true true grace (c ∷ s) g = (refl, refl, refl, refl)
  poll_running-Displays a true false true version g = (refl, refl, refl, refl)
  poll_running-Displays a true false false version g = (refl, refl, refl, refl)
  poll_running-Displays a false true grace version g = (refl, refl, refl, refl)
  poll_running-Displays a false false grace version g = (refl, refl, refl, refl)

  poll_body-open :
      (a : Answers) (g : Gui) (port : Option Text)
      → g.settings_open ≡ false
      → port_of m.int_of default_port g.config_data ≡ port
      → poll_body m a g ≡ poll_port m port a g
  unfolding poll_body
  poll_body-open a g port closed known =
      ap
        (λ b.
          if b
          then toggle_buttons (is_running g.proc) g
          else poll_port m (port_of m.int_of default_port g.config_data) a g)
        closed
      ∙ ap (λ p. poll_port m p a g) known

  poll_body-dialog :
      (a : Answers) (g : Gui)
      → g.settings_open ≡ true
      → poll_body m a g ≡ toggle_buttons (is_running g.proc) g
  unfolding poll_body
  poll_body-dialog a g shown =
      ap
        (λ b.
          if b
          then toggle_buttons (is_running g.proc) g
          else poll_port m (port_of m.int_of default_port g.config_data) a g)
        shown

-- The buttons offer to stop a watcher that runs, and to start one where none runs.
abbrev pub Offers : Bool → Gui → Type 0
Offers running h = (h.stop_enabled ≡ running) × (h.start_enabled ≡ not running)

abbrev pub Shows : Shown → Text → Gui → Type 0
Shows status color h = (h.status ≡ status) × (h.color ≡ color)

-- `/ping` says nothing, or something else than ok.
abbrev pub Silent : Option (Text × Text) → Type 0
Silent ping = (version : Text) → ping ≢ some (codes "ok", version)

-- The watcher was started less than three seconds ago.
abbrev pub Young : Option ℕ → ℕ → Type 0
Young none now = ⊥
Young (some started) now = now < started + 3 * second

-- What a poll makes of the window `g`.
pub data Polled (m : Machine) (a : Answers) (g h : Gui) : Type 0 where
  in_settings :
      g.settings_open ≡ true
      → Shows g.status g.color h
      → Offers (is_running g.proc) h
      → Polled m a g h
  no_port :
      g.settings_open ≡ false
      → port_of m.int_of default_port g.config_data ≡ none
      → Shows g.status g.color h
      → (h.stop_enabled ≡ g.stop_enabled) × (h.start_enabled ≡ g.start_enabled)
      → Polled m a g h
  connects :
      (version : Text)
      → g.settings_open ≡ false
      → g.proc ≡ some true
      → a.ping ≡ some (codes "ok", version)
      → Shows (connected version) green h
      → Offers true h
      → Polled m a g h
  starts :
      g.settings_open ≡ false
      → g.proc ≡ some true
      → Silent a.ping
      → Young g.watcher_start_time a.now
      → Shows (plain (codes "status_starting")) orange h
      → Offers true h
      → Polled m a g h
  waits :
      g.settings_open ≡ false
      → g.proc ≡ some true
      → Silent a.ping
      → ¬ Young g.watcher_start_time a.now
      → Shows (plain (codes "status_wait_conn")) orange h
      → Offers true h
      → Polled m a g h
  stops :
      g.settings_open ≡ false
      → g.proc ≢ some true
      → Shows (plain (codes "status_stopped")) red h
      → Offers false h
      → Polled m a g h

running_proc : (proc : Option Bool) → is_running proc ≡ true → proc ≡ some true
running_proc none h = absurd (ground (arith, h))
running_proc (some b) h = ap some h

ping_ok-true :
    (ping : Option (Text × Text)) (version : Text)
    → ping_ok ping ≡ (true, version)
    → ping ≡ some (codes "ok", version)
unfolding ping_ok
ping_ok-true none version h = absurd (ground (arith, h))
ping_ok-true (some (status, v)) version h =
    let same : text_eq status (codes "ok") ≡ true = ap (λ (r : Bool × Text). r.0) h in
    let s = (text_eq_iff status (codes "ok")).0 same in
    ap (λ t. some (t, v)) s ∙ ap (λ (r : Bool × Text). some (codes "ok", r.1)) h

ping_ok-false :
    (ping : Option (Text × Text)) (version : Text) → ping_ok ping ≡ (false, version) → Silent ping
unfolding ping_ok text_eq
ping_ok-false ping version h v e =
    let b : ◌≡◌ {A = Bool} false true =
      sym (ap (λ (r : Bool × Text). r.0) h) ∙ ap (λ p. (ping_ok p).0) e in
    absurd (ground (arith, b))

in_grace-true :
    (m : Machine) (start : Option ℕ) (now : ℕ) → in_grace m start now ≡ true → Young start now
in_grace-true m none now h = absurd (ground (arith, h))
in_grace-true m (some started) now h = ground (arith, h)

in_grace-false :
    (m : Machine) (start : Option ℕ) (now : ℕ) → in_grace m start now ≡ false → ¬ Young start now
in_grace-false m none now h y = y
in_grace-false m (some started) now h y = ground (arith, h, y)

module _ (m : Machine) (a : Answers) (g h : Gui) (closed : g.settings_open ≡ false) where
  polled :
      (running ok grace : Bool) (version : Text)
      → is_running g.proc ≡ running
      → ping_ok a.ping ≡ (ok, version)
      → in_grace m g.watcher_start_time a.now ≡ grace
      → Displays running (display running ok grace version) h
      → Polled m a g h
  polled true true grace version r p y (s, c, x, z) =
      connects version closed (running_proc g.proc r) (ping_ok-true a.ping version p) (s, c) (x, z)
  polled true false true version r p y (s, c, x, z) =
      starts closed (running_proc g.proc r) (ping_ok-false a.ping version p)
        (in_grace-true m g.watcher_start_time a.now y) (s, c) (x, z)
  polled true false false version r p y (s, c, x, z) =
      waits closed (running_proc g.proc r) (ping_ok-false a.ping version p)
        (in_grace-false m g.watcher_start_time a.now y) (s, c) (x, z)
  polled false ok grace version r p y (s, c, x, z) =
      stops closed (λ e. ground (arith, r, ap is_running e)) (s, c) (x, z)

module _ (m : Machine) (a : Answers) (g : Gui) where
  -- `finally`
  abbrev timed : Gui → Gui
  timed k = record k { polls = if k.exiting then k.polls - 1 else k.polls - 1 + 1 }

  dialog-Polled : g.settings_open ≡ true → Polled m a g (poll_status m a g)
  unfolding poll_status toggle_buttons
  dialog-Polled h =
      subst (λ k. Polled m a g (timed k)) (sym (poll_body-dialog m a g h))
        (in_settings h (refl, refl) (refl, refl))

  port-Polled :
      (port : Option Text)
      → g.settings_open ≡ false
      → port_of m.int_of default_port g.config_data ≡ port
      → Polled m a g (poll_status m a g)
  unfolding poll_status
  port-Polled none closed unknown =
      subst (λ k. Polled m a g (timed k)) (sym (poll_body-open m a g none closed unknown))
        (no_port closed unknown (refl, refl) (refl, refl))
  port-Polled (some port) closed known =
      let ok = (ping_ok a.ping).0 in
      let version = (ping_ok a.ping).1 in
      let grace = in_grace m g.watcher_start_time a.now in
      let running = is_running g.proc in
      subst (λ k. Polled m a g (timed k)) (sym (poll_body-open m a g (some port) closed known))
        (polled m a g (timed (poll_port m (some port) a g)) closed running ok grace version refl
          refl refl (poll_running-Displays m a running ok grace version (forget_start m running g)))

  -- What a poll shows, on every branch: with the dialog of the settings open, or a port that is no
  -- number, the status as it was; else that the watcher is connected exactly if its process runs and
  -- `/ping` says ok; if not, for the first three seconds after the start that it is starting, and then
  -- that it waits; and that it is stopped if no process runs. The buttons offer to stop exactly what
  -- runs, and are left alone if the port is no number.
  pub poll_status-Polled : Polled m a g (poll_status m a g)
  poll_status-Polled = elim (Bool-cases g.settings_open) [
    | inl shown ↦ dialog-Polled shown
    | inr closed ↦ port-Polled (port_of m.int_of default_port g.config_data) closed refl
  ]
