-- ===== src/Gui/Valid/Watch.antt =====
-- Starting and polling keep the window valid.
use scmdb_log_watcher_es.Base.{
  ℕ, ◌+◌, ◌-◌, ◌≡◌, refl, sym, ap, ◌∙◌, Bool, true, false, not, Option, none, some, List, [], arith,
  Bool-cases, if_both, inl, inr, if◌then◌else◌, ◌&&◌,
}
use scmdb_log_watcher_es.Text.{Text, text_eq}
use scmdb_log_watcher_es.Config.Settings.{SettingsSaveResult}
use scmdb_log_watcher_es.Gui.Command.{Command, command, lacking, port_of, ping_ok}
use scmdb_log_watcher_es.Gui.Status.{build_status_text, decide_poll_status, PollDecision}
use scmdb_log_watcher_es.Gui.State.{Machine, Gui, inline_result, take_result, save_inline_config}
use scmdb_log_watcher_es.Gui.Watch.{
  is_running, set_status, toggle_buttons, forget_start, start_saved, poll_running, poll_port,
  launch, Answers, watcher_command, start_process, start_watcher, apply_decision, poll_body,
  poll_status, default_port, in_grace, install_dir,
}
use scmdb_log_watcher_es.Gui.Valid.{Core, IsValid, Same, Same-IsValid, toggle_buttons-IsValid}

module _ (m : Machine) where
  take_result-Same :
      (ok : Bool) (r : SettingsSaveResult) (g : Gui) → Same g (take_result m ok r g).1
  unfolding take_result
  take_result-Same false r g = refl
  take_result-Same true r g = refl

  pub save_inline_config-Same : (g : Gui) → Same g (save_inline_config m g).1
  unfolding save_inline_config
  save_inline_config-Same g = take_result-Same (inline_result m g).ok (inline_result m g) g

  launch-IsValid :
      (cmd : List Text) (now : ℕ) (g : Gui)
      → g.exiting ≡ false
      → IsValid g
      → IsValid (launch cmd now g)
  unfolding launch
  launch-IsValid cmd now g h v = record {
    buttons = refl;
    one_poll = v.one_poll;
    few_polls = v.few_polls;
    one_import = v.one_import;
    ended = λ e. ground (arith, h, e);
    gone = v.gone;
  }

  start_process-IsValid :
      (c : Option Command) (creates : Bool) (now : ℕ) (g : Gui)
      → g.exiting ≡ false
      → IsValid g
      → IsValid (start_process m c creates now g)
  unfolding start_process
  start_process-IsValid none creates now g h v = v
  start_process-IsValid (some (lacking error)) creates now g h v = v
  start_process-IsValid (some (command cmd)) false now g h v = v
  start_process-IsValid (some (command cmd)) true now g h v = launch-IsValid cmd now g h v

  start_saved-IsValid :
      (a : Answers) (ok runs lacks : Bool) (g : Gui)
      → g.exiting ≡ false
      → IsValid g
      → IsValid (start_saved m a ok runs lacks g)
  unfolding start_saved
  start_saved-IsValid a false runs lacks g h v = v
  start_saved-IsValid a true true lacks g h v = v
  start_saved-IsValid a true false true g h v = v
  start_saved-IsValid a true false false g h v =
      start_process-IsValid (watcher_command m g) a.creates a.now g h v

  pub start_watcher-IsValid :
      (a : Answers) (g : Gui) → g.exiting ≡ false → IsValid g → IsValid (start_watcher m a g)
  unfolding start_watcher
  start_watcher-IsValid a g h v =
      let (ok, g') = save_inline_config m g in
      let s = save_inline_config-Same g in
      start_saved-IsValid a ok (is_running g'.proc) (text_eq (install_dir m g') []) g'
        (sym (ap (λ (c : Core). c.exiting) s) ∙ h) (Same-IsValid g g' s v)

  apply_decision-IsValid :
      (a : Answers) (version : Text) (d : PollDecision) (g : Gui)
      → d.should_start ≡ false
      → IsValid g
      → IsValid (apply_decision m a version d g)
  unfolding apply_decision
  apply_decision-IsValid a version d g h v = rw h (
      toggle_buttons-IsValid d.running
        (set_status (build_status_text d.status_key version) d.color g) v)

  -- The poll asks for no start.
  pub should_start-decide_poll_status :
      (running ok : Bool) → (decide_poll_status running ok false false).should_start ≡ false
  unfolding decide_poll_status
  should_start-decide_poll_status true true = refl
  should_start-decide_poll_status true false = refl
  should_start-decide_poll_status false true = refl
  should_start-decide_poll_status false false = refl

  poll_running-IsValid :
      (a : Answers) (running : Bool) (p : Bool × Text) (grace : Bool) (g : Gui)
      → IsValid g
      → IsValid (poll_running m a running p grace g)
  unfolding poll_running
  poll_running-IsValid a running (ok, version) grace g v =
      elim (Bool-cases (running && (not ok && grace))) [
        | inl y ↦ rw y (toggle_buttons-IsValid running g v)
        | inr n ↦ rw n (
            apply_decision-IsValid a version (decide_poll_status running ok false false) g
              (should_start-decide_poll_status running ok) v)
      ]

  forget_start-IsValid : (running : Bool) (g : Gui) → IsValid g → IsValid (forget_start m running g)
  forget_start-IsValid false g v = v
  forget_start-IsValid true g v = v

  poll_port-IsValid :
      (port : Option Text) (a : Answers) (g : Gui) → IsValid g → IsValid (poll_port m port a g)
  poll_port-IsValid none a g v = v
  poll_port-IsValid (some port) a g v =
      let running = is_running g.proc in
      poll_running-IsValid a running (ping_ok a.ping) (in_grace m g.watcher_start_time a.now)
        (forget_start m running g) (forget_start-IsValid running g v)

  poll_body-IsValid : (a : Answers) (g : Gui) → IsValid g → IsValid (poll_body m a g)
  unfolding poll_body
  poll_body-IsValid a g v =
      if_both IsValid g.settings_open (toggle_buttons (is_running g.proc) g)
        (poll_port m (port_of m.int_of default_port g.config_data) a g)
        (toggle_buttons-IsValid (is_running g.proc) g v)
        (poll_port-IsValid (port_of m.int_of default_port g.config_data) a g v)

  rescheduled-IsValid :
      (g : Gui)
      → IsValid g
      → IsValid (record g { polls = if g.exiting then g.polls - 1 else g.polls - 1 + 1 })
  rescheduled-IsValid g v = record {
    buttons = v.buttons;
    one_poll = λ e. ground (arith, e, v.one_poll e);
    few_polls = ground (arith, v.few_polls);
    one_import = v.one_import;
    ended = v.ended;
    gone = v.gone;
  }

  pub poll_status-IsValid : (a : Answers) (g : Gui) → IsValid g → IsValid (poll_status m a g)
  unfolding poll_status
  poll_status-IsValid a g v = rescheduled-IsValid (poll_body m a g) (poll_body-IsValid a g v)
