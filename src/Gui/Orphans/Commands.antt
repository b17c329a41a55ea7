-- ===== src/Gui/Orphans/Commands.antt =====
-- The processes of the program, its windows, watchers and imports, before the filter for orphans.
use scmdb_log_watcher_es.Base.{
  Bool-cases, inl, inr, ℕ, ◌≡◌, refl, ap, ◌∙◌, Bool, true, false, ◌&&◌, ◌||◌, List, [], ◌∷◌, ◌++◌,
  arith, ||_left, if_both,
}
use scmdb_log_watcher_es.Text.{Text, codes, lower, text_eq}
use scmdb_log_watcher_es.Config.Paths.{FilePath, child, Files}
use scmdb_log_watcher_es.Gui.Command.{
  Command, command, lacking, resolve_watcher_launch_command, resolve_import_command, watcher_exe,
  venv_python,
}
use scmdb_log_watcher_es.Gui.Orphans.{
  Process, mode_at, somewhere, is_python, is_program, is_orphan, spaced,
}
use scmdb_log_watcher_es.Gui.Orphans.Filter.{
  Argument, somewhere-mode_at, python-script, program-mode,
}
use scmdb_log_watcher_es.Gui.Orphans.Lines.{
  Quotes, spaced-Spaced, somewhere-Spaced, process_of, core-line, import-line, script-line,
}

-- Whatever process the command starts with some options, it is an orphan.
abbrev pub Stopped : (Text → Text) → (Text → Text) → ℕ → List Text → Command → Type 0
Stopped quote name_of pid options (lacking error) = Unit
Stopped quote name_of pid options (command base) =
    is_orphan (process_of quote name_of pid (base ++ options)) ≡ true

neither : (a x b m : Bool) → a ≡ false → m ≡ false → ((a && x) || (b && m)) ≡ false
neither a x b m h k = ground (arith, h, k)

spares :
    (p : Process)
    → is_python p.name ≡ false
    → somewhere mode_at p.command_line ≡ false
    → is_orphan p ≡ false
unfolding is_orphan
spares p h k = neither (is_python p.name) _ (is_program p.name) _ h k

module _ (quote : Text → Text) (text_of : FilePath → Text) (name_of : Text → Text) (files : Files)
    (script_dir : FilePath) (pid : ℕ) (options : List Text) (q : Quotes quote)
    (names : (dir : FilePath) (file : Text) → name_of (text_of (child dir file)) ≡ file) where
  program-named : is_program (name_of (text_of (watcher_exe text_of files script_dir))) ≡ true
  unfolding is_program text_eq lower
  program-named = ap is_program (names script_dir (codes "SCMDB-Watcher.exe"))

  program-no_python : is_python (name_of (text_of (watcher_exe text_of files script_dir))) ≡ false
  unfolding is_python text_eq lower
  program-no_python = ap is_python (names script_dir (codes "SCMDB-Watcher.exe"))

  venv-IsPython :
      (exe : Text)
      → is_python exe ≡ true
      → is_python (name_of (text_of (venv_python text_of files script_dir exe))) ≡ true
  venv-IsPython exe h = ap is_python (names _ exe) ∙ h

  -- What a Python interpreter runs from `launcher.py` is an orphan.
  script-Stopped :
      (python : Text) (args : List Text)
      → is_python (name_of python) ≡ true
      → is_orphan (process_of quote name_of pid (python ∷ codes "launcher.py" ∷ args)) ≡ true
  script-Stopped python args h =
      python-script (process_of quote name_of pid (python ∷ codes "launcher.py" ∷ args)) h
        (||_left _ _ (script-line quote q python args))

  watcher-Stopped :
      (frozen : Bool)
      → Stopped quote name_of pid options
          (resolve_watcher_launch_command text_of files script_dir frozen)
  unfolding resolve_watcher_launch_command is_python text_eq lower
  watcher-Stopped true =
      if_both (Stopped quote name_of pid options) (files.exists _) _ _
        (program-mode _ program-named (core-line quote q _ options)) tt
  watcher-Stopped false =
      let pythonw = venv_python text_of files script_dir (codes "pythonw.exe") in
      let python = venv_python text_of files script_dir (codes "python.exe") in
      if_both (Stopped quote name_of pid options) (files.exists _) _ _
        (script-Stopped _ (codes "core" ∷ options) (
          if_both (λ exe. is_python (name_of (text_of exe)) ≡ true) (files.exists pythonw) pythonw
            python (venv-IsPython (codes "pythonw.exe") refl)
            (venv-IsPython (codes "python.exe") refl)))
        tt

  import-Stopped :
      (frozen : Bool)
      → Stopped quote name_of pid options (resolve_import_command text_of files script_dir frozen)
  unfolding resolve_import_command is_python text_eq lower
  import-Stopped true =
      if_both (Stopped quote name_of pid options) (files.exists _) _ _
        (program-mode _ program-named (import-line quote q _ options)) tt
  import-Stopped false =
      if_both (Stopped quote name_of pid options) (files.exists _) _ _
        (script-Stopped _ (codes "import" ∷ options) (venv-IsPython (codes "python.exe") refl)) tt

  -- A window of the installed program, with arguments that are no mode.
  window-Spared :
      (args : List Text)
      → somewhere mode_at (quote (text_of (watcher_exe text_of files script_dir))) ≡ false
      → somewhere mode_at (spaced quote args) ≡ false
      → is_orphan
          (process_of quote name_of pid (text_of (watcher_exe text_of files script_dir) ∷ args))
        ≡ false
  window-Spared args free h =
      spares _ program-no_python
        (somewhere-Spaced _ (spaced quote args) (spaced-Spaced quote args) free ∙ h)

no_argument : (quote : Text → Text) → somewhere mode_at (spaced quote []) ≡ false
unfolding somewhere mode_at
no_argument quote = refl

gui_argument :
    (quote : Text → Text)
    → Quotes quote
    → somewhere mode_at (spaced quote (codes "gui" ∷ [])) ≡ false
unfolding somewhere mode_at
gui_argument quote q = ap (λ t. somewhere mode_at (b' ' ∷ (t ++ []))) (q (codes "gui") refl)

no_mode :
    (line : Text)
    → ¬ Argument (codes "core") line
    → ¬ Argument (codes "import") line
    → somewhere mode_at line ≡ false
no_mode line no_core no_import = elim (Bool-cases (somewhere mode_at line)) [
  | inr n ↦ n
  | inl y ↦ elim (somewhere-mode_at line y) [
    | inl found ↦ absurd (no_core found)
    | inr found ↦ absurd (no_import found)
  ]
]

-- Of the program's own processes, starting a watcher stops those that a window has started as
-- watchers or imports, from the installed program and from the sources, whatever their options. A
-- window of the installed program stays, whatever blanks are in its path, unless a word of the path
-- behind the first is core or import; and a window from the sources is stopped by its own start of a
-- watcher. A process is named after its file, and its command line quotes only what needs it.
pub is_orphan-commands :
    (quote : Text → Text) (text_of : FilePath → Text) (name_of : Text → Text) (files : Files)
    (script_dir : FilePath) (python : Text) (pid : ℕ) (options args : List Text)
    → Quotes quote
    → ((dir : FilePath) (file : Text) → name_of (text_of (child dir file)) ≡ file)
    → ¬ Argument (codes "core") (quote (text_of (watcher_exe text_of files script_dir)))
    → ¬ Argument (codes "import") (quote (text_of (watcher_exe text_of files script_dir)))
    → is_python (name_of python) ≡ true
    → ((frozen : Bool)
        → Stopped quote name_of pid options
            (resolve_watcher_launch_command text_of files script_dir frozen)
          × Stopped quote name_of pid options
              (resolve_import_command text_of files script_dir frozen))
      × (is_orphan
            (process_of quote name_of pid (text_of (watcher_exe text_of files script_dir) ∷ []))
          ≡ false)
      × (is_orphan (
            process_of quote name_of pid
              (text_of (watcher_exe text_of files script_dir) ∷ codes "gui" ∷ []))
          ≡ false)
      × (is_orphan (process_of quote name_of pid (python ∷ codes "launcher.py" ∷ args)) ≡ true)
is_orphan-commands quote text_of name_of files script_dir python pid options args q names no_core
      no_import py =
    let free = no_mode _ no_core no_import in
    let window = window-Spared quote text_of name_of files script_dir pid options q names in
    (
      λ frozen. (
        watcher-Stopped quote text_of name_of files script_dir pid options q names frozen,
        import-Stopped quote text_of name_of files script_dir pid options q names frozen,
      ),
      window [] free (no_argument quote),
      window (codes "gui" ∷ []) free (gui_argument quote q),
      script-Stopped quote text_of name_of files script_dir pid options q names python args py,
    )
