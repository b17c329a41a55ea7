-- ===== src/Samples/Orphans.antt =====
-- The cleanup of orphans at concrete processes.
use scmdb_log_watcher_es.Base.{
  ◌≡◌, refl, Bool, true, false, [], ◌∷◌, ◌↔◌, ◌⊎◌, In, ◌==◌, not, ◌++◌, if◌then◌else◌, arith, drop,
}
use scmdb_log_watcher_es.Text.{Text, codes, lower, text_eq}
use scmdb_log_watcher_es.Config.Paths.{FilePath, name, Files, child}
use scmdb_log_watcher_es.Config.Settings.Live.{name-child}
use scmdb_log_watcher_es.Gui.Command.{
  watcher_exe, resolve_watcher_launch_command, resolve_import_command,
}
use scmdb_log_watcher_es.Gui.Orphans.{
  Process, somewhere, mode_at, word_at, white_space, is_python, is_orphan,
  force_cleanup_orphan_watchers,
}
use scmdb_log_watcher_es.Gui.Orphans.Filter.{
  Orphan, Argument, Argument-somewhere, mode_at-core, mode_at-import,
}
use scmdb_log_watcher_es.Gui.Orphans.Cleanup.{force_cleanup_orphan_watchers_lem}
use scmdb_log_watcher_es.Gui.Orphans.Lines.{process_of, is_bare, Quotes}
use scmdb_log_watcher_es.Gui.Orphans.Commands.{Stopped, is_orphan-commands}

-- Nothing needs quotes.
abbrev bare : Text → Text
bare arg = arg

abbrev script_dir : FilePath
script_dir = record { anchor = codes "C:\\"; parts = codes "scmdb" ∷ [] }

abbrev files : Files
files = record { exists = λ p. true; is_file = λ p. true; is_dir = λ p. false }

abbrev watcher : Process
watcher = process_of bare bare 5 (codes "SCMDB-Watcher.exe" ∷ codes "core" ∷ [])

abbrev window : Process
window = process_of bare bare 4 (codes "SCMDB-Watcher.exe" ∷ [])

cleanup_example : force_cleanup_orphan_watchers (λ p. true) (window ∷ watcher ∷ []) ≡ window ∷ []
unfolding force_cleanup_orphan_watchers
cleanup_example = refl

force_cleanup_orphan_watchers_example :
    In window (force_cleanup_orphan_watchers (λ p. not (p.process_id == 6)) (window ∷ watcher ∷ []))
    ↔ (In window (window ∷ watcher ∷ [])
        × (¬ Orphan window ⊎ (not (window.process_id == 6) ≡ false)))
force_cleanup_orphan_watchers_example =
    force_cleanup_orphan_watchers_lem (λ p. not (p.process_id == 6)) window (window ∷ watcher ∷ [])

-- The program in its usual directory, with a blank in it.
abbrev installed : FilePath → Text
installed p = codes "C:\\Program Files\\SCMDB Log Watcher\\" ++ name p

abbrev named : Text → Text
named = drop 35

abbrev quoted : Text → Text
quoted arg = if is_bare arg then arg else b'"' ∷ (arg ++ b'"' ∷ [])

quoted-bare : Quotes quoted
quoted-bare arg b = rw b refl

no_mode_in_path :
    somewhere mode_at (quoted (installed (watcher_exe installed files script_dir))) ≡ false
unfolding somewhere mode_at name white_space word_at
no_mode_in_path = refl

no_core : ¬ Argument (codes "core") (quoted (installed (watcher_exe installed files script_dir)))
no_core found =
    absurd (ground (arith, Argument-somewhere (codes "core") _ mode_at-core found, no_mode_in_path))

no_import :
    ¬ Argument (codes "import") (quoted (installed (watcher_exe installed files script_dir)))
no_import found =
    absurd
      (ground (arith, Argument-somewhere (codes "import") _ mode_at-import found, no_mode_in_path))

is_orphan-commands_example :
    ((frozen : Bool)
      → Stopped quoted named 4
          (codes "--verbose" ∷ [])
          (resolve_watcher_launch_command installed files script_dir frozen)
        × Stopped quoted named 4
            (codes "--verbose" ∷ [])
            (resolve_import_command installed files script_dir frozen))
    × (is_orphan
          (process_of quoted named 4 (installed (watcher_exe installed files script_dir) ∷ []))
        ≡ false)
    × (is_orphan (
          process_of quoted named 4
            (installed (watcher_exe installed files script_dir) ∷ codes "gui" ∷ []))
        ≡ false)
    × (is_orphan (
          process_of quoted named 4 (
            installed (child script_dir (codes "python.exe"))
            ∷ codes "launcher.py"
            ∷ codes "gui"
            ∷ []))
        ≡ true)
unfolding is_python lower text_eq white_space name
is_orphan-commands_example =
    is_orphan-commands quoted installed named files script_dir
      (installed (child script_dir (codes "python.exe"))) 4 (codes "--verbose" ∷ [])
      (codes "gui" ∷ []) quoted-bare name-child no_core no_import refl
