-- ===== src/Samples/Checks.antt =====
-- Versions, and an import that the window starts, at concrete inputs.
use scmdb_log_watcher_es.Base.{ℕ, zero, suc, ◌≡◌, refl, some, [], ◌∷◌}
use scmdb_log_watcher_es.Text.{Text, codes, strip, lower, split, starts_with}
use scmdb_log_watcher_es.Gui.Command.{import_args, import_result}
use scmdb_log_watcher_es.Import.Args.{Site, import_process}
use scmdb_log_watcher_es.Pipeline.Imported.{
  Outcome, completed, import_options, import_process-launcher_main,
}
use scmdb_log_watcher_es.Runtime.Entry.{launcher_main, importing}
use scmdb_log_watcher_es.Import.Command.{Log, Format}
use scmdb_log_watcher_es.Runtime.Update.{version_tuple}

version_tuple_beta : version_tuple (codes " v1.20.3-beta ") ≡ 1 ∷ 20 ∷ 3 ∷ []
unfolding version_tuple strip lower split
version_tuple_beta = refl

-- Numbers in unary.
abbrev unary : ℕ → Text
unary zero = []
unary (suc n) = b'1' ∷ unary n

abbrev format : Format
format = record { digits = unary; padded = unary; megabytes = unary }

abbrev log : Log
log = record { name = codes "Game Build(1).log"; size = 5; missions = []; blueprints = [] }

abbrev site : Site
site = record {
  default_log_path = codes "Game.log";
  default_output = codes "runtime";
  beside = λ path. codes "logbackups";
  source_at = λ directory path. record {
    directory = directory;
    backups = some (log ∷ []);
    current = some log;
  };
}

import_process-launcher_main_example :
    (import_args
        (codes "w.exe" ∷ codes "import" ∷ [])
        (codes "C:\\Game.log")
        (some (codes "o.json"))
      ≡ codes "w.exe" ∷ codes "import" ∷ import_options (codes "C:\\Game.log") (codes "o.json"))
    × (launcher_main (codes "import" ∷ import_options (codes "C:\\Game.log") (codes "o.json"))
        ≡ importing (import_options (codes "C:\\Game.log") (codes "o.json")))
    × Outcome (some (log ∷ [])) (codes "o.json") (
        import_result
          (completed
            (λ lines. [])
            []
            (import_process format
              (codes "0.1.2")
              (codes "now")
              site
              (import_options (codes "C:\\Game.log") (codes "o.json"))))
          (some (codes "o.json")))
unfolding strip starts_with
import_process-launcher_main_example =
    import_process-launcher_main format (codes "0.1.2") (codes "now") (λ lines. []) [] site
      (codes "w.exe") (codes "C:\\Game.log") (codes "o.json") b'o' (codes ".json") refl refl refl
      refl
