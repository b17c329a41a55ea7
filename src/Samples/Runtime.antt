-- ===== src/Samples/Runtime.antt =====
-- Ports, log files, origins and the command line at concrete inputs.
use scmdb_log_watcher_es.Base.{
  ℕ, ◌+◌, ◌≡◌, ◌↔◌, ◌⊎◌, ◌||◌, true, false, some, List, [], ◌∷◌, In, ltb, if◌then◌else◌,
}
use scmdb_log_watcher_es.Text.{Text, codes, split}
use scmdb_log_watcher_es.Runtime.Ports.{
  Made, made, os_error, Outcome, at_least_one, create_server_with_fallback,
  create_server_with_fallback-Outcome,
}
use scmdb_log_watcher_es.Runtime.Logs.{LogFile}
use scmdb_log_watcher_es.Runtime.Origins.{
  build_allowed_origins, prod_origins, dev_origins_default, is_given, Named,
  build_allowed_origins_iff,
}

-- The port 23456 is in use.
abbrev machine : ℕ → Made
machine p = if ltb p 23457 then os_error (some 10048) [] else made

create_server_with_fallback-Outcome_example :
    Outcome machine 23456 (23456 + at_least_one 20) (create_server_with_fallback machine 23456 20)
create_server_with_fallback-Outcome_example = create_server_with_fallback-Outcome machine 23456 20

abbrev log_files : List LogFile
log_files =
    record { mtime = 3; number = 0 }
    ∷ record { mtime = 1; number = 1 }
    ∷ record { mtime = 2; number = 2 }
    ∷ []

abbrev further : Text
further = codes "http://a, http://b"

build_allowed_origins_iff_example :
    In (codes "http://b") (build_allowed_origins prod_origins dev_origins_default false further) ↔ (
      In (codes "http://b") prod_origins
      ⊎ (((false || is_given further) ≡ true) × In (codes "http://b") dev_origins_default)
      ⊎ ((is_given further ≡ true) × Named (codes "http://b") (split b',' further)))
build_allowed_origins_iff_example =
    build_allowed_origins_iff (codes "http://b") prod_origins dev_origins_default false further
