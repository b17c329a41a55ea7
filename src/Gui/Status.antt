-- ===== src/Gui/Status.antt =====
-- python/scmdb_watcher/gui_status.py, and `build_status_text` of python/scmdb_watcher/gui_view.py.
use scmdb_log_watcher_es.Base.{Bool, true, false, ◌&&◌, [], ◌∷◌, if◌then◌else◌}
use scmdb_log_watcher_es.Text.{Text, codes, text_eq}

pub record PollDecision : Type 0 where
  pub status_key : Text
  pub color : Text
  pub running : Bool
  pub should_start : Bool

abbrev pub green : Text
green = codes "#2e7d32"

abbrev pub orange : Text
orange = codes "#ef6c00"

abbrev pub red : Text
red = codes "#c62828"

abbrev pub decision : Text → Text → Bool → Bool → PollDecision
decision status_key color running should_start = record {
  status_key = status_key;
  color = color;
  running = running;
  should_start = should_start;
}

unfoldable pub decide_poll_status : Bool → Bool → Bool → Bool → PollDecision
decide_poll_status running ping_ok auto_start game_running =
    if running && ping_ok
    then decision (codes "status_ok") green true false
    else if running
    then decision (codes "status_wait_conn") orange true false
    else if auto_start && game_running
    then decision (codes "status_wait_sc") orange false true
    else if auto_start
    then decision (codes "status_wait_sc") orange false false
    else decision (codes "status_stopped") red false false

-- A text of the catalog with its arguments; the catalog turns it into the user's language.
pub record Shown : Type 0 where
  pub key : Text
  pub argument : Text

abbrev pub plain : Text → Shown
plain key = record { key = key; argument = [] }

unfoldable pub build_status_text : Text → Text → Shown
build_status_text status_key version =
    if text_eq status_key (codes "status_ok")
    then elim version [
      | [] ↦ plain (codes "status_ok_no_version")
      | c ∷ s ↦ record { key = codes "status_ok"; argument = c ∷ s }
    ]
    else plain status_key
