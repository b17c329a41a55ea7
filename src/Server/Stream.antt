-- ===== src/Server/Stream.antt =====
-- python/scmdb_watcher/server.py, `events` and its generator `stream`: the chunks that a client is
-- sent. Instants and durations count steps of 2^-22 s, as in `Domain.State`.
pub mod Laws
pub mod Timing
use scmdb_log_watcher_es.Base.{ℕ, ◌+◌, ◌-◌, ◌*◌, Option, none, some, List, [], ◌∷◌, ◌++◌}
use scmdb_log_watcher_es.Text.{Text, codes}
use scmdb_log_watcher_es.Domain.State.{Instant, second, WatcherState, snapshot_active}
use scmdb_log_watcher_es.Domain.Process.{Event, state_snapshot}
use scmdb_log_watcher_es.Server.Bus.{EventBus, subscribe, unsubscribe}

-- `SSE_HEARTBEAT_SEC`
abbrev pub heartbeat_interval : ℕ
heartbeat_interval = 15 * second

-- f"data: {payload}\n\n"
unfoldable pub data_chunk : Text → Text
data_chunk payload = codes "data: " ++ (payload ++ codes "\n\n")

abbrev pub heartbeat_chunk : Text
heartbeat_chunk = codes ": heartbeat\n\n"

-- `max(0.0, SSE_HEARTBEAT_SEC - (time.time() - last_heartbeat))`: subtraction stops at 0.
unfoldable pub timeout_at : Instant → Instant → ℕ
timeout_at now last_heartbeat = heartbeat_interval + last_heartbeat - now

-- One round of the loop: the clock when the timeout is computed, what `q.get` returns (`none` is
-- `queue.Empty`), and the clock after that.
pub record Round : Type 0 where
  pub now : Instant
  pub got : Option Text
  pub later : Instant

-- The chunk that is sent, and the next `last_heartbeat`.
unfoldable pub round : Round → Instant → Text × Instant
unfolding data_chunk
round r last_heartbeat = elim r.got [
  | some payload ↦ (data_chunk payload, last_heartbeat)
  | none ↦ (heartbeat_chunk, r.later)
]

unfoldable pub rounds : List Round → Instant → List Text
unfolding round
rounds [] last_heartbeat = []
rounds (r ∷ rs) last_heartbeat =
    let (chunk, beat) = round r last_heartbeat in chunk ∷ rounds rs beat

-- `stream`, until the client goes: `dumps` is `json.dumps` with the compact separators.
unfoldable pub stream : (Event → Text) → WatcherState → Instant → List Round → List Text
unfolding rounds
stream dumps s begun rs = data_chunk (dumps (state_snapshot (snapshot_active s))) ∷ rounds rs begun

-- `events`: the client is a subscriber before the snapshot is taken, and `finally` takes it off.
unfoldable pub open_stream : EventBus → EventBus × ℕ
open_stream b = subscribe b

unfoldable pub close_stream : ℕ → EventBus → EventBus
close_stream q b = unsubscribe q b
