-- ===== src/Server/Stream/Timing.antt =====
-- When the chunks of the stream come: neither too often nor too seldom.
use scmdb_log_watcher_es.Base.{ℕ, ◌+◌, ◌*◌, ◌≤◌, List, [], ◌∷◌, arith, Option-cases, inl, inr}
use scmdb_log_watcher_es.Domain.State.{Instant}
use scmdb_log_watcher_es.Server.Stream.{heartbeat_interval, timeout_at, Round, round}
use scmdb_log_watcher_es.Server.Stream.Laws.{AllWait, heartbeats, Spaced, heartbeats-Spaced}

-- The loop comes round within `d`, `q.get` returns within `d` of its timeout, and the clock is not
-- set back.
abbrev pub Prompt : ℕ → Instant → Instant → Round → Type 0
Prompt d sent last_heartbeat r =
    (sent ≤ r.now)
    × (r.now ≤ sent + d)
    × (r.now ≤ r.later)
    × (r.later ≤ r.now + timeout_at r.now last_heartbeat + d)

-- `sent` is the instant of the chunk before.
abbrev pub AllPrompt : ℕ → Instant → Instant → List Round → Type 0
AllPrompt d sent last_heartbeat [] = Unit
AllPrompt d sent last_heartbeat (r ∷ rs) =
    Prompt d sent last_heartbeat r × AllPrompt d r.later (round r last_heartbeat).1 rs

-- No chunk comes later than the gap after the one before.
abbrev pub Dense : ℕ → Instant → List Round → Type 0
Dense gap sent [] = Unit
Dense gap sent (r ∷ rs) = (r.later ≤ sent + gap) × Dense gap r.later rs

next_beat :
    (r : Round) (last_heartbeat : Instant)
    → last_heartbeat ≤ r.later
    → (round r last_heartbeat).1 ≤ r.later
unfolding round
next_beat r last_heartbeat h = elim (Option-cases r.got) [
  | inl e ↦ rw e (omega arith)
  | inr (p, e) ↦ rw e h
]

dense :
    (d : ℕ) (rs : List Round) (sent last_heartbeat : Instant)
    → last_heartbeat ≤ sent
    → AllPrompt d sent last_heartbeat rs
    → Dense (heartbeat_interval + 2 * d) sent rs
unfolding timeout_at
dense d [] sent last_heartbeat l h = tt
dense d (r ∷ rs) sent last_heartbeat l ((a, b, c, e), h) = (
  omega (arith, l, a, b, e),
  dense d rs r.later (round r last_heartbeat).1
      (next_beat r last_heartbeat (omega (arith, l, a, c))) h,
)

-- A client hears something at the latest 15 seconds after what it heard before, and twice the delay
-- of the server, and between two heartbeats at least 15 seconds pass, however often events come in
-- between. `q.get` is late by at most the delay and never early, and the clock is not set back.
pub rounds-Dense :
    (d : ℕ) (rs : List Round) (begun : Instant)
    → AllWait begun rs
    → AllPrompt d begun begun rs
    → Dense (heartbeat_interval + 2 * d) begun rs × Spaced begun (heartbeats rs)
rounds-Dense d rs begun w h = (dense d rs begun begun (omega arith) h, heartbeats-Spaced rs begun w)
