-- ===== src/Server/Stream/Laws.antt =====
-- Heartbeats keep their distance, and the frames that are sent can be read back.
use scmdb_log_watcher_es.Base.{
  ◌+◌, ◌≤◌, ◌≡◌, refl, ap, ◌∙◌, Option, none, some, List, [], ◌∷◌, ◌++◌, arith, All, ◌==◌, false,
  inl, inr, Option-cases, drop, if◌then◌else◌, append_assoc,
}
use scmdb_log_watcher_es.Text.{Text, codes, newline, split, starts_with}
use scmdb_log_watcher_es.Domain.State.{Instant}
use scmdb_log_watcher_es.Server.Stream.{
  heartbeat_interval, data_chunk, heartbeat_chunk, timeout_at, Round, round, rounds,
}

-- What `q.get(timeout=t)` promises: it raises `queue.Empty` only when the time is up.
abbrev pub Waits : Instant → Round → Type 0
Waits last_heartbeat r = r.got ≡ none → r.now + timeout_at r.now last_heartbeat ≤ r.later

abbrev pub AllWait : Instant → List Round → Type 0
AllWait last_heartbeat [] = Unit
AllWait last_heartbeat (r ∷ rs) = Waits last_heartbeat r × AllWait (round r last_heartbeat).1 rs

-- The instants of the heartbeats.
pub heartbeats : List Round → List Instant
heartbeats [] = []
heartbeats (r ∷ rs) = elim r.got [ some p ↦ heartbeats rs | none ↦ r.later ∷ heartbeats rs ]

-- Each instant is at least the interval after the one before.
abbrev pub Spaced : Instant → List Instant → Type 0
Spaced t [] = Unit
Spaced t (u ∷ us) = (t + heartbeat_interval ≤ u) × Spaced u us

-- Between two heartbeats, and before the first, at least 15 seconds pass, however often events
-- come in between.
pub heartbeats-Spaced :
    (rs : List Round) (begun : Instant) → AllWait begun rs → Spaced begun (heartbeats rs)
unfolding heartbeats round timeout_at
heartbeats-Spaced [] begun h = tt
heartbeats-Spaced (r ∷ rs) begun h = elim (Option-cases r.got) [
  | inr (p, e) ↦ rw (e, heartbeats) (heartbeats-Spaced rs begun (rw (e, round) at h.1))
  | inl e ↦
      rw (e, heartbeats) (omega (arith, h.0 e), heartbeats-Spaced rs r.later (rw (e, round) at h.1))
]

-- How a client reads the stream: the lines that begin with the field name are the events.
data_of : Text → Option Text
data_of line = if starts_with line (codes "data: ") then some (drop 6 line) else none

abbrev events_of : List Text → List Text
events_of [] = []
events_of (line ∷ lines) = elim (data_of line) [
  | some payload ↦ payload ∷ events_of lines
  | none ↦ events_of lines
]

pub client_events : Text → List Text
unfolding data_of
client_events sent = events_of (split newline sent)

-- The chunks one after the other.
abbrev pub joined : List Text → Text
joined [] = []
joined (chunk ∷ chunks) = chunk ++ joined chunks

abbrev pub payloads : List Round → List Text
payloads [] = []
payloads (r ∷ rs) = elim r.got [ some p ↦ p ∷ payloads rs | none ↦ payloads rs ]

abbrev pub OneLine : Text → Type 0
OneLine s = All (λ c. (c == newline) ≡ false) s

-- The texts that `json.dumps` makes hold no line break.
abbrev pub AllOneLine : List Round → Type 0
AllOneLine rs = All OneLine (payloads rs)

split-line :
    (line rest : Text)
    → OneLine line
    → split newline (line ++ newline ∷ rest) ≡ line ∷ split newline rest
unfolding split
split-line [] rest h = refl
split-line (c ∷ line) rest h = rw (h.0, split-line line rest h.1)

pub events-data_chunk :
    (payload rest : Text)
    → OneLine payload
    → client_events (data_chunk payload ++ rest) ≡ payload ∷ client_events rest
unfolding client_events data_chunk split starts_with
events-data_chunk payload rest h =
    ap (λ x. events_of (split newline (codes "data: " ++ x)))
      (append_assoc payload (codes "\n\n") rest)
    ∙ ap events_of (
        split-line (codes "data: " ++ payload) (newline ∷ rest)
          (refl, (refl, (refl, (refl, (refl, (refl, h)))))))

events-heartbeat_chunk :
    (rest : Text) → client_events (heartbeat_chunk ++ rest) ≡ client_events rest
unfolding client_events split starts_with
events-heartbeat_chunk rest = refl

client_events-nil : client_events [] ≡ []
unfolding client_events split starts_with
client_events-nil = refl

-- A client reads from the chunks exactly the events that were taken from its queue, in order;
-- heartbeats are no events.
pub client_events-rounds :
    (rs : List Round) (begun : Instant)
    → AllOneLine rs
    → client_events (joined (rounds rs begun)) ≡ payloads rs
unfolding rounds
client_events-rounds [] begun h = client_events-nil
client_events-rounds (r ∷ rs) begun h = elim (Option-cases r.got) [
  | inl e ↦
      rw (e, round, payloads)
        (events-heartbeat_chunk (joined (rounds rs r.later))
          ∙ client_events-rounds rs r.later (rw (e, payloads) at h))
  | inr (p, e) ↦
      let one : OneLine p × AllOneLine rs = rw (e, payloads) at h in
      rw (e, round, payloads)
        (events-data_chunk p (joined (rounds rs begun)) one.0
          ∙ ap (λ x. p ∷ x) (client_events-rounds rs begun one.1))
]
