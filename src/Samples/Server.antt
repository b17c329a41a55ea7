-- ===== src/Samples/Server.antt =====
-- The event bus, the stream and the CORS hook at concrete inputs.
use mathlib.Core.List.{Sublistᴰ}
use scmdb_log_watcher_es.Base.{
  ◌+◌, ◌*◌, ◌≡◌, ◌≢◌, refl, false, none, some, List, [], ◌∷◌, arith, if◌then◌else◌,
}
use scmdb_log_watcher_es.Text.{Text, codes, contains}
use scmdb_log_watcher_es.Dict
use scmdb_log_watcher_es.Domain.State.{second}
use scmdb_log_watcher_es.Server.Bus.{EventBus, empty_bus, subscribe, unsubscribe, put_nowait}
use scmdb_log_watcher_es.Server.Bus.Delivery.{member}
use scmdb_log_watcher_es.Server.Bus.Valid.{
  IsValid, member-unsubscribe, subscribe-IsValid, empty_bus-IsValid,
}
use scmdb_log_watcher_es.Server.Bus.Threads.{
  Threads, start, joins, begins, puts, Reach, here, next, received,
}
use scmdb_log_watcher_es.Server.Bus.Schedule.{received-Sublist, Reach-IsValid}
use scmdb_log_watcher_es.Server.App.{allow_origin, add_cors, allow_origin-add_cors}
use scmdb_log_watcher_es.Server.Stream.{Round, round, timeout_at, rounds, heartbeat_interval}
use scmdb_log_watcher_es.Server.Stream.Timing.{AllPrompt, Dense, rounds-Dense}
use scmdb_log_watcher_es.Server.Stream.Laws.{
  AllWait, heartbeats, Spaced, client_events, joined, payloads, client_events-rounds,
}

abbrev two_clients : EventBus
two_clients = record { next = 2; subs = 0 ∷ 1 ∷ []; queue = λ q. [] }

member-unsubscribe_example : member 0 (unsubscribe 0 (subscribe empty_bus).0).subs ≡ false
member-unsubscribe_example =
    member-unsubscribe 0 (subscribe empty_bus).0 (subscribe-IsValid empty_bus empty_bus-IsValid)

-- One client joins, one event is broadcast, and the client takes it.
abbrev joined_threads : Threads
joined_threads = record start { bus = (subscribe start.bus).0 }

abbrev begun_threads : Threads
begun_threads = record joined_threads {
  current = codes "e";
  pending = joined_threads.bus.subs;
  sent = codes "e" ∷ [];
}

abbrev served_threads : Threads
served_threads = record begun_threads {
  bus = put_nowait (codes "e") 0 begun_threads.bus;
  pending = [];
}

served : Reach start served_threads
unfolding subscribe
served =
    next (next (next here (joins start)) (begins joined_threads (codes "e") refl))
      (puts begun_threads 0 [] refl)

received-Sublist_example : Sublistᴰ (received served_threads 0) served_threads.sent
received-Sublist_example = received-Sublist 0 served

Reach-IsValid_example : IsValid served_threads.bus
Reach-IsValid_example = Reach-IsValid served

abbrev origin : Text
origin = codes "https://scmdb.net"

origin-filled : origin ≢ []
origin-filled h = ground (arith, h)

allow_origin-add_cors_example :
    Dict.lookup allow_origin (add_cors (origin ∷ []) (some origin) [])
    ≡ (if contains (origin ∷ []) origin then some origin else Dict.lookup allow_origin [])
allow_origin-add_cors_example = allow_origin-add_cors (origin ∷ []) origin [] origin-filled

-- An event after a second, a heartbeat after fifteen, and another event.
abbrev three_rounds : List Round
three_rounds =
    record { now = 0; got = some (codes "a"); later = 1 * second }
    ∷ record { now = 1 * second; got = none; later = 15 * second }
    ∷ record { now = 15 * second; got = some (codes "b"); later = 16 * second }
    ∷ []

three_rounds-AllWait : AllWait 0 three_rounds
unfolding round timeout_at
three_rounds-AllWait = (λ h. ground (arith, h), (λ h. omega arith, (λ h. ground (arith, h), tt)))

three_rounds-AllPrompt : AllPrompt second 0 0 three_rounds
unfolding round timeout_at
three_rounds-AllPrompt = (omega arith, (omega arith, (omega arith, tt)))

rounds-Dense_example :
    Dense (heartbeat_interval + 2 * second) 0 three_rounds × Spaced 0 (heartbeats three_rounds)
rounds-Dense_example =
    rounds-Dense second three_rounds 0 three_rounds-AllWait three_rounds-AllPrompt

client_events-rounds_example :
    client_events (joined (rounds three_rounds 0)) ≡ payloads three_rounds
client_events-rounds_example = client_events-rounds three_rounds 0 ((refl, tt), ((refl, tt), tt))
