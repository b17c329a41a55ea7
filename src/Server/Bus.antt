-- ===== src/Server/Bus.antt =====
-- python/scmdb_watcher/server.py, `EventBus`. A queue is an object that the bus, the thread that
-- broadcasts and the thread that serves the client share, so queues stand in a store under numbers.
-- What is put into a queue is the text of the event, which `json.dumps` makes of it.
pub mod Delivery
pub mod Valid
pub mod Listed
pub mod Threads
pub mod Schedule
use scmdb_log_watcher_es.Base.{
  ℕ, ◌+◌, Bool, Option, none, some, List, [], ◌∷◌, ◌++◌, length, leb, ◌==◌, if◌then◌else◌,
}
use scmdb_log_watcher_es.Text.{Text}

-- `SUBSCRIBER_QUEUE_MAXSIZE`
abbrev pub queue_maxsize : ℕ
queue_maxsize = 200

pub record EventBus : Type 0 where
  -- The number of the next queue that is made.
  pub next : ℕ
  -- `_subs`
  pub subs : List ℕ
  pub queue : ℕ → List Text

abbrev pub empty_bus : EventBus
empty_bus = record { next = 0; subs = []; queue = λ q. [] }

unfoldable pub update : (ℕ → List Text) → ℕ → List Text → ℕ → List Text
update f q v r = if q == r then v else f r

unfoldable pub subscribe : EventBus → EventBus × ℕ
unfolding update
subscribe b = (
  record { next = b.next + 1; subs = b.subs ++ b.next ∷ []; queue = update b.queue b.next [] },
  b.next,
)

-- `_subs.remove(q)`, with the `ValueError` passed over.
unfoldable pub remove : ℕ → List ℕ → List ℕ
remove q [] = []
remove q (r ∷ qs) = if r == q then qs else r ∷ remove q qs

unfoldable pub unsubscribe : ℕ → EventBus → EventBus
unfolding remove
unsubscribe q b = record b { subs = remove q b.subs }

-- `q.put_nowait(payload)`; `queue.Full` drops the event for this queue.
unfoldable pub put_nowait : Text → ℕ → EventBus → EventBus
unfolding update
put_nowait payload q b =
    if leb queue_maxsize (length (b.queue q))
    then b
    else record b { queue = update b.queue q (b.queue q ++ payload ∷ []) }

-- The loop over the copy of the subscribers.
unfoldable pub deliver : Text → List ℕ → EventBus → EventBus
unfolding put_nowait
deliver payload [] b = b
deliver payload (q ∷ qs) b = deliver payload qs (put_nowait payload q b)

unfoldable pub broadcast : Text → EventBus → EventBus
unfolding deliver
broadcast payload b = deliver payload b.subs b

-- `q.get(timeout=...)` once it returns; `none` is `queue.Empty`.
unfoldable pub get : ℕ → EventBus → Option (Text × EventBus)
unfolding update
get q b = elim (b.queue q) [
  | [] ↦ none
  | p ∷ ps ↦ some (p, record b { queue = update b.queue q ps })
]
