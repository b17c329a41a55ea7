-- ===== src/Server/Bus/Delivery.antt =====
-- What a broadcast does to every queue.
use scmdb_log_watcher_es.Base.{
  ℕ, ◌≡◌, refl, ap, ==_iff, Bool, true, false, List, [], ◌∷◌, ◌++◌, length, leb, ◌==◌, arith,
  Bool-cases, inl, inr, if◌then◌else◌,
}
use scmdb_log_watcher_es.Text.{Text}
use scmdb_log_watcher_es.Server.Bus.{queue_maxsize, EventBus, put_nowait, deliver, broadcast}

abbrev pub member : ℕ → List ℕ → Bool
member q [] = false
member q (r ∷ qs) = if r == q then true else member q qs

-- No queue is listed twice.
abbrev pub Distinct : List ℕ → Type 0
Distinct [] = Unit
Distinct (q ∷ qs) = (member q qs ≡ false) × Distinct qs

-- What one more event makes of a queue: it is dropped if the queue is full.
unfoldable pub offered : Text → List Text → List Text
offered payload ps = if leb queue_maxsize (length ps) then ps else ps ++ payload ∷ []

pub queue-put_nowait :
    (payload : Text) (q r : ℕ) (b : EventBus)
    → (put_nowait payload q b).queue r ≡ (if q == r then offered payload (b.queue r) else b.queue r)
unfolding put_nowait offered
queue-put_nowait payload q r b = elim (Bool-cases (q == r)) [
  | inl y ↦ ground (arith, ap b.queue ((==_iff q r).0 y))
  | inr n ↦ ground arith
]

queue-deliver_other :
    (payload : Text) (r : ℕ) (qs : List ℕ) (b : EventBus)
    → member r qs ≡ false
    → (deliver payload qs b).queue r ≡ b.queue r
unfolding deliver
queue-deliver_other payload r [] b h = refl
queue-deliver_other payload r (q ∷ qs) b h = ground (
  arith,
  queue-deliver_other payload r qs (put_nowait payload q b),
  queue-put_nowait payload q r b,
)

pub queue-deliver :
    (payload : Text) (r : ℕ) (qs : List ℕ) (b : EventBus)
    → Distinct qs
    → (deliver payload qs b).queue r
      ≡ (if member r qs then offered payload (b.queue r) else b.queue r)
unfolding deliver
queue-deliver payload r [] b d = refl
queue-deliver payload r (q ∷ qs) b d = elim (Bool-cases (q == r)) [
  | inl y ↦ ground (
    arith,
    queue-deliver_other payload q qs (put_nowait payload q b) d.0,
    queue-put_nowait payload q q b,
    (==_iff q r).0 y,
    ap b.queue ((==_iff q r).0 y),
    ap ((deliver payload qs (put_nowait payload q b)).queue) ((==_iff q r).0 y),
  )
  | inr n ↦ ground (
    arith,
    queue-deliver payload r qs (put_nowait payload q b) d.1,
    queue-put_nowait payload q r b,
  )
]

-- A broadcast offers its event once to the queue of every subscriber, and leaves all other queues alone.
pub queue-broadcast :
    (payload : Text) (r : ℕ) (b : EventBus)
    → Distinct b.subs
    → (broadcast payload b).queue r
      ≡ (if member r b.subs then offered payload (b.queue r) else b.queue r)
unfolding broadcast
queue-broadcast payload r b d = queue-deliver payload r b.subs b d
