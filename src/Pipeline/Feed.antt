-- ===== src/Pipeline/Feed.antt =====
-- python/scmdb_watcher/server.py and python/watcher.py at work together: the thread of the tailer
-- broadcasts its events one after the other, the thread of one client takes from its queue and sends,
-- and other clients come and go, in any order.
use scmdb_log_watcher_es.Base.{
  ℕ, ◌<◌, ◌≡◌, ◌≢◌, refl, sym, ap, ◌∙◌, true, false, Option, none, some, List, [], ◌∷◌, ◌++◌, map,
  length, ◌==◌, inl, inr, Option-cases, append_assoc,
}
use scmdb_log_watcher_es.Text.{Text}
use scmdb_log_watcher_es.Domain.State.{Instant}
use scmdb_log_watcher_es.Domain.Process.{Event}
use scmdb_log_watcher_es.Server.Bus.{
  queue_maxsize, EventBus, update, subscribe, unsubscribe, broadcast, get,
}
use scmdb_log_watcher_es.Server.Bus.Delivery.{member, queue-broadcast}
use scmdb_log_watcher_es.Server.Bus.Valid.{
  IsValid, subscribe-IsValid, unsubscribe-IsValid, get-IsValid, get-Taken,
}
use scmdb_log_watcher_es.Server.Bus.Listed.{
  subs-broadcast, broadcast-IsValid, offered-room, member-append, not_next, member-remove_other,
}
use scmdb_log_watcher_es.Server.Bus.Threads.{update_self}
use scmdb_log_watcher_es.Server.Stream.{Round}
use scmdb_log_watcher_es.Server.Stream.Laws.{payloads}

-- What one of the threads does next; a client's turn has the clock when it asks and after that.
pub data Move : Type 0 where
  sends : Move
  serves : Instant → Instant → Move
  joins : Move
  leaves : ℕ → Move

-- The bus, and the events that the tailer has still to broadcast.
pub record Link : Type 0 where
  pub bus : EventBus
  pub unsent : List Event

module _ (dumps : Event → Text) (q : ℕ) where
  -- `broadcast` of the next event.
  abbrev sent_next : EventBus → List Event → Link
  sent_next b [] = record { bus = b; unsent = [] }
  sent_next b (e ∷ es) = record { bus = broadcast (dumps e) b; unsent = es }

  -- What `q.get` gave, as a round of the client's stream.
  abbrev served : Instant → Instant → Link → Option (Text × EventBus) → Link × List Round
  served now later s none = (s, record { now = now; got = none; later = later } ∷ [])
  served now later s (some (payload, b)) =
      (record s { bus = b }, record { now = now; got = some payload; later = later } ∷ [])

  unfoldable pub move : Move → Link → Link × List Round
  move sends s = (sent_next s.bus s.unsent, [])
  move (serves now later) s = served now later s (get q s.bus)
  move joins s = (record s { bus = (subscribe s.bus).0 }, [])
  move (leaves r) s = (record s { bus = unsubscribe r s.bus }, [])

  unfoldable pub play : List Move → Link → Link × List Round
  unfolding move
  play [] s = (s, [])
  play (m ∷ ms) s = let (s', rs) = move m s in let (s'', more) = play ms s' in (s'', rs ++ more)

  -- The client does not leave, and its queue is not full when an event is broadcast.
  abbrev Serves : Move → Link → Type 0
  Serves sends s = length (s.bus.queue q) < queue_maxsize
  Serves (serves now later) s = Unit
  Serves joins s = Unit
  Serves (leaves r) s = r ≢ q

  abbrev pub ServesAll : List Move → Link → Type 0
  ServesAll [] s = Unit
  ServesAll (m ∷ ms) s = Serves m s × ServesAll ms (move m s).0

  -- The queue of the client and what is still to come to it.
  abbrev pub ahead : Link → List Text
  ahead s = s.bus.queue q ++ map dumps s.unsent

  pub record Listens (s : Link) : Type 0 where
    pub valid : IsValid s.bus
    pub listed : member q s.bus.subs ≡ true

  record Passes (s : Link) (r : Link × List Round) : Type 0 where
    listens : Listens r.0
    passed : payloads r.1 ++ ahead r.0 ≡ ahead s

  sends-Passes :
      (b : EventBus) (es : List Event)
      → length (b.queue q) < queue_maxsize
      → Listens (record { bus = b; unsent = es })
      → Passes (record { bus = b; unsent = es }) (sent_next b es, [])
  sends-Passes b [] room l = record { listens = l; passed = refl }
  sends-Passes b (e ∷ es) room l = record {
    listens = record {
      valid = broadcast-IsValid (dumps e) b l.valid;
      listed = ap (member q) (subs-broadcast (dumps e) b) ∙ l.listed;
    };
    passed =
        ap (λ x. x ++ map dumps es) (queue-broadcast (dumps e) q b l.valid.listed_once)
        ∙ rw l.listed (ap (λ x. x ++ map dumps es) (offered-room (dumps e) (b.queue q) room))
        ∙ append_assoc (b.queue q) (dumps e ∷ []) (map dumps es);
  }

  joins-Passes : (s : Link) → Listens s → Passes s (record s { bus = (subscribe s.bus).0 }, [])
  unfolding subscribe update
  joins-Passes s l = record {
    listens = record {
      valid = subscribe-IsValid s.bus l.valid;
      listed = member-append q s.bus.subs (s.bus.next ∷ []) l.listed;
    };
    passed =
        let new : (s.bus.next == q) ≡ false =
          not_next q s.bus.next s.bus.subs l.valid.made l.listed in
        rw new refl;
  }

  leaves-Passes :
      (r : ℕ) (s : Link) → r ≢ q → Listens s → Passes s (record s { bus = unsubscribe r s.bus }, [])
  unfolding unsubscribe
  leaves-Passes r s d l = record {
    listens = record {
      valid = unsubscribe-IsValid r s.bus l.valid;
      listed = member-remove_other q r s.bus.subs d l.listed;
    };
    passed = refl;
  }

  serves-Passes :
      (now later : Instant) (s : Link) (o : Option (Text × EventBus))
      → get q s.bus ≡ o
      → Listens s
      → Passes s (served now later s o)
  serves-Passes now later s none e l = record { listens = l; passed = refl }
  serves-Passes now later s (some (payload, b)) e l =
      let t = get-Taken q s.bus payload b e in
      record {
        listens = record {
          valid = get-IsValid q s.bus payload b e l.valid;
          listed = ap (λ (c : EventBus). member q c.subs) t.is ∙ l.listed;
        };
        passed =
            ap (λ x. payload ∷ (x ++ map dumps s.unsent))
              (ap (λ (c : EventBus). c.queue q) t.is ∙ update_self s.bus.queue q t.rest)
            ∙ ap (λ x. x ++ map dumps s.unsent) (sym t.was);
      }

  move-Passes : (m : Move) (s : Link) → Serves m s → Listens s → Passes s (move m s)
  unfolding move
  move-Passes sends s h l = sends-Passes s.bus s.unsent h l
  move-Passes (serves now later) s h l = serves-Passes now later s (get q s.bus) refl l
  move-Passes joins s h l = joins-Passes s l
  move-Passes (leaves r) s h l = leaves-Passes r s h l

  payloads-append : (xs ys : List Round) → payloads (xs ++ ys) ≡ payloads xs ++ payloads ys
  payloads-append [] ys = refl
  payloads-append (r ∷ xs) ys = elim (Option-cases r.got) [
    | inl e ↦ rw (e, payloads) (payloads-append xs ys)
    | inr (p, e) ↦ rw (e, payloads) (ap (λ x. p ∷ x) (payloads-append xs ys))
  ]

  -- Nothing is lost, doubled or reordered on the way from the tailer to the client: what the client
  -- has been sent, what stands in its queue and what is still to be broadcast make up the whole.
  pub play-ahead :
      (ms : List Move) (s : Link)
      → ServesAll ms s
      → Listens s
      → payloads (play ms s).1 ++ ahead (play ms s).0 ≡ ahead s
  unfolding play
  play-ahead [] s h l = refl
  play-ahead (m ∷ ms) s h l =
      let r = move m s in
      let p = move-Passes m s h.0 l in
      let rest = play ms r.0 in
      ap (λ x. x ++ ahead rest.0) (payloads-append r.1 rest.1)
      ∙ append_assoc (payloads r.1) (payloads rest.1) (ahead rest.0)
      ∙ ap (λ x. payloads r.1 ++ x) (play-ahead ms r.0 h.1 p.listens)
      ∙ p.passed
