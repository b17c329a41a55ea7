-- ===== src/Server/Bus/Threads.antt =====
-- The threads around the bus: one broadcasts, the others subscribe, take events and leave. The lock
-- covers the list of subscribers and not the puts, so between any two puts of a broadcast the other
-- threads may run. Each step below is what one thread does at once.
use mathlib.Core.List.{Sublistᴰ}
use scmdb_log_watcher_es.Base.{
  ℕ, ◌+◌, ◌≤◌, ◌<◌, ◌≡◌, refl, sym, subst, Bool, true, false, some, List, [], ◌∷◌, ◌++◌, ◌==◌,
  ==_iff, All, leb, arith, Bool-cases, inl, inr, if◌then◌else◌, append_assoc, length,
}
use native.Mathlib.Nat.{le_refl}
use scmdb_log_watcher_es.Text.{Text}
use scmdb_log_watcher_es.Server.Bus.{
  queue_maxsize, EventBus, empty_bus, update, subscribe, unsubscribe, put_nowait, get,
}
use scmdb_log_watcher_es.Server.Bus.Delivery.{member, Distinct, offered}
use scmdb_log_watcher_es.Server.Bus.Valid.{
  IsValid, empty_bus-IsValid, below_not_member, subscribe-IsValid,
}

pub record Threads : Type 0 where
  pub bus : EventBus
  -- The event that is being broadcast, and the queues of its copy of the subscribers still to serve.
  pub current : Text
  pub pending : List ℕ
  -- All events broadcast so far, and what each client has taken.
  pub sent : List Text
  pub taken : ℕ → List Text

abbrev pub start : Threads
start = record { bus = empty_bus; current = []; pending = []; sent = []; taken = λ q. [] }

pub data Step : Threads → Threads → Type 0 where
  joins : (s : Threads) → Step s (record s { bus = (subscribe s.bus).0 })
  leaves : (s : Threads) (q : ℕ) → Step s (record s { bus = unsubscribe q s.bus })
  begins :
      (s : Threads) (payload : Text)
      → s.pending ≡ []
      → Step s (record s { current = payload; pending = s.bus.subs; sent = s.sent ++ payload ∷ [] })
  puts :
      (s : Threads) (q : ℕ) (qs : List ℕ)
      → s.pending ≡ q ∷ qs
      → Step s (record s { bus = put_nowait s.current q s.bus; pending = qs })
  takes :
      (s : Threads) (q : ℕ) (payload : Text) (bus : EventBus)
      → get q s.bus ≡ some (payload, bus)
      → Step s (record s { bus = bus; taken = update s.taken q (s.taken q ++ payload ∷ []) })

pub data Reach (s : Threads) : Threads → Type 0 where
  here : Reach s s
  next : {t u : Threads} → Reach s t → Step t u → Reach s u

-- What has come to a queue, taken or not.
abbrev pub received : Threads → ℕ → List Text
received s q = s.taken q ++ s.bus.queue q

-- A queue that the broadcast still has to serve has only earlier events.
abbrev pub InOrder : List Text → Text → Bool → List Text → Type 0
InOrder sent current true got =
    (before : List Text) × (sent ≡ before ++ current ∷ []) × Sublistᴰ got before
InOrder sent current false got = Sublistᴰ got sent

pub record IsSafe (s : Threads) : Type 0 where
  pub valid : IsValid s.bus
  pub once : Distinct s.pending
  pub made : All (λ q. q < s.bus.next) s.pending
  pub unused : (q : ℕ) → s.bus.next ≤ q → (s.taken q ≡ []) × (s.bus.queue q ≡ [])
  pub order : (q : ℕ) → InOrder s.sent s.current (member q s.pending) (received s q)

module _ {A : Type 0} where
  pub nil-Sublistᴰ : (ys : List A) → Sublistᴰ [] ys
  nil-Sublistᴰ [] = Sublistᴰ.slnil
  nil-Sublistᴰ (y ∷ ys) = Sublistᴰ.cons (nil-Sublistᴰ ys)

  pub Sublistᴰ-later : {xs ys : List A} (y : A) → Sublistᴰ xs ys → Sublistᴰ xs (ys ++ y ∷ [])
  Sublistᴰ-later y Sublistᴰ.slnil = nil-Sublistᴰ (y ∷ [])
  Sublistᴰ-later y (Sublistᴰ.cons s) = Sublistᴰ.cons (Sublistᴰ-later y s)
  Sublistᴰ-later y (Sublistᴰ.cons-cons e s) = Sublistᴰ.cons-cons e (Sublistᴰ-later y s)

  pub Sublistᴰ-both :
      {xs ys : List A} (y : A) → Sublistᴰ xs ys → Sublistᴰ (xs ++ y ∷ []) (ys ++ y ∷ [])
  Sublistᴰ-both y Sublistᴰ.slnil = Sublistᴰ.cons-cons refl Sublistᴰ.slnil
  Sublistᴰ-both y (Sublistᴰ.cons s) = Sublistᴰ.cons (Sublistᴰ-both y s)
  Sublistᴰ-both y (Sublistᴰ.cons-cons e s) = Sublistᴰ.cons-cons e (Sublistᴰ-both y s)

pub start-IsSafe : IsSafe start
start-IsSafe = record {
  valid = empty_bus-IsValid;
  once = tt;
  made = tt;
  unused = λ q h. (refl, refl);
  order = λ q. Sublistᴰ.slnil;
}

pub begin-InOrder :
    (b : Bool) (sent : List Text) (payload : Text) {got : List Text}
    → Sublistᴰ got sent
    → InOrder (sent ++ payload ∷ []) payload b got
begin-InOrder true sent payload s = (sent, refl, s)
begin-InOrder false sent payload s = Sublistᴰ-later payload s

pub put-InOrder :
    (sent : List Text) (payload : Text) (taken queue : List Text)
    → InOrder sent payload true (taken ++ queue)
    → Sublistᴰ (taken ++ offered payload queue) sent
unfolding offered
put-InOrder sent payload taken queue (before, e, s) =
    subst (λ x. Sublistᴰ (taken ++ offered payload queue) x) (sym e)
      (elim (Bool-cases (leb queue_maxsize (length queue))) [
        | inl full ↦ rw full (Sublistᴰ-later payload s)
        | inr room ↦ rw room (
            subst (λ x. Sublistᴰ x (before ++ payload ∷ []))
              (append_assoc taken queue (payload ∷ [])) (Sublistᴰ-both payload s))
      ])

pub weaken : (n : ℕ) (qs : List ℕ) → All (λ q. q < n) qs → All (λ q. q < n + 1) qs
weaken n [] h = tt
weaken n (q ∷ qs) h = (omega (arith, h.0), weaken n qs h.1)

pub update_self : (f : ℕ → List Text) (q : ℕ) (v : List Text) → update f q v q ≡ v
unfolding update
update_self f q v = ground arith

pub other : (q r : ℕ) → q < r → (q == r) ≡ false
other q r h = ground arith

pub puts-InOrder :
    (sent : List Text) (payload : Text) (q r : ℕ) (qs : List ℕ) (taken queue : List Text)
    → member q qs ≡ false
    → InOrder sent payload (member r (q ∷ qs)) (taken ++ queue)
    → InOrder sent payload
        (member r qs)
        (taken ++ (if q == r then offered payload queue else queue))
puts-InOrder sent payload q r qs taken queue once o = elim (Bool-cases (q == r)) [
  | inr n ↦ rw n (rw n at o)
  | inl y ↦
      let gone : member r qs ≡ false = subst (λ x. member x qs ≡ false) ((==_iff q r).0 y) once in
      rw (gone, y) (put-InOrder sent payload taken queue (rw y at o))
]

pub joins-IsSafe : (s : Threads) → IsSafe s → IsSafe (record s { bus = (subscribe s.bus).0 })
unfolding subscribe
joins-IsSafe s i = record {
  valid = subscribe-IsValid s.bus i.valid;
  once = i.once;
  made = weaken s.bus.next s.pending i.made;
  unused = λ q h. let u = i.unused q (omega arith) in (u.0, ground (arith, u.1));
  order = λ q. elim (Bool-cases (s.bus.next == q)) [
    | inr n ↦ rw n (i.order q)
    | inl y ↦
        let here : s.bus.next ≡ q = (==_iff s.bus.next q).0 y in
        let free : member s.bus.next s.pending ≡ false =
          below_not_member s.bus.next s.pending i.made in
        subst
          (λ r.
            InOrder s.sent s.current (member r s.pending)
              (s.taken r ++ update s.bus.queue s.bus.next [] r))
          here
          (rw (free, (i.unused s.bus.next (le_refl s.bus.next)).0, update_self)
            (nil-Sublistᴰ s.sent))
  ];
}
