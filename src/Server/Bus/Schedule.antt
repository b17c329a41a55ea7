-- ===== src/Server/Bus/Schedule.antt =====
-- What holds however the threads run: what comes to a queue, in what order, and the bounds.
use mathlib.Core.List.{Sublistᴰ}
use scmdb_log_watcher_es.Base.{
  ℕ, ◌<◌, ◌≡◌, sym, ap, subst, ◌∙◌, Bool, true, false, some, List, [], ◌∷◌, ◌++◌, ◌==◌, ==_iff, All,
  arith, Bool-cases, inl, inr, append_assoc,
}
use scmdb_log_watcher_es.Text.{Text}
use scmdb_log_watcher_es.Server.Bus.{EventBus, update, unsubscribe, put_nowait, get}
use scmdb_log_watcher_es.Server.Bus.Delivery.{member, Distinct, queue-put_nowait}
use scmdb_log_watcher_es.Server.Bus.Valid.{
  IsValid, unsubscribe-IsValid, put_nowait-IsValid, next-put_nowait, get-IsValid, get-Taken,
}
use scmdb_log_watcher_es.Server.Bus.Threads.{
  Threads, start, Step, joins, leaves, begins, puts, takes, Reach, here, next, received, InOrder,
  IsSafe, Sublistᴰ-later, start-IsSafe, begin-InOrder, other, puts-InOrder, joins-IsSafe,
}

puts-IsSafe :
    (s : Threads) (q : ℕ) (qs : List ℕ)
    → s.pending ≡ q ∷ qs
    → IsSafe s
    → IsSafe (record s { bus = put_nowait s.current q s.bus; pending = qs })
puts-IsSafe s q qs e i =
    let once : Distinct (q ∷ qs) = subst Distinct e i.once in
    let made : All (λ r. r < s.bus.next) (q ∷ qs) =
      subst (λ x. All (λ r. r < s.bus.next) x) e i.made in
    record {
      valid = put_nowait-IsValid s.current q s.bus i.valid;
      once = once.1;
      made = rw next-put_nowait made.1;
      unused = λ r h.
          let u = i.unused r (omega (arith, next-put_nowait s.current q s.bus)) in
          (
            u.0,
            rw
                (
                  queue-put_nowait,
                  other q r (omega (arith, made.0, next-put_nowait s.current q s.bus)),
                )
                u.1,
          );
      order = λ r.
          let o : InOrder s.sent s.current (member r (q ∷ qs)) (received s r) =
            subst (λ x. InOrder s.sent s.current (member r x) (received s r)) e (i.order r) in
          rw queue-put_nowait
            (puts-InOrder s.sent s.current q r qs (s.taken r) (s.bus.queue r) once.0 o);
    }

-- Taking an event moves it from the queue to what was taken.
received-takes :
    (s : Threads) (q : ℕ) (payload : Text) (rest : List Text)
    → s.bus.queue q ≡ payload ∷ rest
    → (r : ℕ)
    → update s.taken q (s.taken q ++ payload ∷ []) r ++ update s.bus.queue q rest r ≡ received s r
unfolding update
received-takes s q payload rest e r = elim (Bool-cases (q == r)) [
  | inr n ↦ rw n
  | inl y ↦ rw y (
      append_assoc (s.taken q) (payload ∷ []) rest
      ∙ ap (λ x. s.taken q ++ x) (sym e)
      ∙ ap (received s) ((==_iff q r).0 y))
]

takes-unused :
    (s : Threads) (q : ℕ) (payload : Text) (rest : List Text)
    → s.bus.queue q ≡ payload ∷ rest
    → (r : ℕ) → (s.taken r ≡ []) × (s.bus.queue r ≡ [])
    → (update s.taken q (s.taken q ++ payload ∷ []) r ≡ []) × (update s.bus.queue q rest r ≡ [])
unfolding update
takes-unused s q payload rest e r u = elim (Bool-cases (q == r)) [
  | inr n ↦ rw n u
  | inl y ↦ absurd (ground (arith, ap s.bus.queue ((==_iff q r).0 y)))
]

takes-IsSafe :
    (s : Threads) (q : ℕ) (payload : Text) (bus : EventBus)
    → get q s.bus ≡ some (payload, bus)
    → IsSafe s
    → IsSafe (record s { bus = bus; taken = update s.taken q (s.taken q ++ payload ∷ []) })
takes-IsSafe s q payload bus e i =
    let t = get-Taken q s.bus payload bus e in
    subst (λ c. IsSafe (record s { bus = c; taken = update s.taken q (s.taken q ++ payload ∷ []) }))
      (sym t.is)
      (record {
        valid = subst IsValid t.is (get-IsValid q s.bus payload bus e i.valid);
        once = i.once;
        made = i.made;
        unused = λ r h. takes-unused s q payload t.rest t.was r (i.unused r h);
        order = λ r.
            subst (λ x. InOrder s.sent s.current (member r s.pending) x)
              (sym (received-takes s q payload t.rest t.was r)) (i.order r);
      })

Step-IsSafe : {s t : Threads} → Step s t → IsSafe s → IsSafe t
unfolding unsubscribe
Step-IsSafe (joins s) i = joins-IsSafe s i
Step-IsSafe (leaves s q) i = record {
  valid = unsubscribe-IsValid q s.bus i.valid;
  once = i.once;
  made = i.made;
  unused = i.unused;
  order = i.order;
}
Step-IsSafe (begins s payload e) i = record {
  valid = i.valid;
  once = i.valid.listed_once;
  made = i.valid.made;
  unused = i.unused;
  order = λ q.
      begin-InOrder (member q s.bus.subs) s.sent payload
        (subst (λ x. InOrder s.sent s.current (member q x) (received s q)) e (i.order q));
}
Step-IsSafe (puts s q qs e) i = puts-IsSafe s q qs e i
Step-IsSafe (takes s q payload bus e) i = takes-IsSafe s q payload bus e i

Reach-IsSafe : {s : Threads} → Reach start s → IsSafe s
Reach-IsSafe here = start-IsSafe
Reach-IsSafe (next r st) = Step-IsSafe st (Reach-IsSafe r)

InOrder-Sublistᴰ :
    (b : Bool) (sent : List Text) (current : Text) (got : List Text)
    → InOrder sent current b got
    → Sublistᴰ got sent
InOrder-Sublistᴰ true sent current got (before, e, s) =
    subst (λ x. Sublistᴰ got x) (sym e) (Sublistᴰ-later current s)
InOrder-Sublistᴰ false sent current got s = s

-- However the threads run, what has come to a client's queue is, in this order, a part of what was
-- broadcast: no event comes twice, early or out of order.
pub received-Sublist : {s : Threads} (q : ℕ) → Reach start s → Sublistᴰ (received s q) s.sent
received-Sublist {s} q r =
    InOrder-Sublistᴰ (member q s.pending) s.sent s.current (received s q) ((Reach-IsSafe r).order q)

-- However the threads run, no queue is over its bound, and the subscribers are listed once.
pub Reach-IsValid : {s : Threads} → Reach start s → IsValid s.bus
Reach-IsValid r = (Reach-IsSafe r).valid
