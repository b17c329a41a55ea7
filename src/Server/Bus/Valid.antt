-- ===== src/Server/Bus/Valid.antt =====
-- What holds of the bus at all times: no queue is over its bound, and every subscriber is a queue
-- that was made, listed once.
use scmdb_log_watcher_es.Base.{
  ℕ, ◌+◌, ◌≤◌, ◌<◌, ◌≡◌, ◌≢◌, refl, sym, subst, ap, false, some, List, [], ◌∷◌, ◌++◌, length, ◌==◌,
  ==_iff, All, All-append, arith, Bool-cases, inl, inr, length-append,
}
use scmdb_log_watcher_es.Text.{Text}
use scmdb_log_watcher_es.Server.Bus.{
  queue_maxsize, EventBus, empty_bus, update, subscribe, remove, unsubscribe, put_nowait, deliver,
  get,
}
use scmdb_log_watcher_es.Server.Bus.Delivery.{member, Distinct, offered, queue-put_nowait}

pub record IsValid (b : EventBus) : Type 0 where
  pub listed_once : Distinct b.subs
  pub made : All (λ q. q < b.next) b.subs
  pub bounded : (q : ℕ) → length (b.queue q) ≤ queue_maxsize

pub empty_bus-IsValid : IsValid empty_bus
empty_bus-IsValid = record { listed_once = tt; made = tt; bounded = λ q. omega arith }

pub below_not_member : (n : ℕ) (qs : List ℕ) → All (λ q. q < n) qs → member n qs ≡ false
below_not_member n [] h = refl
below_not_member n (q ∷ qs) h = ground (arith, below_not_member n qs h.1)

All-weaken : (n : ℕ) (qs : List ℕ) → All (λ q. q < n) qs → All (λ q. q < n + 1) qs
All-weaken n [] h = tt
All-weaken n (q ∷ qs) h = (omega (arith, h.0), All-weaken n qs h.1)

member_snoc :
    (r n : ℕ) (qs : List ℕ) → r ≢ n → member r qs ≡ false → member r (qs ++ n ∷ []) ≡ false
member_snoc r n [] d h = ground arith
member_snoc r n (q ∷ qs) d h = ground (arith, member_snoc r n qs d)

snoc-Distinct : (n : ℕ) (qs : List ℕ) → Distinct qs → All (λ q. q < n) qs → Distinct (qs ++ n ∷ [])
snoc-Distinct n [] d h = (refl, tt)
snoc-Distinct n (q ∷ qs) d h =
    (member_snoc q n qs (omega (arith, h.0)) d.0, snoc-Distinct n qs d.1 h.1)

pub subscribe-IsValid : (b : EventBus) → IsValid b → IsValid (subscribe b).0
unfolding subscribe
subscribe-IsValid b v = record {
  listed_once = snoc-Distinct b.next b.subs v.listed_once v.made;
  made =
      All-append (λ q. q < b.next + 1) b.subs (b.next ∷ []) (All-weaken b.next b.subs v.made)
        (omega arith, tt);
  bounded = λ q. ground (arith, v.bounded q);
}

member-remove : (r q : ℕ) (qs : List ℕ) → member r qs ≡ false → member r (remove q qs) ≡ false
unfolding remove
member-remove r q [] h = refl
member-remove r q (s ∷ qs) h = ground (arith, member-remove r q qs)

remove-Distinct : (q : ℕ) (qs : List ℕ) → Distinct qs → Distinct (remove q qs)
unfolding remove
remove-Distinct q [] d = d
remove-Distinct q (s ∷ qs) d = ground (arith, remove-Distinct q qs d.1, member-remove s q qs d.0)

remove-All : (q n : ℕ) (qs : List ℕ) → All (λ r. r < n) qs → All (λ r. r < n) (remove q qs)
unfolding remove
remove-All q n [] h = h
remove-All q n (s ∷ qs) h = ground (arith, remove-All q n qs h.1)

pub unsubscribe-IsValid : (q : ℕ) (b : EventBus) → IsValid b → IsValid (unsubscribe q b)
unfolding unsubscribe
unsubscribe-IsValid q b v = record {
  listed_once = remove-Distinct q b.subs v.listed_once;
  made = remove-All q b.next b.subs v.made;
  bounded = v.bounded;
}

removed : (q : ℕ) (qs : List ℕ) → Distinct qs → member q (remove q qs) ≡ false
unfolding remove
removed q [] d = refl
removed q (s ∷ qs) d = elim (Bool-cases (s == q)) [
  | inl y ↦ ground (arith, ap (λ r. member r qs) ((==_iff s q).0 y))
  | inr n ↦ ground (arith, removed q qs d.1)
]

-- Who has left is no subscriber any more.
pub member-unsubscribe :
    (q : ℕ) (b : EventBus) → IsValid b → member q (unsubscribe q b).subs ≡ false
unfolding unsubscribe
member-unsubscribe q b v = removed q b.subs v.listed_once

pub subs-put_nowait :
    (payload : Text) (q : ℕ) (b : EventBus) → (put_nowait payload q b).subs ≡ b.subs
unfolding put_nowait
subs-put_nowait payload q b = ground arith

pub next-put_nowait :
    (payload : Text) (q : ℕ) (b : EventBus) → (put_nowait payload q b).next ≡ b.next
unfolding put_nowait
next-put_nowait payload q b = ground arith

pub length-offered :
    (payload : Text) (ps : List Text)
    → length ps ≤ queue_maxsize
    → length (offered payload ps) ≤ queue_maxsize
unfolding offered
length-offered payload ps h = ground (arith, length-append {0} ps (payload ∷ []))

pub put_nowait-IsValid :
    (payload : Text) (q : ℕ) (b : EventBus) → IsValid b → IsValid (put_nowait payload q b)
put_nowait-IsValid payload q b v = record {
  listed_once = subst Distinct (sym (subs-put_nowait payload q b)) v.listed_once;
  made = rw (subs-put_nowait, next-put_nowait) v.made;
  bounded = λ r. rw queue-put_nowait (elim (Bool-cases (q == r)) [
    | inl y ↦ rw y (length-offered payload (b.queue r) (v.bounded r))
    | inr n ↦ rw n (v.bounded r)
  ]);
}

pub deliver-IsValid :
    (payload : Text) (qs : List ℕ) (b : EventBus) → IsValid b → IsValid (deliver payload qs b)
unfolding deliver
deliver-IsValid payload [] b v = v
deliver-IsValid payload (q ∷ qs) b v =
    deliver-IsValid payload qs (put_nowait payload q b) (put_nowait-IsValid payload q b v)

-- `get` takes the head of a queue, and nothing else.
pub record Taken (q : ℕ) (b : EventBus) (payload : Text) (c : EventBus) : Type 0 where
  pub rest : List Text
  pub was : b.queue q ≡ payload ∷ rest
  pub is : c ≡ record b { queue = update b.queue q rest }

Taken-from :
    (q : ℕ) (b : EventBus) (payload : Text) (c : EventBus) (ps : List Text)
    → b.queue q ≡ ps
    → get q b ≡ some (payload, c)
    → Taken q b payload c
unfolding get
Taken-from q b payload c [] e h = absurd (ground arith)
Taken-from q b payload c (p ∷ ps) e h = record { rest = ps; was = ground arith; is = ground arith }

pub get-Taken :
    (q : ℕ) (b : EventBus) (payload : Text) (c : EventBus)
    → get q b ≡ some (payload, c)
    → Taken q b payload c
get-Taken q b payload c h = Taken-from q b payload c (b.queue q) refl h

pub get-IsValid :
    (q : ℕ) (b : EventBus) (payload : Text) (c : EventBus)
    → get q b ≡ some (payload, c)
    → IsValid b
    → IsValid c
unfolding update
get-IsValid q b payload c h v =
    let t = get-Taken q b payload c h in
    subst IsValid (sym t.is) (record {
      listed_once = v.listed_once;
      made = v.made;
      bounded =
          λ r. ground (arith, v.bounded r, v.bounded q, ap (λ (x : List Text). length x) t.was);
    })
