-- ===== src/Server/Bus/Listed.antt =====
-- Who is listed stays listed, whatever is broadcast and whoever else comes or goes.
use scmdb_log_watcher_es.Base.{
  ℕ, ◌<◌, ◌≡◌, ◌≢◌, refl, ◌∙◌, true, false, List, [], ◌∷◌, ◌++◌, length, ◌==◌, All, arith,
}
use scmdb_log_watcher_es.Text.{Text}
use scmdb_log_watcher_es.Server.Bus.{
  queue_maxsize, EventBus, remove, put_nowait, deliver, broadcast,
}
use scmdb_log_watcher_es.Server.Bus.Delivery.{member, offered}
use scmdb_log_watcher_es.Server.Bus.Valid.{IsValid, deliver-IsValid, subs-put_nowait}

subs-deliver : (payload : Text) (qs : List ℕ) (b : EventBus) → (deliver payload qs b).subs ≡ b.subs
unfolding deliver
subs-deliver payload [] b = refl
subs-deliver payload (r ∷ qs) b =
    subs-deliver payload qs (put_nowait payload r b) ∙ subs-put_nowait payload r b

pub subs-broadcast : (payload : Text) (b : EventBus) → (broadcast payload b).subs ≡ b.subs
unfolding broadcast
subs-broadcast payload b = subs-deliver payload b.subs b

pub broadcast-IsValid : (payload : Text) (b : EventBus) → IsValid b → IsValid (broadcast payload b)
unfolding broadcast
broadcast-IsValid payload b v = deliver-IsValid payload b.subs b v

pub offered-room :
    (payload : Text) (ps : List Text)
    → length ps < queue_maxsize
    → offered payload ps ≡ ps ++ payload ∷ []
unfolding offered
offered-room payload ps h = ground arith

pub member-append : (q : ℕ) (xs ys : List ℕ) → member q xs ≡ true → member q (xs ++ ys) ≡ true
member-append q [] ys h = absurd (ground arith)
member-append q (x ∷ xs) ys h = ground (arith, member-append q xs ys)

pub not_next : (q n : ℕ) (qs : List ℕ) → All (λ r. r < n) qs → member q qs ≡ true → (n == q) ≡ false
not_next q n [] a h = absurd (ground arith)
not_next q n (r ∷ qs) a h = ground (arith, not_next q n qs a.1, a.0)

pub member-remove_other :
    (q r : ℕ) (qs : List ℕ) → r ≢ q → member q qs ≡ true → member q (remove r qs) ≡ true
unfolding remove
member-remove_other q r [] d h = h
member-remove_other q r (s ∷ qs) d h = ground (arith, member-remove_other q r qs d)
