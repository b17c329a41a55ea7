-- ===== src/Runtime/Live/Watched.antt =====
-- A live watcher does not outlive the process that has started it.
use scmdb_log_watcher_es.Base.{
  ℕ, ◌≡◌, ◌⊎◌, refl, sym, ap, ◌∙◌, subst, Bool, true, false, Option, none, some, List, [], ◌∷◌,
  ◌++◌, All, arith, inl, inr, if◌then◌else◌,
}
use scmdb_log_watcher_es.Text.{Text}
use scmdb_log_watcher_es.Runtime.Entry.{LiveArgs, and_then}
use scmdb_log_watcher_es.Runtime.Origins.{build_allowed_origins, prod_origins, dev_origins_default}
use scmdb_log_watcher_es.Runtime.Ports.{
  Made, made, create_server_with_fallback, try_ports, or_next, all_in_use,
}
use scmdb_log_watcher_es.Runtime.Watchdog.{
  Tick, Worker, watching, ended, requested_shutdown, worker, is_process_alive,
  start_parent_watchdog, ParentGone, worker_iff,
}
use scmdb_log_watcher_es.Runtime.Live.{
  Registration, Signal, Live, before_start, port_made, start_live_runtime,
  register_shutdown_signals, is_handled, request_shutdown, Happening, arrives, ticks, polls, fails,
  Ending, returned, go_on, after_turn, watchdog_turn, serve_forever, code, leave, attend, run_live,
}

-- The turns of the watchdog among what happens.
abbrev pub turns : List Happening → List Tick
turns [] = []
turns (ticks t ∷ hs) = t ∷ turns hs
turns (h ∷ hs) = turns hs

-- Nothing that ends the process by itself: signals have their handler, and the server's loop does not
-- fail.
abbrev pub Calm : List Signal → Happening → Type 0
Calm handled (arrives sig) = is_handled sig handled ≡ true
Calm handled (ticks t) = Unit
Calm handled polls = Unit
Calm handled fails = ⊥

shutdown-after_turn : (w : Worker) (p : Live) → p.shutdown ≡ true → (after_turn w p).shutdown ≡ true
unfolding request_shutdown
shutdown-after_turn watching p h = h
shutdown-after_turn ended p h = h
shutdown-after_turn requested_shutdown p h = refl

shutdown-watchdog_turn :
    (t : Tick) (pid : Option ℕ) (w : Option Worker) (p : Live)
    → p.shutdown ≡ true
    → (watchdog_turn t pid w p).shutdown ≡ true
shutdown-watchdog_turn t none w p h = h
shutdown-watchdog_turn t (some pid) none p h = h
shutdown-watchdog_turn t (some pid) (some ended) p h = h
shutdown-watchdog_turn t (some pid) (some requested_shutdown) p h = h
shutdown-watchdog_turn t (some pid) (some watching) p h =
    shutdown-after_turn (worker pid (t ∷ [])) p h

module _ (handled : List Signal) where
  abbrev Returns : List Happening → Live → Type 0
  Returns hs p = (serve_forever handled (hs ++ polls ∷ []) p).0 ≡ some returned

  -- The first poll after a request ends the loop.
  shutdown-Returns :
      (hs : List Happening) (p : Live) → All (Calm handled) hs → p.shutdown ≡ true → Returns hs p
  unfolding serve_forever request_shutdown
  shutdown-Returns [] p c h = rw h refl
  shutdown-Returns (arrives sig ∷ hs) p c h =
      rw c.0 (shutdown-Returns hs (request_shutdown p) c.1 refl)
  shutdown-Returns (ticks t ∷ hs) p c h =
      shutdown-Returns hs (watchdog_turn t p.parent_pid p.parent_watchdog p) c.1
        (shutdown-watchdog_turn t p.parent_pid p.parent_watchdog p h)
  shutdown-Returns (polls ∷ hs) p c h = rw h refl
  shutdown-Returns (fails ∷ hs) p c h = absurd c.0

  first_turn :
      (stopped alive : Bool) (rest : Worker)
      → (if stopped then ended else if alive then rest else requested_shutdown) ≡ requested_shutdown
      → ((if stopped then ended else if alive then watching else requested_shutdown)
          ≡ requested_shutdown)
        ⊎ (((if stopped then ended else if alive then watching else requested_shutdown) ≡ watching)
            × (rest ≡ requested_shutdown))
  first_turn true alive rest e = absurd (ground (arith, e))
  first_turn false true rest e = inr (refl, e)
  first_turn false false rest e = inl refl

  polled :
      (b : Bool) (p : Live) (rest : Option Ending × Live)
      → rest.0 ≡ some returned
      → (go_on (if b then some returned else none) p rest).0 ≡ some returned
  polled true p rest h = refl
  polled false p rest h = h

  -- A turn of a watchdog that goes on to ask for the shutdown.
  one_more :
      (pid : ℕ) (t : Tick) (ts : List Tick)
      → worker pid (t ∷ ts) ≡ requested_shutdown
      → (worker pid (t ∷ []) ≡ requested_shutdown)
        ⊎ ((worker pid (t ∷ []) ≡ watching) × (worker pid ts ≡ requested_shutdown))
  unfolding worker
  one_more pid t ts e = first_turn t.stopped (is_process_alive t.finds pid) (worker pid ts) e

  gone-Returns :
      (pid : ℕ) (hs : List Happening) (p : Live)
      → All (Calm handled) hs
      → p.parent_pid ≡ some pid
      → p.parent_watchdog ≡ some watching
      → worker pid (turns hs) ≡ requested_shutdown
      → Returns hs p
  unfolding serve_forever request_shutdown
  gone-Returns pid [] p c i w e = absurd (ground (arith, e))
  gone-Returns pid (arrives sig ∷ hs) p c i w e =
      rw c.0 (shutdown-Returns hs (request_shutdown p) c.1 refl)
  gone-Returns pid (polls ∷ hs) p c i w e =
      polled p.shutdown p (serve_forever handled (hs ++ polls ∷ []) p)
        (gone-Returns pid hs p c.1 i w e)
  gone-Returns pid (fails ∷ hs) p c i w e = absurd c.0
  gone-Returns pid (ticks t ∷ hs) p c i w e =
      let turn : watchdog_turn t p.parent_pid p.parent_watchdog p
          ≡ after_turn (worker pid (t ∷ [])) p =
        ap (λ o. watchdog_turn t o p.parent_watchdog p) i
        ∙ ap (λ o. watchdog_turn t (some pid) o p) w in
      subst (λ q. Returns hs q) (sym turn)
        (elim (one_more pid t (turns hs) e) [
          | inl now ↦
              subst (λ v. Returns hs (after_turn v p)) (sym now)
                (shutdown-Returns hs (after_turn requested_shutdown p) c.1 refl)
          | inr (goes_on, later) ↦
              subst (λ v. Returns hs (after_turn v p)) (sym goes_on)
                (gone-Returns pid hs (after_turn watching p) c.1 i refl later)
        ])

leave-returned : (r : Option Ending × Live) → r.0 ≡ some returned → (leave r).0 ≡ code 0
unfolding leave
leave-returned r h = ap (λ e. (leave (e, r.1)).0) h

-- Once the process that has started it is gone, and the watchdog sees that before it is stopped, a
-- live watcher comes to its exit with 0 at the latest when the server's loop looks the next time.
-- Signals with their handler may come meanwhile.
pub run_live-ParentGone :
    (int : Text → ℕ) (make : ℕ → Made) (answers : Signal → Registration) (hs : List Happening)
    (args : LiveArgs) (parent : Text)
    → args.parent_pid ≡ some parent
    → make (int args.port) ≡ made
    → All (Calm (register_shutdown_signals answers)) hs
    → ParentGone (int parent) (turns hs)
    → (run_live int make answers (hs ++ polls ∷ []) args).0 ≡ code 0
unfolding run_live start_live_runtime create_server_with_fallback try_ports start_parent_watchdog
run_live-ParentGone int make answers hs args parent given m calm gone =
    let port = int args.port in
    let handled = register_shutdown_signals answers in
    let p : Live =
      record (before_start
        (build_allowed_origins prod_origins dev_origins_default args.dev args.dev_origins)) {
          tail_started = true;
        } in
    let Exits : Option Text → Made → Type 0 = λ o made_there.
      (attend handled (hs ++ polls ∷ []) (record p {
        parent_pid = and_then o (λ t. some (int t));
        bound_port = port_made (or_next made_there port all_in_use);
      })).0
      ≡ code 0 in
    let watched : Live = record p {
      parent_pid = some (int parent);
      bound_port = some port;
      parent_watchdog = some watching;
    } in
    let r : Exits (some parent) made =
      leave-returned (serve_forever handled (hs ++ polls ∷ []) watched) (
        gone-Returns handled (int parent) hs watched calm refl refl
          ((worker_iff (int parent) (turns hs)).1 gone)) in
    subst (λ o. Exits o (make port)) (sym given) (subst (λ x. Exits (some parent) x) (sym m) r)
