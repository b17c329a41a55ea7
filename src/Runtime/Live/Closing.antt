-- ===== src/Runtime/Live/Closing.antt =====
-- What is left when `run_live` comes to its end.
use scmdb_log_watcher_es.Base.{
  ℕ, zero, suc, ◌≡◌, refl, ◌∙◌, true, false, Option, none, some, List, [], ◌∷◌, if_both,
}
use scmdb_log_watcher_es.Text.{Text}
use scmdb_log_watcher_es.Runtime.Entry.{LiveArgs, and_then}
use scmdb_log_watcher_es.Runtime.Origins.{build_allowed_origins, prod_origins, dev_origins_default}
use scmdb_log_watcher_es.Runtime.Ports.{
  Made, made, os_error, Bound, raised, all_in_use, create_server_with_fallback, try_ports,
  is_address_in_use, or_next,
}
use scmdb_log_watcher_es.Runtime.Watchdog.{
  Tick, Worker, watching, ended, requested_shutdown, worker, start_parent_watchdog,
}
use scmdb_log_watcher_es.Runtime.Live.{
  Registration, Signal, Live, before_start, port_made, start_live_runtime,
  register_shutdown_signals, request_shutdown, Happening, arrives, ticks, polls, fails, Ending,
  returned, interrupted, failed, killed, happen, serve_forever, stop_live_runtime, clean_up, Exit,
  code, exception, ended_by_system, serving, leave, attend, default_action, go_on, after_turn,
  is_handled, run_live, watchdog_turn,
}

-- The server's port is free again, the tailer is told to stop, and so is the watchdog if there is one.
pub record Closed (p : Live) : Type 0 where
  pub port : p.bound_port ≡ none
  pub tail : p.tail_stopped ≡ true
  pub watchdog : (w : Worker) → p.parent_watchdog ≡ some w → p.watchdog_stopped ≡ true

-- The server could not be made: the tail thread runs, and nothing has told it to stop.
pub record Unbound (p : Live) : Type 0 where
  pub port : p.bound_port ≡ none
  pub tail : p.tail_started ≡ true
  pub running : p.tail_stopped ≡ false

-- Whether the one port that is asked for can be had.
abbrev pub Succeeds : Made → Type 0
Succeeds made = Unit
Succeeds (os_error errno message) = ⊥

-- What the exits mean, for a watcher that is asked for this port.
abbrev pub Meaning : Made → ℕ → Exit × Live → Type 0
Meaning m port (code zero, p) = Succeeds m × Closed p
Meaning m port (code (suc n), p) = (n ≡ 1) × (Succeeds m → ⊥) × Unbound p
Meaning m port (exception, p) = Succeeds m × Closed p
Meaning m port (ended_by_system, p) = Succeeds m × (p.bound_port ≡ some port)
Meaning m port (serving, p) = Succeeds m × (p.bound_port ≡ some port)

clean_up-Closed : (p : Live) → Closed (clean_up p)
unfolding clean_up stop_live_runtime
clean_up-Closed p = record { port = refl; tail = refl; watchdog = λ w e. rw e refl }

leave-Meaning :
    (m : Made) (port : ℕ) (e : Option Ending) (p : Live)
    → Succeeds m
    → p.bound_port ≡ some port
    → Meaning m port (leave (e, p))
unfolding leave
leave-Meaning m port none p h k = (h, k)
leave-Meaning m port (some returned) p h k = (h, clean_up-Closed p)
leave-Meaning m port (some interrupted) p h k = (h, clean_up-Closed (request_shutdown p))
leave-Meaning m port (some failed) p h k = (h, clean_up-Closed p)
leave-Meaning m port (some killed) p h k = (h, k)

-- While it serves, the server keeps its port.
bound_port-after_turn : (w : Worker) (p : Live) → (after_turn w p).bound_port ≡ p.bound_port
unfolding request_shutdown
bound_port-after_turn watching p = refl
bound_port-after_turn ended p = refl
bound_port-after_turn requested_shutdown p = refl

bound_port-watchdog_turn :
    (t : Tick) (pid : Option ℕ) (w : Option Worker) (p : Live)
    → (watchdog_turn t pid w p).bound_port ≡ p.bound_port
unfolding request_shutdown
bound_port-watchdog_turn t none w p = refl
bound_port-watchdog_turn t (some pid) none p = refl
bound_port-watchdog_turn t (some pid) (some ended) p = refl
bound_port-watchdog_turn t (some pid) (some requested_shutdown) p = refl
bound_port-watchdog_turn t (some pid) (some watching) p =
    bound_port-after_turn (worker pid (t ∷ [])) p

bound_port-happen :
    (handled : List Signal) (h : Happening) (p : Live)
    → (happen handled h p).1.bound_port ≡ p.bound_port
unfolding request_shutdown
bound_port-happen handled (arrives sig) p =
    if_both (λ (r : Option Ending × Live). r.1.bound_port ≡ p.bound_port) (is_handled sig handled)
      (none, request_shutdown p) (some (default_action sig), p) refl refl
bound_port-happen handled (ticks t) p = bound_port-watchdog_turn t p.parent_pid p.parent_watchdog p
bound_port-happen handled polls p = refl
bound_port-happen handled fails p = refl

bound_port-go_on :
    (e : Option Ending) (p : Live) (rest : Option Ending × Live) (port : Option ℕ)
    → p.bound_port ≡ port
    → rest.1.bound_port ≡ port
    → (go_on e p rest).1.bound_port ≡ port
bound_port-go_on none p rest port h k = k
bound_port-go_on (some e) p rest port h k = h

bound_port-serve_forever :
    (handled : List Signal) (hs : List Happening) (p : Live)
    → (serve_forever handled hs p).1.bound_port ≡ p.bound_port
unfolding serve_forever
bound_port-serve_forever handled [] p = refl
bound_port-serve_forever handled (h ∷ hs) p =
    let p' = (happen handled h p).1 in
    bound_port-go_on (happen handled h p).0 p' (serve_forever handled hs p') p.bound_port
      (bound_port-happen handled h p)
      (bound_port-serve_forever handled hs p' ∙ bound_port-happen handled h p)

-- What a start that tries one port makes of it.
abbrev Fits : Made → ℕ → Option ℕ → Type 0
Fits m port none = Succeeds m → ⊥
Fits m port (some p) = Succeeds m × (some p ≡ some port)

or_next-Fits : (m : Made) (port : ℕ) → Fits m port (port_made (or_next m port all_in_use))
or_next-Fits made port = (tt, refl)
or_next-Fits (os_error errno message) port =
    if_both (λ (b : Bound). Fits (os_error errno message) port (port_made b))
      (is_address_in_use errno message) all_in_use (raised port) (λ h. h) (λ h. h)

attend-Meaning :
    (m : Made) (port : ℕ) (o : Option ℕ)
    → Fits m port o
    → (handled : List Signal) (hs : List Happening) (p : Live) → p.tail_started ≡ true
    → p.tail_stopped ≡ false
    → Meaning m port (attend handled hs (record p { bound_port = o }))
attend-Meaning m port none f handled hs p s r =
    (refl, f, record { port = refl; tail = s; running = r })
attend-Meaning m port (some q) f handled hs p s r =
    let p' = record p {
      bound_port = some q;
      parent_watchdog = start_parent_watchdog p.parent_pid [];
    } in
    let end = serve_forever handled hs p' in
    leave-Meaning m port end.0 end.1 f.0 (bound_port-serve_forever handled hs p' ∙ f.1)

-- However a live watcher runs and ends: it exits with 2 exactly if no server can be made at the very
-- port that is asked for, no other being tried, and then its tail thread runs on unstopped; when it
-- exits with 0 or by an exception, the port is free, and the tail thread and the watchdog of the parent
-- are told to stop; and while it serves, or when a signal that is not handled ends it, the server still
-- stands at that port.
pub run_live_lem :
    (int : Text → ℕ) (make : ℕ → Made) (answers : Signal → Registration) (hs : List Happening)
    (args : LiveArgs)
    → Meaning (make (int args.port)) (int args.port) (run_live int make answers hs args)
unfolding run_live start_live_runtime create_server_with_fallback try_ports
run_live_lem int make answers hs args =
    attend-Meaning (make (int args.port)) (int args.port) _
      (or_next-Fits (make (int args.port)) (int args.port)) (register_shutdown_signals answers) hs
      (record (before_start
        (build_allowed_origins prod_origins dev_origins_default args.dev args.dev_origins)) {
          parent_pid = and_then args.parent_pid (λ t. some (int t));
          tail_started = true;
        })
      refl refl
