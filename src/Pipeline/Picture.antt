-- ===== src/Pipeline/Picture.antt =====
-- From the log to the client's picture: python/watcher.py, `LogTailer.run`, python/scmdb_watcher/server.py,
-- `broadcast` and `events`, and a client that reads the stream.
use scmdb_log_watcher_es.Base.{
  ℕ, ◌≡◌, refl, sym, ap, ◌∙◌, subst, true, Option, none, some, List, [], ◌∷◌, ◌++◌, map, All, arith,
  append-nil, append_assoc,
}
use scmdb_log_watcher_es.Text.{Text}
use scmdb_log_watcher_es.Dict
use scmdb_log_watcher_es.Dict.{Dict, NodupKeys}
use scmdb_log_watcher_es.Domain.State.{Instant, ActiveMission, WatcherState, snapshot_active, reset}
use scmdb_log_watcher_es.Domain.Line.{FromIso}
use scmdb_log_watcher_es.Domain.Process.{Event, state_snapshot}
use scmdb_log_watcher_es.Domain.Invariant.{
  IsConsistent, init-IsConsistent, process_lines-IsConsistent,
}
use scmdb_log_watcher_es.Server.Bus.{EventBus, update, subscribe}
use scmdb_log_watcher_es.Server.Bus.Delivery.{member}
use scmdb_log_watcher_es.Server.Bus.Valid.{IsValid, subscribe-IsValid}
use scmdb_log_watcher_es.Server.Bus.Threads.{update_self}
use scmdb_log_watcher_es.Server.Stream.{Round, rounds, stream, open_stream}
use scmdb_log_watcher_es.Server.Stream.Laws.{
  client_events, joined, payloads, OneLine, events-data_chunk, client_events-rounds,
}
use scmdb_log_watcher_es.Tailer.Lines.{Bytes}
use scmdb_log_watcher_es.Tailer.Run.{Turn, LogTailer, turn, run}
use scmdb_log_watcher_es.Tailer.Run.Traces.{Traces, run-Traced}
use scmdb_log_watcher_es.Pipeline.Mirror.{keyed, follow, follow_all, run-follow_all}
use scmdb_log_watcher_es.Pipeline.Replay.{
  follow_all-follow_all, follow_all_same, lookup-keyed, keyed-NodupKeys,
}
use scmdb_log_watcher_es.Pipeline.Feed.{Move, Link, play, ServesAll, Listens, ahead, play-ahead}

reset-IsConsistent : (s : WatcherState) → IsConsistent (reset s)
unfolding reset
reset-IsConsistent s = init-IsConsistent

Consistent-Traces : (iso : FromIso) → Traces iso (λ s r. IsConsistent s → IsConsistent r.0)
Consistent-Traces iso = record {
  nothing = λ s c. c;
  append = λ s t u xs ys h k c. k (h c);
  lines = λ ls s c. process_lines-IsConsistent iso ls s c;
  resets = λ s c. reset-IsConsistent s;
}

-- The state of a tailer stays consistent, whatever it meets in its turns.
pub run-IsConsistent :
    (decode : Bytes → Text) (iso : FromIso) (ts : List Turn) (w : LogTailer)
    → IsConsistent w.state
    → IsConsistent (run decode iso ts w).0.state
run-IsConsistent decode iso ts w =
    run-Traced decode iso (λ s r. IsConsistent s → IsConsistent r.0) (Consistent-Traces iso) ts w

subscribed : (n : ℕ) (qs : List ℕ) → member n (qs ++ n ∷ []) ≡ true
subscribed n [] = ground arith
subscribed n (q ∷ qs) = ground (arith, subscribed n qs)

module _ (loads : Text → Option Event) where
  -- The events in the texts that a client reads.
  abbrev pub read_events : List Text → List Event
  read_events [] = []
  read_events (p ∷ ps) = elim (loads p) [ none ↦ read_events ps | some e ↦ e ∷ read_events ps ]

  -- The picture that a client has made of what it was sent.
  unfoldable pub picture : List Text → Dict ActiveMission
  unfolding follow_all
  picture chunks = follow_all (read_events (client_events (joined chunks))) []

-- `json.loads` undoes `json.dumps` on these events, and their texts hold no line break.
abbrev pub Speaks : (Text → Option Event) → (Event → Text) → List Event → Type 0
Speaks loads dumps es = All (λ e. (loads (dumps e) ≡ some e) × OneLine (dumps e)) es

read_events-map :
    (loads : Text → Option Event) (dumps : Event → Text) (es : List Event)
    → Speaks loads dumps es
    → read_events loads (map dumps es) ≡ es
read_events-map loads dumps [] h = refl
read_events-map loads dumps (e ∷ es) h =
    rw h.0.0 (ap (λ x. e ∷ x) (read_events-map loads dumps es h.1))

map-OneLine :
    (loads : Text → Option Event) (dumps : Event → Text) (es : List Event)
    → Speaks loads dumps es
    → All OneLine (map dumps es)
map-OneLine loads dumps [] h = tt
map-OneLine loads dumps (e ∷ es) h = (h.0.1, map-OneLine loads dumps es h.1)

-- The bus with the client's queue on it, and the events of the tailer to come.
abbrev pub connected : EventBus → List Event → Link
connected b es = record { bus = (open_stream b).0; unsent = es }

module _ (decode : Bytes → Text) (iso : FromIso) (loads : Text → Option Event)
    (dumps : Event → Text) where
  run-append :
      (ts us : List Turn) (w : LogTailer)
      → run decode iso (ts ++ us) w ≡ (
        (run decode iso us (run decode iso ts w).0).0,
        (run decode iso ts w).1 ++ (run decode iso us (run decode iso ts w).0).1,
      )
  unfolding run
  run-append [] us w = refl
  run-append (t ∷ ts) us w =
      let r = turn decode iso t w in
      let x = run decode iso ts r.0 in
      let y = run decode iso us x.0 in
      ap {B = LogTailer × List Event} (λ (z : LogTailer × List Event). (z.0, r.1 ++ z.1))
        (run-append ts us r.0)
      ∙ ap (λ o. (y.0, o)) (sym (append_assoc r.1 x.1 y.1))

  connected-Listens :
      (b : EventBus) (es : List Event)
      → IsValid b
      → Listens dumps (open_stream b).1 (connected b es)
  unfolding open_stream subscribe
  connected-Listens b es v = record {
    valid = subscribe-IsValid b v;
    listed = subscribed b.next b.subs;
  }

  ahead-connected :
      (b : EventBus) (es : List Event)
      → ahead dumps (open_stream b).1 (connected b es) ≡ map dumps es
  unfolding open_stream subscribe update
  ahead-connected b es = ap (λ x. x ++ map dumps es) (update_self b.queue b.next [])

  payloads-play :
      (b : EventBus) (es : List Event) (ms : List Move)
      → IsValid b
      → ServesAll dumps (open_stream b).1 ms (connected b es)
      → ahead dumps (open_stream b).1 (play dumps (open_stream b).1 ms (connected b es)).0 ≡ []
      → payloads (play dumps (open_stream b).1 ms (connected b es)).1 ≡ map dumps es
  payloads-play b es ms v h done =
      let q = (open_stream b).1 in
      let r = play dumps q ms (connected b es) in
      sym (append-nil (payloads r.1))
      ∙ ap (λ x. payloads r.1 ++ x) (sym done)
      ∙ play-ahead dumps q ms (connected b es) h (connected-Listens b es v)
      ∙ ahead-connected b es

  read-stream :
      (s : WatcherState) (begun : Instant) (rs : List Round) (es : List Event)
      → Speaks loads dumps (state_snapshot (snapshot_active s) ∷ es)
      → payloads rs ≡ map dumps es
      → read_events loads (client_events (joined (stream dumps s begun rs)))
        ≡ state_snapshot (snapshot_active s) ∷ es
  unfolding stream
  read-stream s begun rs es speaks e =
      let snap = state_snapshot (snapshot_active s) in
      ap (read_events loads) (
        events-data_chunk (dumps snap) (joined (rounds rs begun)) speaks.0.1
        ∙ ap (λ x. dumps snap ∷ x)
            (client_events-rounds rs begun
                (subst (All OneLine) (sym e) (map-OneLine loads dumps es speaks.1))
              ∙ e))
      ∙ read_events-map loads dumps (snap ∷ es) speaks

  -- A client that connects to a running tailer, whose snapshot is taken after some more turns, and that
  -- reads its stream until its queue is empty and nothing is left to broadcast, has under every guid
  -- what the tailer has as active there: however the threads take turns, other clients come and go, the
  -- log grows, is rotated or is missing, and although the snapshot may already show what the first
  -- events in its queue tell. The client stays, its queue is never full at a broadcast, and `json`
  -- reads what it wrote.
  pub picture-stream :
      (b : EventBus)
      → IsValid b
      → (w : LogTailer) → IsConsistent w.state
      → (ts us : List Turn) (ms : List Move) (begun : Instant)
      → Speaks loads dumps (
          state_snapshot (snapshot_active (run decode iso ts w).0.state)
          ∷ (run decode iso (ts ++ us) w).1)
      → ServesAll dumps (open_stream b).1 ms (connected b (run decode iso (ts ++ us) w).1)
      → ahead dumps
          (open_stream b).1
          (play dumps (open_stream b).1 ms (connected b (run decode iso (ts ++ us) w).1)).0
        ≡ []
      → (g : Text)
      → Dict.lookup g (
          picture loads (
            stream dumps
              (run decode iso ts w).0.state
              begun
              (play dumps (open_stream b).1 ms (connected b (run decode iso (ts ++ us) w).1)).1))
        ≡ Dict.lookup g (run decode iso (ts ++ us) w).0.state.active
  unfolding picture follow_all follow
  picture-stream b v w c ts us ms begun speaks h done g =
      let all = run decode iso (ts ++ us) w in
      let first = run decode iso ts w in
      let s = first.0.state in
      let ys = (run decode iso us first.0).1 in
      let rs = (play dumps (open_stream b).1 ms (connected b all.1)).1 in
      let parts : all.1 ≡ first.1 ++ ys =
        ap (λ (z : LogTailer × List Event). z.1) (run-append ts us w) in
      let consistent : IsConsistent s = run-IsConsistent decode iso ts w c in
      ap (λ es. Dict.lookup g (follow_all es []))
        (read-stream s begun rs all.1 speaks (payloads-play b all.1 ms v h done))
      ∙ follow_all_same g all.1 (keyed (snapshot_active s)) s.active
          (keyed-NodupKeys (snapshot_active s)) consistent.active_keys (lookup-keyed g s consistent)
      ∙ ap (λ d. Dict.lookup g (follow_all all.1 d)) (sym (run-follow_all decode iso ts w))
      ∙ ap (λ es. Dict.lookup g (follow_all es (follow_all first.1 w.state.active))) parts
      ∙ follow_all-follow_all g first.1 ys w.state.active c.active_keys
      ∙ ap (λ es. Dict.lookup g (follow_all es w.state.active)) (sym parts)
      ∙ ap (Dict.lookup g) (run-follow_all decode iso (ts ++ us) w)
