-- ===== src/Pipeline/Replay.antt =====
-- python/scmdb_watcher/server.py, `events`: the client is subscribed before the snapshot is taken, so
-- the snapshot may already show what the first events in the queue tell once more.
use scmdb_log_watcher_es.Base.{
  ◌≡◌, refl, sym, ap, ◌∙◌, Bool, true, false, Option, none, some, List, [], ◌∷◌, ◌++◌, inl, inr,
  Bool-cases, if◌then◌else◌, arith,
}
use scmdb_log_watcher_es.Text.{Text, text_eq, text_eq_iff}
use scmdb_log_watcher_es.Dict
use scmdb_log_watcher_es.Dict.{
  Dict, NodupKeys, lookup-insert, lookup-erase, insert-NodupKeys, erase-NodupKeys,
}
use scmdb_log_watcher_es.Domain.State.{ActiveMission, WatcherState, snapshot_active}
use scmdb_log_watcher_es.Domain.Process.{
  Event, mission_start, mission_end, blueprint_received, session_reset, state_snapshot,
}
use scmdb_log_watcher_es.Domain.Invariant.{IsConsistent}
use scmdb_log_watcher_es.Pipeline.Mirror.{insert_all, keyed, follow, follow_all, follow_all-append}

insert_all-NodupKeys :
    (ms : List ActiveMission) (d : Dict ActiveMission) → NodupKeys d → NodupKeys (insert_all ms d)
unfolding insert_all
insert_all-NodupKeys [] d h = h
insert_all-NodupKeys (m ∷ ms) d h =
    insert_all-NodupKeys ms (Dict.insert m.guid m d) (insert-NodupKeys m.guid m d h)

pub follow-NodupKeys : (e : Event) (d : Dict ActiveMission) → NodupKeys d → NodupKeys (follow e d)
unfolding follow
follow-NodupKeys (mission_start guid debug_name generator start_ts) d h =
    insert-NodupKeys guid
      (record { guid = guid; debug_name = debug_name; generator = generator; start_ts = start_ts })
      d h
follow-NodupKeys (mission_end type guid debug_name generator completion reason end_ts) d h =
    erase-NodupKeys guid d h
follow-NodupKeys (blueprint_received name guid debug_name trigger ts) d h = h
follow-NodupKeys session_reset d h = tt
follow-NodupKeys (state_snapshot missions) d h = insert_all-NodupKeys missions [] tt

pub follow_all-NodupKeys :
    (es : List Event) (d : Dict ActiveMission) → NodupKeys d → NodupKeys (follow_all es d)
unfolding follow_all
follow_all-NodupKeys [] d h = h
follow_all-NodupKeys (e ∷ es) d h = follow_all-NodupKeys es (follow e d) (follow-NodupKeys e d h)

-- What an event tells of one guid: nothing, or what the picture has under it from now on.
abbrev tells : Text → Event → Option (Option ActiveMission)
tells g (mission_start guid debug_name generator start_ts) =
    if text_eq guid g
    then some (
        some (record {
          guid = guid;
          debug_name = debug_name;
          generator = generator;
          start_ts = start_ts;
        }))
    else none
tells g (mission_end type guid debug_name generator completion reason end_ts) =
    if text_eq guid g then some none else none
tells g (blueprint_received name guid debug_name trigger ts) = none
tells g session_reset = some none
tells g (state_snapshot missions) = some (Dict.lookup g (keyed missions))

abbrev told : Option (Option ActiveMission) → Option ActiveMission → Option ActiveMission
told none was = was
told (some now) was = now

-- What several events tell: the last word counts.
abbrev later :
    Option (Option ActiveMission) → Option (Option ActiveMission) → Option (Option ActiveMission)
later none before = before
later (some now) before = some now

abbrev tells_all : Text → List Event → Option (Option ActiveMission)
tells_all g [] = none
tells_all g (e ∷ es) = later (tells_all g es) (tells g e)

told-later :
    (now before : Option (Option ActiveMission)) (was : Option ActiveMission)
    → told now (told before was) ≡ told (later now before) was
told-later none before was = refl
told-later (some now) before was = refl

told-told :
    (now : Option (Option ActiveMission)) (was : Option ActiveMission)
    → told now (told now was) ≡ told now was
told-told none was = refl
told-told (some now) was = refl

told_if :
    (b : Bool) (now was : Option ActiveMission)
    → (if b then now else was) ≡ told (if b then some now else none) was
told_if true now was = refl
told_if false now was = refl

lookup-follow :
    (g : Text) (e : Event) (d : Dict ActiveMission)
    → NodupKeys d
    → Dict.lookup g (follow e d) ≡ told (tells g e) (Dict.lookup g d)
unfolding follow Dict.lookup
lookup-follow g (mission_start guid debug_name generator start_ts) d h =
    let m : ActiveMission = record {
      guid = guid;
      debug_name = debug_name;
      generator = generator;
      start_ts = start_ts;
    } in
    lookup-insert g guid m d ∙ told_if (text_eq guid g) (some m) (Dict.lookup g d)
lookup-follow g (mission_end type guid debug_name generator completion reason end_ts) d h =
    lookup-erase g guid d h ∙ told_if (text_eq guid g) none (Dict.lookup g d)
lookup-follow g (blueprint_received name guid debug_name trigger ts) d h = refl
lookup-follow g session_reset d h = refl
lookup-follow g (state_snapshot missions) d h = refl

pub lookup-follow_all :
    (g : Text) (es : List Event) (d : Dict ActiveMission)
    → NodupKeys d
    → Dict.lookup g (follow_all es d) ≡ told (tells_all g es) (Dict.lookup g d)
unfolding follow_all
lookup-follow_all g [] d h = refl
lookup-follow_all g (e ∷ es) d h =
    lookup-follow_all g es (follow e d) (follow-NodupKeys e d h)
    ∙ ap (told (tells_all g es)) (lookup-follow g e d h)
    ∙ told-later (tells_all g es) (tells g e) (Dict.lookup g d)

-- Two pictures that show the same under a guid go on to show the same.
pub follow_all_same :
    (g : Text) (es : List Event) (c d : Dict ActiveMission)
    → NodupKeys c
    → NodupKeys d
    → Dict.lookup g c ≡ Dict.lookup g d
    → Dict.lookup g (follow_all es c) ≡ Dict.lookup g (follow_all es d)
follow_all_same g es c d h k same =
    lookup-follow_all g es c h ∙ ap (told (tells_all g es)) same ∙ sym (lookup-follow_all g es d k)

-- Events that come once more, in the order in which they came before, change nothing, so a picture
-- in which the first of the events are already told ends as one that begins before them.
pub follow_all-follow_all :
    (g : Text) (xs ys : List Event) (d : Dict ActiveMission)
    → NodupKeys d
    → Dict.lookup g (follow_all (xs ++ ys) (follow_all xs d))
      ≡ Dict.lookup g (follow_all (xs ++ ys) d)
follow_all-follow_all g xs ys d h =
    let once = follow_all xs d in
    let n : NodupKeys once = follow_all-NodupKeys xs d h in
    let same : Dict.lookup g (follow_all xs once) ≡ Dict.lookup g once =
      lookup-follow_all g xs once n
      ∙ ap (told (tells_all g xs)) (lookup-follow_all g xs d h)
      ∙ told-told (tells_all g xs) (Dict.lookup g d)
      ∙ sym (lookup-follow_all g xs d h) in
    ap (Dict.lookup g) (follow_all-append xs ys once)
    ∙ follow_all_same g ys (follow_all xs once) once (follow_all-NodupKeys xs once n) n same
    ∙ ap (Dict.lookup g) (sym (follow_all-append xs ys d))

-- The missions of a snapshot are the active ones, under the same guids.
abbrev OwnGuids : Dict ActiveMission → Type 0
OwnGuids d = (k : Text) (m : ActiveMission) → Dict.lookup k d ≡ some m → m.guid ≡ k

-- The last mission of a guid, or what was there before.
abbrev or_before : Option ActiveMission → Option ActiveMission → Option ActiveMission
or_before none before = before
or_before (some m) before = some m

lookup-insert_all :
    (g : Text) (d acc : Dict ActiveMission)
    → NodupKeys d
    → OwnGuids d
    → Dict.lookup g (insert_all (Dict.values d) acc)
      ≡ or_before (Dict.lookup g d) (Dict.lookup g acc)
unfolding insert_all Dict.values Dict.lookup
lookup-insert_all g [] acc h own = refl
lookup-insert_all g ((k, m) ∷ d) acc h own =
    let at : m.guid ≡ k = own k m (ground (arith, text_eq_iff k k)) in
    let tail : OwnGuids d = λ j n found. own j n (ground (arith, text_eq_iff k j, found, h.0)) in
    lookup-insert_all g d (Dict.insert m.guid m acc) h.1 tail
    ∙ ap (or_before (Dict.lookup g d)) (
        lookup-insert g m.guid m acc
        ∙ ap (λ j. if text_eq j g then some m else Dict.lookup g acc) at)
    ∙ elim (Bool-cases (text_eq k g)) [
      | inl y ↦
          let gone : Dict.lookup g d ≡ none =
            ap (λ j. Dict.lookup j d) (sym ((text_eq_iff k g).0 y)) ∙ h.0 in
          rw (y, gone) refl
      | inr n ↦ rw n refl
    ]

or_before-none : (o : Option ActiveMission) → or_before o none ≡ o
or_before-none none = refl
or_before-none (some m) = refl

pub lookup-keyed :
    (g : Text) (s : WatcherState)
    → IsConsistent s
    → Dict.lookup g (keyed (snapshot_active s)) ≡ Dict.lookup g s.active
unfolding snapshot_active Dict.lookup
lookup-keyed g s c =
    lookup-insert_all g s.active [] c.active_keys (λ k m found. (c.agrees k m found).own_guid)
    ∙ or_before-none (Dict.lookup g s.active)

pub keyed-NodupKeys : (ms : List ActiveMission) → NodupKeys (keyed ms)
keyed-NodupKeys ms = insert_all-NodupKeys ms [] tt
