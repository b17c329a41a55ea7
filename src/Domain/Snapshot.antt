-- ===== src/Domain/Snapshot.antt =====
-- `snapshot_active`
use scmdb_log_watcher_es.Base.{◌≡◌, ◌↔◌, sym, subst, some, In}
use scmdb_log_watcher_es.Dict
use scmdb_log_watcher_es.Dict.{lookup-In-values, In-values-lookup}
use scmdb_log_watcher_es.Domain.State.{ActiveMission, WatcherState, snapshot_active}
use scmdb_log_watcher_es.Domain.Invariant.{IsConsistent}

-- The snapshot lists the missions that are active under their guids, and no others.
pub snapshot_active_iff :
    (m : ActiveMission) (s : WatcherState)
    → IsConsistent s
    → In m (snapshot_active s) ↔ (Dict.lookup m.guid s.active ≡ some m)
unfolding snapshot_active
snapshot_active_iff m s c = (
  λ listed.
      let (k, found) = In-values-lookup m s.active c.active_keys listed in
      subst (λ g. Dict.lookup g s.active ≡ some m) (sym ((c.agrees k m found).own_guid)) found,
  λ found. lookup-In-values m.guid m s.active found,
)
