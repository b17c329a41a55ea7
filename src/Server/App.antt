-- ===== src/Server/App.antt =====
-- python/scmdb_watcher/server.py, `build_app`: the hook that adds the CORS headers, the answers of
-- `/ping` and `/state`, and the headers of `/events`. Flask calls them; a response is the dict of its
-- headers.
use scmdb_log_watcher_es.Base.{
  ◌≡◌, ◌≢◌, refl, Bool, true, false, ◌&&◌, Option, none, some, List, [], ◌∷◌, arith, Bool-cases,
  inl, inr, if◌then◌else◌,
}
use scmdb_log_watcher_es.Text.{Text, codes, contains, text_eq, text_eq_iff}
use scmdb_log_watcher_es.Dict
use scmdb_log_watcher_es.Dict.{Dict, lookup-insert}
use scmdb_log_watcher_es.Domain.State.{ActiveMission, WatcherState, snapshot_active}

abbrev pub Headers : Type 0
Headers = Dict Text

abbrev pub allow_origin : Text
allow_origin = codes "Access-Control-Allow-Origin"

abbrev pub vary : Text
vary = codes "Vary"

abbrev is_truthy : Text → Bool
is_truthy [] = false
is_truthy (c ∷ s) = true

-- `add_cors`: `origin` is the request's `Origin` header.
unfoldable pub add_cors : List Text → Option Text → Headers → Headers
add_cors allowed none headers = headers
add_cors allowed (some origin) headers =
    if is_truthy origin && contains allowed origin
    then Dict.insert vary (codes "Origin") (Dict.insert allow_origin origin headers)
    else headers

-- `ping`: the fields `status` and `version`.
unfoldable pub ping : Text → Text × Text
ping version = (codes "ok", version)

-- `get_state`
unfoldable pub get_state : WatcherState → List ActiveMission
get_state s = snapshot_active s

-- The headers of the answer of `events`.
unfoldable pub events_headers : Headers
events_headers =
    (codes "Cache-Control", codes "no-cache")
    ∷ (codes "X-Accel-Buffering", codes "no")
    ∷ (codes "Connection", codes "keep-alive")
    ∷ []

vary_not_origin : text_eq vary allow_origin ≡ false
unfolding text_eq
vary_not_origin = refl

-- What the header says after the hook: the request's own origin if it is allowed, and what the
-- response had before if it is not, so that an origin outside the list is never let in.
pub allow_origin-add_cors :
    (allowed : List Text) (origin : Text) (headers : Headers)
    → origin ≢ []
    → Dict.lookup allow_origin (add_cors allowed (some origin) headers)
      ≡ (if contains allowed origin then some origin else Dict.lookup allow_origin headers)
unfolding add_cors
allow_origin-add_cors allowed [] headers h = absurd (h refl)
allow_origin-add_cors allowed (c ∷ s) headers h = elim (Bool-cases (contains allowed (c ∷ s))) [
  | inr n ↦ rw n
  | inl y ↦
      rw (y, lookup-insert, vary_not_origin, lookup-insert)
        (ground (arith, text_eq_iff allow_origin allow_origin))
]
