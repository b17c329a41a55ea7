-- ===== src/Dict/Defs.antt =====
-- Python's `dict` with string keys, in insertion order: an assignment to a key that is there keeps
-- its place, and `pop` removes the entry.
use scmdb_log_watcher_es.Base.{◌≡◌, Option, none, some, List, [], ◌∷◌, map, if◌then◌else◌}
use scmdb_log_watcher_es.Text.{Text, text_eq}

abbrev pub Dict {ℓ} : Type ℓ → Type ℓ
Dict V = List (Text × V)

module _ {ℓ} {V : Type ℓ} where
  -- `d.get(k)`
  unfoldable pub lookup : Text → Dict V → Option V
  lookup k [] = none
  lookup k ((j, v) ∷ d) = if text_eq j k then some v else lookup k d

  -- `d[k] = v`
  unfoldable pub insert : Text → V → Dict V → Dict V
  insert k v [] = (k, v) ∷ []
  insert k v ((j, w) ∷ d) = if text_eq j k then (j, v) ∷ d else (j, w) ∷ insert k v d

  -- `d.pop(k, None)`, the dict that is left. A dict has at most one entry of a key.
  unfoldable pub erase : Text → Dict V → Dict V
  erase k [] = []
  erase k ((j, w) ∷ d) = if text_eq j k then d else (j, w) ∷ erase k d

  -- `list(d.values())`
  unfoldable pub values : Dict V → List V
  values d = map (λ (_, v). v) d

  -- No key is listed twice.
  abbrev pub NodupKeys : Dict V → Type ℓ
  NodupKeys [] = Unit
  NodupKeys ((k, _) ∷ d) = (lookup k d ≡ none) × NodupKeys d
