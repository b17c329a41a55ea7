-- ===== src/Dict/Laws.antt =====
-- The laws by which the other modules reason about dicts.
use scmdb_log_watcher_es.Base.{◌≡◌, refl, none, some, [], ◌∷◌, arith, if◌then◌else◌, false}
use scmdb_log_watcher_es.Text.{Text, text_eq, text_eq_iff}
use scmdb_log_watcher_es.Dict.Defs.{Dict, lookup, insert, erase, NodupKeys}

module _ {ℓ} {V : Type ℓ} where
  pub lookup-insert :
      (j k : Text) (v : V) (d : Dict V)
      → lookup j (insert k v d) ≡ (if text_eq k j then some v else lookup j d)
  unfolding lookup insert
  lookup-insert j k v [] = refl
  lookup-insert j k v ((i, w) ∷ d) =
      ground (arith, lookup-insert j k v d, text_eq_iff k j, text_eq_iff i k, text_eq_iff i j)

  pub lookup-erase_self : (k : Text) (d : Dict V) → NodupKeys d → lookup k (erase k d) ≡ none
  unfolding lookup erase
  lookup-erase_self k [] h = refl
  lookup-erase_self k ((i, w) ∷ d) h = ground (arith, lookup-erase_self k d h.1, text_eq_iff i k)

  pub lookup-erase_other :
      (j k : Text) (d : Dict V) → text_eq k j ≡ false → lookup j (erase k d) ≡ lookup j d
  unfolding lookup erase
  lookup-erase_other j k [] h = refl
  lookup-erase_other j k ((i, w) ∷ d) h =
      ground (arith, lookup-erase_other j k d h, text_eq_iff k j, text_eq_iff i k, text_eq_iff i j)

  pub lookup-erase :
      (j k : Text) (d : Dict V)
      → NodupKeys d
      → lookup j (erase k d) ≡ (if text_eq k j then none else lookup j d)
  lookup-erase j k d h =
      ground (arith, lookup-erase_self k d h, lookup-erase_other j k d, text_eq_iff k j)

  pub insert-NodupKeys : (k : Text) (v : V) (d : Dict V) → NodupKeys d → NodupKeys (insert k v d)
  unfolding insert lookup
  insert-NodupKeys k v [] h = (refl, tt)
  insert-NodupKeys k v ((i, w) ∷ d) h =
      ground
        (arith, insert-NodupKeys k v d h.1, lookup-insert i k v d, text_eq_iff i k, text_eq_iff k i)

  pub erase-NodupKeys : (k : Text) (d : Dict V) → NodupKeys d → NodupKeys (erase k d)
  unfolding erase
  erase-NodupKeys k [] h = h
  erase-NodupKeys k ((i, w) ∷ d) h =
      ground
        (arith, erase-NodupKeys k d h.1, lookup-erase_other i k d, text_eq_iff i k, text_eq_iff k i)
