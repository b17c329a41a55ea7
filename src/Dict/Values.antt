-- ===== src/Dict/Values.antt =====
-- The values of a dict are what its keys map to.
use scmdb_log_watcher_es.Base.{◌≡◌, sym, some, [], ◌∷◌, arith, In, All, subst, inl, inr, Bool-cases}
use mathlib.Core.Option.{some-injective}
use scmdb_log_watcher_es.Text.{Text, text_eq, text_eq_iff}
use scmdb_log_watcher_es.Dict.Defs.{Dict, lookup, values, NodupKeys}

module _ {V : Type 0} where
  pub lookup-In-values : (k : Text) (v : V) (d : Dict V) → lookup k d ≡ some v → In v (values d)
  unfolding lookup values
  lookup-In-values k v [] h = absurd (ground arith)
  lookup-In-values k v ((j, w) ∷ d) h = elim (Bool-cases (text_eq j k)) [
    | inl same ↦ inl (sym (some-injective w v (ground arith)))
    | inr differ ↦ inr (lookup-In-values k v d (ground arith))
  ]

  pub In-values-lookup :
      (v : V) (d : Dict V) → NodupKeys d → In v (values d) → (k : Text) × (lookup k d ≡ some v)
  unfolding lookup values
  In-values-lookup v [] h m = absurd m
  In-values-lookup v ((j, w) ∷ d) h (inl e) = (j, ground (arith, text_eq_iff j j))
  In-values-lookup v ((j, w) ∷ d) h (inr m) =
      let (k, found) = In-values-lookup v d h.1 m in (k, ground (arith, text_eq_iff j k))

module _ {ℓ κ} {V : Type ℓ} (P : V → Type κ) where
  -- What holds of all values holds of what is found.
  pub lookup-All :
      (k : Text) (v : V) (d : Dict V) → All (λ (_, w). P w) d → lookup k d ≡ some v → P v
  unfolding lookup
  lookup-All k v [] h found = absurd (ground (arith, found))
  lookup-All k v ((j, w) ∷ d) h found = elim (Bool-cases (text_eq j k)) [
    | inl same ↦ subst P (some-injective w v (ground arith)) h.0
    | inr differ ↦ lookup-All k v d h.1 (ground arith)
  ]
