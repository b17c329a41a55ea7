-- ===== src/Runtime/Origins.antt =====
-- python/scmdb_watcher/live_runtime_service.py, `build_allowed_origins`: sets of texts as lists.
use scmdb_log_watcher_es.Base.{
  ◌≡◌, refl, ap, sym, ◌∙◌, ◌↔◌, ◌⊎◌, inl, inr, Bool, true, false, ◌||◌, List, [], ◌∷◌, ◌++◌, arith,
  In, In-append_left, In-append_right, Bool-cases, if◌then◌else◌,
}
use scmdb_log_watcher_es.Text.{Text, codes, strip, split}

abbrev pub is_given : Text → Bool
is_given [] = false
is_given (c ∷ s) = true

-- `{origin.strip() for origin in ... if origin.strip()}`
unfoldable pub stripped_origins : List Text → List Text
stripped_origins [] = []
stripped_origins (origin ∷ origins) =
    let rest = stripped_origins origins in
    if is_given (strip origin) then strip origin ∷ rest else rest

unfoldable pub build_allowed_origins : List Text → List Text → Bool → Text → List Text
unfolding stripped_origins
build_allowed_origins prod_origins dev_origins_default dev_flag dev_origins_raw =
    prod_origins
    ++ ((if dev_flag || is_given dev_origins_raw then dev_origins_default else [])
        ++ (if is_given dev_origins_raw then stripped_origins (split b',' dev_origins_raw) else []))

-- `PROD_ORIGINS` and `DEV_ORIGINS_DEFAULT` of python/watcher.py.
abbrev pub prod_origins : List Text
prod_origins = codes "https://scmdb.net" ∷ codes "https://www.scmdb.net" ∷ []

abbrev pub dev_origins_default : List Text
dev_origins_default = codes "http://localhost:5173" ∷ codes "http://localhost:3000" ∷ []

module _ (o : Text) where
  In-append : (xs ys : List Text) → In o (xs ++ ys) → In o xs ⊎ In o ys
  In-append [] ys h = inr h
  In-append (x ∷ xs) ys (inl e) = inl (inl e)
  In-append (x ∷ xs) ys (inr h) = elim (In-append xs ys h) [ inl k ↦ inl (inr k) | inr k ↦ inr k ]

  -- One of the parts, without its outer spaces, and not empty.
  abbrev pub Named : List Text → Type 0
  Named [] = ⊥
  Named (part ∷ parts) = ((o ≡ strip part) × (is_given o ≡ true)) ⊎ Named parts

  In-stripped_origins : (parts : List Text) → In o (stripped_origins parts) → Named parts
  unfolding stripped_origins
  In-stripped_origins [] h = h
  In-stripped_origins (part ∷ parts) h = elim (Bool-cases (is_given (strip part))) [
    | inl y ↦
        let k : In o (strip part ∷ stripped_origins parts) = rw y at h in
        elim k [ inl e ↦ inl (e, ap is_given e ∙ y) | inr l ↦ inr (In-stripped_origins parts l) ]
    | inr n ↦ inr (In-stripped_origins parts (rw n at h))
  ]

  stripped_origins-In : (parts : List Text) → Named parts → In o (stripped_origins parts)
  unfolding stripped_origins
  stripped_origins-In [] h = h
  stripped_origins-In (part ∷ parts) (inl (e, given)) =
      let y : is_given (strip part) ≡ true = sym (ap is_given e) ∙ given in rw y (inl e)
  stripped_origins-In (part ∷ parts) (inr h) = elim (Bool-cases (is_given (strip part))) [
    | inl y ↦ rw y (inr (stripped_origins-In parts h))
    | inr n ↦ rw n (stripped_origins-In parts h)
  ]

  if-In : (b : Bool) (xs : List Text) → In o (if b then xs else []) ↔ ((b ≡ true) × In o xs)
  if-In true xs = (λ h. (refl, h), λ h. h.1)
  if-In false xs = (λ h. absurd h, λ h. absurd (ground (arith, h.0)))

  -- The allowed origins are those of production; those of development too, if the flag is given or
  -- further origins are; and of the further ones, those between the commas, without outer spaces and
  -- the empty ones. There are no others.
  pub build_allowed_origins_iff :
      (prod dev : List Text) (dev_flag : Bool) (raw : Text)
      → In o (build_allowed_origins prod dev dev_flag raw) ↔ (
          In o prod
          ⊎ (((dev_flag || is_given raw) ≡ true) × In o dev)
          ⊎ ((is_given raw ≡ true) × Named (split b',' raw)))
  unfolding build_allowed_origins
  build_allowed_origins_iff prod dev dev_flag raw =
      let with_dev = if dev_flag || is_given raw then dev else [] in
      let further = if is_given raw then stripped_origins (split b',' raw) else [] in
      let d = if-In (dev_flag || is_given raw) dev in
      let f = if-In (is_given raw) (stripped_origins (split b',' raw)) in
      (
        λ h. elim (In-append prod (with_dev ++ further) h) [
          | inl k ↦ inl k
          | inr k ↦ elim (In-append with_dev further k) [
            | inl l ↦ inr (inl (d.0 l))
            | inr l ↦
                let (given, i) = f.0 l in inr (inr (given, In-stripped_origins (split b',' raw) i))
          ]
        ],
        λ h. elim h [
          | inl k ↦ In-append_left o prod (with_dev ++ further) k
          | inr k ↦ In-append_right o prod (with_dev ++ further) (elim k [
            | inl l ↦ In-append_left o with_dev further (d.1 l)
            | inr (given, i) ↦
                In-append_right o with_dev further
                  (f.1 (given, stripped_origins-In (split b',' raw) i))
          ])
        ],
      )
