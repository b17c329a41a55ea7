-- ===== src/Runtime/Ports.antt =====
-- python/scmdb_watcher/runtime_service.py, the choice of a port.
use scmdb_log_watcher_es.Base.{
  ℕ, zero, suc, ◌+◌, ◌≤◌, ◌<◌, ◌≡◌, refl, sym, subst, Bool, true, false, ◌||◌, Option, none, some,
  [], ◌∷◌, ◌==◌, arith, ◌⊎◌, Bool-cases, inl, inr, ltb, if◌then◌else◌,
}
use scmdb_log_watcher_es.Text.{Text, codes, lower, starts_with}

-- `sub in s`
unfoldable pub has_part : Text → Text → Bool
has_part [] sub = starts_with [] sub
has_part (c ∷ s) sub = starts_with (c ∷ s) sub || has_part s sub

-- `_is_address_in_use`: the `errno`, if there is one, and `str(error)`.
abbrev pub known_errno : Option ℕ → Bool
known_errno none = false
known_errno (some n) = n == 48 || n == 98 || n == 10048

unfoldable pub is_address_in_use : Option ℕ → Text → Bool
unfolding has_part
is_address_in_use errno message =
    known_errno errno
    || has_part (lower message) (codes "address already in use")
    || has_part (lower message) (codes "only one usage")

-- What `make_server` does at a port: it returns a server, or raises an `OSError`.
pub data Made : Type 0 where
  made : Made
  os_error : Option ℕ → Text → Made

-- A server with its port, the error that was raised at once, or the last of the errors.
pub data Bound : Type 0 where
  server : ℕ → Bound
  raised : ℕ → Bound
  all_in_use : Bound

abbrev pub or_next : Made → ℕ → Bound → Bound
or_next made candidate next = server candidate
or_next (os_error errno message) candidate next =
    if is_address_in_use errno message then next else raised candidate

-- The loop over the offsets, from a candidate on.
unfoldable pub try_ports : (ℕ → Made) → ℕ → ℕ → Bound
try_ports make candidate zero = all_in_use
try_ports make candidate (suc attempts) =
    or_next (make candidate) candidate (try_ports make (candidate + 1) attempts)

-- `max(1, n)`
abbrev pub at_least_one : ℕ → ℕ
at_least_one n = if ltb n 1 then 1 else n

unfoldable pub create_server_with_fallback : (ℕ → Made) → ℕ → ℕ → Bound
unfolding try_ports
create_server_with_fallback make preferred_port max_attempts =
    try_ports make preferred_port (at_least_one max_attempts)

-- The loop of `choose_available_port`: whether `bind` succeeds at a port.
unfoldable pub first_free : (ℕ → Bool) → ℕ → ℕ → Option ℕ
first_free binds candidate zero = none
first_free binds candidate (suc n) =
    let rest = first_free binds (candidate + 1) n in
    if binds candidate then some candidate else rest

abbrev pub port_or : ℕ → Option ℕ → ℕ
port_or default none = default
port_or default (some port) = port

unfoldable pub choose_available_port : (ℕ → Bool) → ℕ → ℕ → ℕ
unfolding first_free
choose_available_port binds preferred_port search_span =
    port_or preferred_port (first_free binds preferred_port (at_least_one (search_span + 1)))

-- The error of a port in use.
abbrev pub InUse : Made → Type 0
InUse made = ⊥
InUse (os_error errno message) = is_address_in_use errno message ≡ true

-- Any other error.
abbrev pub Other : Made → Type 0
Other made = ⊥
Other (os_error errno message) = is_address_in_use errno message ≡ false

-- The ports from `low` up to `high`, without it, are in use.
abbrev pub AllInUse : (ℕ → Made) → ℕ → ℕ → Type 0
AllInUse make low high = (p : ℕ) → low ≤ p → p < high → InUse (make p)

abbrev pub Outcome : (ℕ → Made) → ℕ → ℕ → Bound → Type 0
Outcome make low high (server p) = (low ≤ p) × (p < high) × (make p ≡ made) × AllInUse make low p
Outcome make low high (raised p) = (low ≤ p) × (p < high) × Other (make p) × AllInUse make low p
Outcome make low high all_in_use = AllInUse make low high

at_or_above : (a b : ℕ) → a ≤ b → (a ≡ b) ⊎ (a + 1 ≤ b)
at_or_above a b h = omega arith

module _ (make : ℕ → Made) where
  more-InUse :
      (low high : ℕ) → InUse (make low) → AllInUse make (low + 1) high → AllInUse make low high
  more-InUse low high h rest p from below = elim (at_or_above low p from) [
    | inl e ↦ subst (λ q. InUse (make q)) e h
    | inr further ↦ rest p further below
  ]

  none_below : (low : ℕ) → AllInUse make low low
  none_below low p from below = absurd (omega (arith, from, below))

  -- The outcome of the later ports is that of all, if the first is in use.
  Outcome-later :
      (low high : ℕ) (b : Bound)
      → InUse (make low)
      → Outcome make (low + 1) high b
      → Outcome make low high b
  Outcome-later low high (server p) h (from, below, is_made, rest) =
      (omega (arith, from), below, is_made, more-InUse low p h rest)
  Outcome-later low high (raised p) h (from, below, other, rest) =
      (omega (arith, from), below, other, more-InUse low p h rest)
  Outcome-later low high all_in_use h rest = more-InUse low high h rest

  or_next-Outcome :
      (first : Made) (low n : ℕ) (next : Bound)
      → make low ≡ first
      → Outcome make (low + 1) (low + 1 + n) next
      → Outcome make low (low + suc n) (or_next first low next)
  or_next-Outcome made low n next e o = (omega arith, omega arith, e, none_below low)
  or_next-Outcome (os_error errno message) low n next e o =
      elim (Bool-cases (is_address_in_use errno message)) [
        | inl y ↦ rw y (
            subst (λ high. Outcome make low high next) (omega arith)
              (Outcome-later low (low + 1 + n) next (subst InUse (sym e) y) o))
        | inr k ↦ rw k (omega arith, omega arith, subst Other (sym e) k, none_below low)
      ]

  try_ports-Outcome : (n low : ℕ) → Outcome make low (low + n) (try_ports make low n)
  unfolding try_ports
  try_ports-Outcome zero low = λ p from below. absurd (omega (arith, from, below))
  try_ports-Outcome (suc n) low =
      or_next-Outcome (make low) low n (try_ports make (low + 1) n) refl
        (try_ports-Outcome n (low + 1))

  -- The server comes at the first of the ports, from the preferred one on, at which one can be made,
  -- and all before it are in use. Any other error than that of a port in use is raised at once, at
  -- the first port that has it; and if no port is left, all of them, one at least, are in use.
  pub create_server_with_fallback-Outcome :
      (preferred_port max_attempts : ℕ)
      → Outcome make preferred_port
          (preferred_port + at_least_one max_attempts)
          (create_server_with_fallback make preferred_port max_attempts)
  unfolding create_server_with_fallback
  create_server_with_fallback-Outcome preferred_port max_attempts =
      try_ports-Outcome (at_least_one max_attempts) preferred_port
