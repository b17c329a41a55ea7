-- ===== src/Runtime/Update.antt =====
-- python/scmdb_watcher/update_service.py: the order of versions. Digits are the ASCII ones.
use scmdb_log_watcher_es.Base.{
  ℕ, ◌+◌, ◌*◌, ◌-◌, ◌≡◌, refl, Bool, true, false, ◌&&◌, ◌||◌, List, [], ◌∷◌, leb, ltb, ◌==◌, arith,
  if◌then◌else◌,
}
use scmdb_log_watcher_es.Text.{Text, strip, lower, split, lstrip_if}

abbrev is_digit : ℕ → Bool
is_digit c = leb b'0' c && leb c b'9'

-- `int(m.group(1))` of `re.match(r"(\d+)", part)`, and 0 without a match.
unfoldable pub leading_number : ℕ → Text → ℕ
leading_number n [] = n
leading_number n (c ∷ s) =
    let rest = leading_number (10 * n + (c - b'0')) s in if is_digit c then rest else n

-- The numbers of the parts that are not empty.
abbrev pub number_of : Text → List ℕ → List ℕ
number_of [] numbers = numbers
number_of (c ∷ s) numbers = leading_number 0 (c ∷ s) ∷ numbers

unfoldable pub part_numbers : List Text → List ℕ
unfolding leading_number
part_numbers [] = []
part_numbers (part ∷ parts) = number_of part (part_numbers parts)

-- `nums or [0]`
abbrev pub or_zero : List ℕ → List ℕ
or_zero [] = 0 ∷ []
or_zero (n ∷ ns) = n ∷ ns

unfoldable pub version_tuple : Text → List ℕ
unfolding part_numbers
version_tuple text =
    or_zero (part_numbers (split b'.' (lstrip_if (λ c. c == b'v') (lower (strip text)))))

-- `a > b`, for tuples.
unfoldable pub greater : List ℕ → List ℕ → Bool
greater [] b = false
greater (m ∷ a) [] = true
greater (m ∷ a) (n ∷ b) = let rest = greater a b in ltb n m || (m == n && rest)

abbrev is_given : Text → Bool
is_given [] = false
is_given (c ∷ s) = true

unfoldable pub has_update : Text → Text → Bool
unfolding version_tuple greater
has_update latest current =
    is_given latest && greater (version_tuple latest) (version_tuple current)

greater_irrefl : (a : List ℕ) → greater a a ≡ false
unfolding greater
greater_irrefl [] = refl
greater_irrefl (m ∷ a) = ground (arith, greater_irrefl a)

greater_trans : (a b c : List ℕ) → greater a b ≡ true → greater b c ≡ true → greater a c ≡ true
unfolding greater
greater_trans [] b c h k = ground (arith, h)
greater_trans (m ∷ a) [] c h k = ground (arith, k)
greater_trans (m ∷ a) (n ∷ b) [] h k = refl
greater_trans (m ∷ a) (n ∷ b) (o ∷ c) h k = ground (arith, h, k, greater_trans a b c)

-- An update is a strict order: no version is an update of itself, and an update of an update is one.
pub has_update_trans :
    (a b c : Text)
    → (has_update a a ≡ false)
      × (has_update a b ≡ true → has_update b c ≡ true → has_update a c ≡ true)
unfolding has_update
has_update_trans a b c =
    let va = version_tuple a in
    let vb = version_tuple b in
    let vc = version_tuple c in
    (ground (arith, greater_irrefl va), λ h k. ground (arith, h, k, greater_trans va vb vc))
