-- ===== src/Text/Defs.antt =====
-- Python's `str` as the list of its code points, and the `str` and `bytes` methods the program calls.
-- `lower` and `upper` map the ASCII letters and leave every other code point alone.
use Prim.Native.Char.{code}
use scmdb_log_watcher_es.Base.{
  ℕ, ◌+◌, ◌-◌, String, Bool, true, false, ◌&&◌, ◌||◌, List, [], ◌∷◌, ◌++◌, map, leb, ◌==◌,
  if◌then◌else◌,
}

abbrev pub Text : Type 0
Text = List ℕ

-- The code points of a literal.
abbrev pub codes : String → Text
codes String.[] = []
codes (String.◌∷◌ c s) = code c ∷ codes s

-- `a == b`
unfoldable pub text_eq : Text → Text → Bool
text_eq [] [] = true
text_eq (a ∷ s) (b ∷ t) = a == b && text_eq s t
text_eq _ _ = false

-- `x in xs`, for a tuple or a set of strings.
unfoldable pub contains : List Text → Text → Bool
unfolding text_eq
contains [] t = false
contains (x ∷ xs) t = text_eq x t || contains xs t

abbrev pub newline : ℕ
newline = 10

abbrev pub carriage_return : ℕ
carriage_return = 13

-- `c.isspace()`
unfoldable pub is_space : ℕ → Bool
is_space c =
    (leb 9 c && leb c 13)
    || (leb 28 c && leb c 32)
    || c == 0x85
    || c == 0xa0
    || c == 0x1680
    || (leb 0x2000 c && leb c 0x200a)
    || c == 0x2028
    || c == 0x2029
    || c == 0x202f
    || c == 0x205f
    || c == 0x3000

-- Drops the leading code points of a class.
unfoldable pub lstrip_if : (ℕ → Bool) → Text → Text
lstrip_if p [] = []
lstrip_if p (c ∷ s) = let rest = lstrip_if p s in if p c then rest else c ∷ s

-- Drops the trailing code points of a class.
unfoldable pub rstrip_if : (ℕ → Bool) → Text → Text
rstrip_if p [] = []
rstrip_if p (c ∷ s) = elim (rstrip_if p s) [ [] ↦ if p c then [] else c ∷ [] | d ∷ t ↦ c ∷ d ∷ t ]

-- `s.strip()`
unfoldable pub strip : Text → Text
unfolding is_space lstrip_if rstrip_if
strip s = rstrip_if is_space (lstrip_if is_space s)

-- `s.lower()` and `s.upper()`
unfoldable pub lower_code : ℕ → ℕ
lower_code c = if leb b'A' c && leb c b'Z' then c + 32 else c

unfoldable pub upper_code : ℕ → ℕ
upper_code c = if leb b'a' c && leb c b'z' then c - 32 else c

unfoldable pub lower : Text → Text
unfolding lower_code
lower s = map lower_code s

unfoldable pub upper : Text → Text
unfolding upper_code
upper s = map upper_code s

-- `s.replace(a, b)`, for single characters.
unfoldable pub replace : ℕ → ℕ → Text → Text
replace a b s = map (λ c. if c == a then b else c) s

-- `s.replace(a, t)`, for a single character and a text.
unfoldable pub replace_by : ℕ → Text → Text → Text
replace_by a t [] = []
replace_by a t (c ∷ s) = let rest = replace_by a t s in if c == a then t ++ rest else c ∷ rest

-- `a or b`, for strings: the empty string is false.
abbrev pub or_default : Text → Text → Text
or_default [] d = d
or_default (c ∷ s) d = c ∷ s

-- Puts a code point in front of the first part.
abbrev pub onto_head : ℕ → List Text → List Text
onto_head c [] = (c ∷ []) ∷ []
onto_head c (p ∷ ps) = (c ∷ p) ∷ ps

-- `s.split(sep)`, for a single character: always at least one part.
unfoldable pub split : ℕ → Text → List Text
split sep [] = [] ∷ []
split sep (c ∷ s) = let rest = split sep s in if c == sep then [] ∷ rest else onto_head c rest

-- `s.startswith(p)`
unfoldable pub starts_with : Text → Text → Bool
starts_with s [] = true
starts_with [] (_ ∷ _) = false
starts_with (a ∷ s) (b ∷ p) = a == b && starts_with s p
