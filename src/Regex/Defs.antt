-- ===== src/Regex/Defs.antt =====
-- Python's `re`, as far as the program's patterns use it: literals, `.*` and `.*?`, and captured
-- groups of one or more code points of a class, tried by backtracking in the order of `re`.
use scmdb_log_watcher_es.Base.{
  ℕ, Bool, not, ◌&&◌, ◌||◌, true, false, Option, none, some, List, [], ◌∷◌, ◌++◌, map, leb, ◌==◌,
}
use scmdb_log_watcher_es.Text.{Text, newline}

pub data Class : Type 0 where
  -- `[^c]`
  not_of : ℕ → Class
  -- `\w`, over ASCII
  word : Class
  -- `[0-9T:\-.Z]`
  stamp : Class

abbrev is_digit : ℕ → Bool
is_digit c = leb b'0' c && leb c b'9'

unfoldable pub in_class : Class → ℕ → Bool
in_class (not_of x) c = not (c == x)
in_class word c =
    (leb b'a' c && leb c b'z') || (leb b'A' c && leb c b'Z') || is_digit c || c == b'_'
in_class stamp c = is_digit c || c == b'T' || c == b':' || c == b'-' || c == b'.' || c == b'Z'

pub data Item : Type 0 where
  lit : ℕ → Item
  dots : Item
  dots_lazy : Item
  group : Class → Item

abbrev pub Pattern : Type 0
Pattern = List Item

-- The literal pattern of a text.
abbrev pub lits : Text → Pattern
lits = map lit

abbrev pub Groups : Type 0
Groups = List Text

-- What the rest of a pattern makes of the rest of a text.
abbrev Rest : Type 0
Rest = Text → Option Groups

-- `.*`: as many code points as possible first.
unfoldable pub greedy : Rest → Text → Option Groups
greedy k [] = k []
greedy k (c ∷ s) = elim (c == newline) [
  | true ↦ k (c ∷ s)
  | false ↦ elim (greedy k s) [ some g ↦ some g | none ↦ k (c ∷ s) ]
]

-- `.*?`: as few code points as possible first.
unfoldable pub lazy : Rest → Text → Option Groups
lazy k [] = k []
lazy k (c ∷ s) = elim (k (c ∷ s)) [
  | some g ↦ some g
  | none ↦ elim (c == newline) [ true ↦ none | false ↦ lazy k s ]
]

unfoldable pub capture : Text → Option Groups → Option Groups
capture cap none = none
capture cap (some g) = some (cap ∷ g)

-- A group that has `cap` already: as many further code points as possible first.
unfoldable pub more : Class → Rest → Text → Text → Option Groups
unfolding capture
more cl k cap [] = capture cap (k [])
more cl k cap (c ∷ s) = elim (in_class cl c) [
  | true ↦ elim (more cl k (cap ++ c ∷ []) s) [ some g ↦ some g | none ↦ capture cap (k (c ∷ s)) ]
  | false ↦ capture cap (k (c ∷ s))
]

unfoldable pub one_or_more : Class → Rest → Text → Option Groups
one_or_more cl k [] = none
one_or_more cl k (c ∷ s) = elim (in_class cl c) [ true ↦ more cl k (c ∷ []) s | false ↦ none ]

-- `pattern.match(s)`: the captured groups of a match at the beginning of the text.
unfoldable pub match : Pattern → Text → Option Groups
unfolding greedy lazy more one_or_more in_class
match [] s = some []
match (lit x ∷ p) [] = none
match (lit x ∷ p) (c ∷ s) = elim (c == x) [ true ↦ match p s | false ↦ none ]
match (dots ∷ p) s = greedy (match p) s
match (dots_lazy ∷ p) s = lazy (match p) s
match (group cl ∷ p) s = one_or_more cl (match p) s

-- `pattern.search(s)`: at the first place where there is a match.
unfoldable pub search_in : Pattern → Text → Option Groups
unfolding match
search_in p [] = match p []
search_in p (c ∷ s) = elim (match p (c ∷ s)) [ some g ↦ some g | none ↦ search_in p s ]
