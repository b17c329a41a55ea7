-- ===== src/Config/Language.antt =====
-- python/scmdb_watcher/validators.py, the normalisation of channels and languages.
pub mod Normal
use scmdb_log_watcher_es.Base.{
  ℕ, zero, suc, Bool, true, false, not, ◌&&◌, ◌||◌, Option, none, some, List, [], ◌∷◌, length, leb,
  if◌then◌else◌,
}
use scmdb_log_watcher_es.Text.{
  Text, codes, contains, strip, lower, upper, replace, or_default, split,
}
use scmdb_log_watcher_es.Dict.{Dict, lookup}

-- `VALID_CHANNELS`
abbrev pub valid_channels : List Text
valid_channels = codes "LIVE" ∷ codes "HOTFIX" ∷ []

unfoldable pub normalize_channel : Text → Text → Text
normalize_channel value default =
    let channel = or_default (upper (strip value)) default in
    if contains valid_channels channel then channel else default

-- `LANGUAGE_ALIASES`
unfoldable pub language_aliases : Dict Text
language_aliases =
    (codes "de", codes "de-de")
    ∷ (codes "de-de", codes "de-de")
    ∷ (codes "en", codes "en-en")
    ∷ (codes "en-en", codes "en-en")
    ∷ (codes "es", codes "es-es")
    ∷ (codes "es-es", codes "es-es")
    ∷ (codes "fr", codes "fr-fr")
    ∷ (codes "fr-fr", codes "fr-fr")
    ∷ (codes "it", codes "it-it")
    ∷ (codes "it-it", codes "it-it")
    ∷ (codes "ja", codes "ja-jp")
    ∷ (codes "ja-jp", codes "ja-jp")
    ∷ (codes "pt", codes "pt-pt")
    ∷ (codes "pt-pt", codes "pt-pt")
    ∷ (codes "ru", codes "ru-ru")
    ∷ (codes "ru-ru", codes "ru-ru")
    ∷ (codes "zh", codes "zh-cn")
    ∷ (codes "zh-cn", codes "zh-cn")
    ∷ (codes "zh-hans", codes "zh-cn")
    ∷ []

abbrev pub is_letter : ℕ → Bool
is_letter c = leb b'a' c && leb c b'z'

abbrev pub is_letter_or_digit : ℕ → Bool
is_letter_or_digit c = is_letter c || (leb b'0' c && leb c b'9')

unfoldable pub all : (ℕ → Bool) → Text → Bool
all p [] = true
all p (c ∷ s) = p c && all p s

abbrev pub sized : ℕ → ℕ → Text → Bool
sized low high s = leb low (length s) && leb (length s) high

-- The parts behind the first: [a-z0-9]{2,4}
unfoldable pub all_parts : List Text → Bool
unfolding all
all_parts [] = true
all_parts (part ∷ parts) = (all is_letter_or_digit part && sized 2 4 part) && all_parts parts

abbrev is_filled : List Text → Bool
is_filled [] = false
is_filled (part ∷ parts) = true

abbrev pub code_parts : List Text → Bool
code_parts [] = false
code_parts (head ∷ parts) =
    (all is_letter head && sized 2 3 head) && (is_filled parts && all_parts parts)

-- `LANGUAGE_CODE_PATTERN`, ^[a-z]{2,3}(?:-[a-z0-9]{2,4})+$, on a text that does not end with a line
-- feed: no dash is of either class, so the parts are those between the dashes.
unfoldable pub is_language_code : Text → Bool
unfolding all_parts all split
is_language_code s = code_parts (split b'-' s)

-- `.strip().lower().replace("_", "-")`
unfoldable pub cleaned : Text → Text
cleaned value = replace b'_' b'-' (lower (strip value))

abbrev or_spanish : Option Text → Text
or_spanish none = codes "es-es"
or_spanish (some code) = code

abbrev pub fallback_of : Text → Text
fallback_of default = or_spanish (lookup (cleaned default) language_aliases)

abbrev pub aliased : Option Text → Text → Text → Text
aliased (some code) language fallback = code
aliased none language fallback = if is_language_code language then language else fallback

unfoldable pub normalize_language : Text → Text → Text
unfolding is_language_code cleaned
normalize_language value default =
    let language = or_default (cleaned value) (fallback_of default) in
    aliased (lookup language language_aliases) language (fallback_of default)
