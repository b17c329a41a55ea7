-- ===== src/Config/Language/Normal.antt =====
-- What `normalize_language` returns is a language code, and normalising it again changes nothing.
use scmdb_log_watcher_es.Base.{
  ℕ, ◌≡◌, refl, subst, sym, Bool, true, false, ◌||◌, none, some, List, [], ◌∷◌, All, ◌==◌, arith,
  Bool-cases, Option-cases, inl, inr, ◌⊎◌,
}
use scmdb_log_watcher_es.Text.{
  Text, codes, text_eq, is_space, lstrip_if, rstrip_if, strip, lower, lower_code, replace,
  or_default, split, onto_head,
}
use scmdb_log_watcher_es.Dict.{lookup, lookup-All}
use scmdb_log_watcher_es.Config.Language.{
  language_aliases, is_letter, is_letter_or_digit, all, all_parts, is_language_code, code_parts,
  cleaned, fallback_of, aliased, normalize_language,
}

-- A character of a language code.
abbrev is_plain : ℕ → Bool
is_plain c = is_letter_or_digit c || c == b'-'

-- An alias leads to one of the keys that stand for themselves.
abbrev Stands : Text → Type 0
Stands t = (lookup t language_aliases ≡ some t) × (is_language_code t ≡ true)

language_aliases-Stands : All (λ (k, v). Stands v) language_aliases
unfolding lookup text_eq is_language_code language_aliases
language_aliases-Stands = (
  (refl, refl),
  (
    (refl, refl),
    (
      (refl, refl),
      (
        (refl, refl),
        (
          (refl, refl),
          (
            (refl, refl),
            (
              (refl, refl),
              (
                (refl, refl),
                (
                  (refl, refl),
                  (
                    (refl, refl),
                    (
                      (refl, refl),
                      (
                        (refl, refl),
                        (
                          (refl, refl),
                          (
                            (refl, refl),
                            (
                              (refl, refl),
                              ((refl, refl), ((refl, refl), ((refl, refl), ((refl, refl), tt)))),
                            ),
                          ),
                        ),
                      ),
                    ),
                  ),
                ),
              ),
            ),
          ),
        ),
      ),
    ),
  ),
)

spanish : Stands (codes "es-es")
unfolding lookup text_eq is_language_code language_aliases
spanish = (refl, refl)

all-map :
    (p q : ℕ → Bool)
    → ((c : ℕ) → p c ≡ true → q c ≡ true)
    → (s : Text) → all p s ≡ true
    → all q s ≡ true
unfolding all
all-map p q f [] h = refl
all-map p q f (c ∷ s) h = ground (arith, f c, all-map p q f s)

abbrev AllPlain : List Text → Type 0
AllPlain parts = All (λ part. all is_letter_or_digit part ≡ true) parts

onto_head-AllPlain :
    (c : ℕ) (parts : List Text)
    → AllPlain (onto_head c parts)
    → (is_letter_or_digit c ≡ true) × AllPlain parts
unfolding all
onto_head-AllPlain c [] h = (ground (arith, h.0), tt)
onto_head-AllPlain c (part ∷ parts) h = (ground (arith, h.0), (ground (arith, h.0), h.1))

split-plain : (s : Text) → AllPlain (split b'-' s) → all is_plain s ≡ true
unfolding split all
split-plain [] h = refl
split-plain (c ∷ s) h = elim (Bool-cases (c == b'-')) [
  | inl dash ↦
      let k : AllPlain ([] ∷ split b'-' s) = rw dash at h in
      let r = split-plain s k.1 in ground (arith, r, dash)
  | inr other ↦
      let k : AllPlain (onto_head c (split b'-' s)) = rw other at h in
      let (plain, rest) = onto_head-AllPlain c (split b'-' s) k in
      let r = split-plain s rest in ground (arith, r, plain)
]

all_parts-AllPlain : (parts : List Text) → all_parts parts ≡ true → AllPlain parts
unfolding all_parts
all_parts-AllPlain [] h = tt
all_parts-AllPlain (part ∷ parts) h =
    (ground (arith, h), all_parts-AllPlain parts (ground (arith, h)))

code_parts-AllPlain : (parts : List Text) → code_parts parts ≡ true → AllPlain parts
code_parts-AllPlain [] h = tt
code_parts-AllPlain (head ∷ parts) h = (
  all-map is_letter is_letter_or_digit (λ c e. ground (arith, e)) head (ground (arith, h)),
  all_parts-AllPlain parts (ground (arith, h)),
)

is_language_code-plain : (s : Text) → is_language_code s ≡ true → all is_plain s ≡ true
unfolding is_language_code
is_language_code-plain s h = split-plain s (code_parts-AllPlain (split b'-' s) h)

lstrip_if-plain : (s : Text) → all is_plain s ≡ true → lstrip_if is_space s ≡ s
unfolding lstrip_if is_space all
lstrip_if-plain [] h = refl
lstrip_if-plain (c ∷ s) h = ground (arith, h)

rstrip_if-plain : (s : Text) → all is_plain s ≡ true → rstrip_if is_space s ≡ s
unfolding rstrip_if is_space all
rstrip_if-plain [] h = refl
rstrip_if-plain (c ∷ []) h = ground (arith, h)
rstrip_if-plain (c ∷ d ∷ s) h = rw (rstrip_if-plain (d ∷ s) (ground (arith, h))) refl

lower-plain : (s : Text) → all is_plain s ≡ true → lower s ≡ s
unfolding lower lower_code all
lower-plain [] h = refl
lower-plain (c ∷ s) h = ground (arith, lower-plain s, h)

replace-plain : (s : Text) → all is_plain s ≡ true → replace b'_' b'-' s ≡ s
unfolding replace all
replace-plain [] h = refl
replace-plain (c ∷ s) h = ground (arith, replace-plain s, h)

cleaned-plain : (s : Text) → all is_plain s ≡ true → cleaned s ≡ s
unfolding cleaned strip
cleaned-plain s h =
    rw (lstrip_if-plain s h, rstrip_if-plain s h, lower-plain s h, replace-plain s h) refl

-- What `normalize_language` returns: an alias's code, or a code that is no alias.
abbrev Normal : Text → Type 0
Normal t =
    (is_language_code t ≡ true)
    × ((lookup t language_aliases ≡ some t) ⊎ (lookup t language_aliases ≡ none))

Stands-Normal : (t : Text) → Stands t → Normal t
Stands-Normal t (found, is_code) = (is_code, inl found)

fallback_of-Stands : (default : Text) → Stands (fallback_of default)
fallback_of-Stands default = elim (Option-cases (lookup (cleaned default) language_aliases)) [
  | inl e ↦ rw e spanish
  | inr (code, e) ↦
      rw e (lookup-All Stands (cleaned default) code language_aliases language_aliases-Stands e)
]

normalize_language-Normal : (value default : Text) → Normal (normalize_language value default)
unfolding normalize_language
normalize_language-Normal value default =
    let language = or_default (cleaned value) (fallback_of default) in
    elim (Option-cases (lookup language language_aliases)) [
      | inr (code, e) ↦ rw e (
          Stands-Normal code
            (lookup-All Stands language code language_aliases language_aliases-Stands e))
      | inl e ↦ elim (Bool-cases (is_language_code language)) [
        | inl y ↦ rw (e, y) (y, inr e)
        | inr n ↦ rw (e, n) (Stands-Normal (fallback_of default) (fallback_of-Stands default))
      ]
    ]

empty_no_code : is_language_code [] ≡ false
unfolding is_language_code
empty_no_code = refl

Normal-normalize_language : (t default : Text) → Normal t → normalize_language t default ≡ t
unfolding normalize_language
Normal-normalize_language [] default (is_code, known) =
    let no : is_language_code [] ≡ false = empty_no_code in absurd (ground (arith, no, is_code))
Normal-normalize_language (c ∷ s) default (is_code, known) =
    let t = c ∷ s in
    let fallback = fallback_of default in
    subst
      (λ w.
        aliased (lookup (or_default w fallback) language_aliases) (or_default w fallback) fallback
        ≡ t)
      (sym (cleaned-plain t (is_language_code-plain t is_code)))
      (elim known [ inl found ↦ rw found refl | inr not_found ↦ rw (not_found, is_code) refl ])

-- Whatever is normalised, with whatever default, the result matches the pattern of language codes,
-- and normalising it again, with any default, gives it back.
pub normalize_language_lem :
    (value default other : Text)
    → (is_language_code (normalize_language value default) ≡ true)
      × (normalize_language (normalize_language value default) other
          ≡ normalize_language value default)
normalize_language_lem value default other =
    let normal = normalize_language-Normal value default in
    (normal.0, Normal-normalize_language (normalize_language value default) other normal)
