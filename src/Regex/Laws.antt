-- ===== src/Regex/Laws.antt =====
-- The matcher against a relation that has no search order in it: what it finds is a match, and it
-- finds one wherever there is one.
use scmdb_log_watcher_es.Base.{
  ℕ, ◌≡◌, ◌≢◌, refl, sym, ap, subst, ◌∙◌, true, false, none, some, [], ◌∷◌, ◌++◌, arith, ◌==◌,
  Bool-cases, Option-cases, inl, inr, append_assoc, append-nil,
}
use mathlib.Core.Option.{some-injective}
use scmdb_log_watcher_es.Text.{Text, newline}
use scmdb_log_watcher_es.Regex.Defs.{
  Class, in_class, lit, dots, dots_lazy, group, Pattern, Groups, greedy, lazy, capture, more,
  one_or_more, match, search_in,
}

-- Every code point is of the class.
abbrev pub IsRun : Class → Text → Type 0
IsRun cl [] = Unit
IsRun cl (c ∷ s) = (in_class cl c ≡ true) × IsRun cl s

-- `p` matches a beginning of the text, with the captured groups.
pub data Matches : Pattern → Text → Groups → Type 0 where
  done : {s : Text} → Matches [] s []
  byte :
      {x c : ℕ} {p : Pattern} {s : Text} {g : Groups}
      → (c == x) ≡ true
      → Matches p s g
      → Matches (lit x ∷ p) (c ∷ s) g
  leave : {p : Pattern} {s : Text} {g : Groups} → Matches p s g → Matches (dots ∷ p) s g
  skip :
      {c : ℕ} {p : Pattern} {s : Text} {g : Groups}
      → (c == newline) ≡ false
      → Matches (dots ∷ p) s g
      → Matches (dots ∷ p) (c ∷ s) g
  leave_lazy : {p : Pattern} {s : Text} {g : Groups} → Matches p s g → Matches (dots_lazy ∷ p) s g
  skip_lazy :
      {c : ℕ} {p : Pattern} {s : Text} {g : Groups}
      → (c == newline) ≡ false
      → Matches (dots_lazy ∷ p) s g
      → Matches (dots_lazy ∷ p) (c ∷ s) g
  run :
      {cl : Class} {c : ℕ} {t s rest : Text} {p : Pattern} {g : Groups}
      → in_class cl c ≡ true
      → IsRun cl t
      → s ≡ t ++ rest
      → Matches p rest g
      → Matches (group cl ∷ p) (c ∷ s) ((c ∷ t) ∷ g)

-- `p` matches somewhere in the text.
pub data Found : Pattern → Text → Groups → Type 0 where
  here : {p : Pattern} {s : Text} {g : Groups} → Matches p s g → Found p s g
  later : {c : ℕ} {p : Pattern} {s : Text} {g : Groups} → Found p s g → Found p (c ∷ s) g

abbrev Sound : Pattern → Type 0
Sound p = (s : Text) (g : Groups) → match p s ≡ some g → Matches p s g

-- The rest of a run, behind what has been captured.
record RunEnd (cl : Class) (p : Pattern) (cap s : Text) (g : Groups) : Type 0 where
  tail : Text
  rest : Text
  others : Groups
  is_run : IsRun cl tail
  splits : s ≡ tail ++ rest
  captured : g ≡ (cap ++ tail) ∷ others
  found : match p rest ≡ some others

module _ (p : Pattern) (sound : Sound p) where
  greedy-Matches : (s : Text) (g : Groups) → greedy (match p) s ≡ some g → Matches (dots ∷ p) s g
  unfolding greedy
  greedy-Matches [] g h = leave (sound [] g h)
  greedy-Matches (c ∷ s) g h = elim (Bool-cases (c == newline)) [
    | inl e ↦ leave (sound (c ∷ s) g (ground arith))
    | inr n ↦ elim (Option-cases (greedy (match p) s)) [
      | inl o ↦ leave (sound (c ∷ s) g (ground arith))
      | inr (g', o) ↦ skip n (greedy-Matches s g (ground arith))
    ]
  ]

  lazy-Matches : (s : Text) (g : Groups) → lazy (match p) s ≡ some g → Matches (dots_lazy ∷ p) s g
  unfolding lazy
  lazy-Matches [] g h = leave_lazy (sound [] g h)
  lazy-Matches (c ∷ s) g h = elim (Option-cases (match p (c ∷ s))) [
    | inr (g', o) ↦ leave_lazy (sound (c ∷ s) g (ground arith))
    | inl o ↦ elim (Bool-cases (c == newline)) [
      | inl e ↦ absurd (ground arith)
      | inr n ↦ skip_lazy n (lazy-Matches s g (ground arith))
    ]
  ]

module _ (cl : Class) (p : Pattern) where
  stop : (cap s : Text) (g : Groups) → capture cap (match p s) ≡ some g → RunEnd cl p cap s g
  unfolding capture
  stop cap s g h = elim (Option-cases (match p s)) [
    | inl o ↦ absurd (ground arith)
    | inr (g', o) ↦ record {
      tail = [];
      rest = s;
      others = g';
      is_run = tt;
      splits = refl;
      captured = rw append-nil (ground arith);
      found = o;
    }
  ]

  more-RunEnd : (cap s : Text) (g : Groups) → more cl (match p) cap s ≡ some g → RunEnd cl p cap s g
  unfolding more
  more-RunEnd cap [] g h = stop cap [] g h
  more-RunEnd cap (c ∷ s) g h = elim (Bool-cases (in_class cl c)) [
    | inr n ↦ stop cap (c ∷ s) g (ground arith)
    | inl y ↦ elim (Option-cases (more cl (match p) (cap ++ c ∷ []) s)) [
      | inl o ↦ stop cap (c ∷ s) g (ground arith)
      | inr (g', o) ↦
          let r = more-RunEnd (cap ++ c ∷ []) s g (ground arith) in
          record {
            tail = c ∷ r.tail;
            rest = r.rest;
            others = r.others;
            is_run = (y, r.is_run);
            splits = ap (λ t. c ∷ t) r.splits;
            captured = r.captured ∙ rw append_assoc;
            found = r.found;
          }
    ]
  ]

group-Matches :
    (cl : Class) (p : Pattern)
    → Sound p
    → (s : Text) (g : Groups) → one_or_more cl (match p) s ≡ some g
    → Matches (group cl ∷ p) s g
unfolding one_or_more
group-Matches cl p sound [] g h = absurd (ground arith)
group-Matches cl p sound (c ∷ s) g h = elim (Bool-cases (in_class cl c)) [
  | inr n ↦ absurd (ground arith)
  | inl y ↦
      let r = more-RunEnd cl p (c ∷ []) s g (ground arith) in
      subst (λ x. Matches (group cl ∷ p) (c ∷ s) x) (sym r.captured)
        (run y r.is_run r.splits (sound r.rest r.others r.found))
]

-- What the matcher returns are the groups of a match.
pub match-Matches : (p : Pattern) (s : Text) (g : Groups) → match p s ≡ some g → Matches p s g
unfolding match
match-Matches [] s g h = subst (λ x. Matches [] s x) (some-injective _ _ h) done
match-Matches (lit x ∷ p) [] g h = absurd (ground arith)
match-Matches (lit x ∷ p) (c ∷ s) g h = elim (Bool-cases (c == x)) [
  | inl y ↦ byte y (match-Matches p s g (ground arith))
  | inr n ↦ absurd (ground arith)
]
match-Matches (dots ∷ p) s g h = greedy-Matches p (match-Matches p) s g h
match-Matches (dots_lazy ∷ p) s g h = lazy-Matches p (match-Matches p) s g h
match-Matches (group cl ∷ p) s g h = group-Matches cl p (match-Matches p) s g h

pub search_in-Found : (p : Pattern) (s : Text) (g : Groups) → search_in p s ≡ some g → Found p s g
unfolding search_in
search_in-Found p [] g h = here (match-Matches p [] g h)
search_in-Found p (c ∷ s) g h = elim (Option-cases (match p (c ∷ s))) [
  | inr (g', o) ↦ here (match-Matches p (c ∷ s) g (ground arith))
  | inl o ↦ later (search_in-Found p s g (ground arith))
]

greedy-ne_none :
    (p : Pattern) (s : Text) (g : Groups) → match p s ≢ none → greedy (match p) s ≢ none
unfolding greedy
greedy-ne_none p [] g h = h
greedy-ne_none p (c ∷ s) g h = ground arith

lazy-ne_none : (p : Pattern) (s : Text) → match p s ≢ none → lazy (match p) s ≢ none
unfolding lazy
lazy-ne_none p [] h = h
lazy-ne_none p (c ∷ s) h = ground arith

more-ne_none :
    (cl : Class) (p : Pattern) (cap t rest : Text)
    → IsRun cl t
    → match p rest ≢ none
    → more cl (match p) cap (t ++ rest) ≢ none
unfolding more
more-ne_none cl p cap [] [] r h = ground arith
more-ne_none cl p cap [] (c ∷ rest) r h = ground arith
more-ne_none cl p cap (c ∷ t) rest r h =
    ground (arith, more-ne_none cl p (cap ++ c ∷ []) t rest r.1 h)

greedy-skip :
    (p : Pattern) (c : ℕ) (s : Text)
    → (c == newline) ≡ false
    → greedy (match p) s ≢ none
    → greedy (match p) (c ∷ s) ≢ none
unfolding greedy
greedy-skip p c s e h = ground arith

lazy-skip :
    (p : Pattern) (c : ℕ) (s : Text)
    → (c == newline) ≡ false
    → lazy (match p) s ≢ none
    → lazy (match p) (c ∷ s) ≢ none
unfolding lazy
lazy-skip p c s e h = ground arith

one_or_more-ne_none :
    (cl : Class) (p : Pattern) (c : ℕ) (t rest : Text)
    → in_class cl c ≡ true
    → IsRun cl t
    → match p rest ≢ none
    → one_or_more cl (match p) (c ∷ (t ++ rest)) ≢ none
unfolding one_or_more
one_or_more-ne_none cl p c t rest y r h = ground (arith, more-ne_none cl p (c ∷ []) t rest r h)

-- Where there is a match, the matcher finds one.
pub Matches-match : {p : Pattern} {s : Text} {g : Groups} → Matches p s g → match p s ≢ none
unfolding match
Matches-match done = λ h. cc
Matches-match (byte e m) = ground (arith, Matches-match m)
Matches-match (leave {s = s} {g = g} m) = greedy-ne_none _ s g (Matches-match m)
Matches-match (skip {c = c} {p = p} {s = s} e m) = greedy-skip p c s e (Matches-match m)
Matches-match (leave_lazy {s = s} m) = lazy-ne_none _ s (Matches-match m)
Matches-match (skip_lazy {c = c} {p = p} {s = s} e m) = lazy-skip p c s e (Matches-match m)
Matches-match (run {cl = cl} {c = c} {t = t} {rest = rest} {p = p} y r e m) =
    subst (λ u. one_or_more cl (match p) (c ∷ u) ≢ none) (sym e)
      (one_or_more-ne_none cl p c t rest y r (Matches-match m))

pub Found-search_in : {p : Pattern} {s : Text} {g : Groups} → Found p s g → search_in p s ≢ none
unfolding search_in
Found-search_in (here {p = p} {s = []} m) = Matches-match m
Found-search_in (here {p = p} {s = c ∷ s} m) = ground (arith, Matches-match m)
Found-search_in (later f) = ground (arith, Found-search_in f)
