-- ===== src/Domain/Classify.antt =====
-- The chain of patterns: which lines are taken for what.
use scmdb_log_watcher_es.Base.{
  ◌≡◌, refl, subst, Option, none, some, [], ◌∷◌, Option-cases, inl, inr,
}
use scmdb_log_watcher_es.Text.{Text}
use scmdb_log_watcher_es.Regex.{
  Class, Pattern, Groups, search_in, Found, Captured, search_in-Found, Found-search_in,
  Found-Captured, classes,
}
use scmdb_log_watcher_es.Domain.Line.{
  pattern_marker, pattern_accepted, pattern_end_mission, pattern_blueprint, group1, group2, group3,
  LogLine, marker, accepted, end_mission, blueprint, other, classify,
}

-- The pattern matches nowhere in the line.
abbrev pub Absent : Pattern → Text → Type 0
Absent p line = (g : Groups) → ¬ Found p line g

-- The groups of a match of three groups.
triple-Captured :
    (a b c : Class) (g : Groups)
    → Captured (a ∷ b ∷ c ∷ []) g
    → g ≡ group1 g ∷ group2 g ∷ group3 g ∷ []
triple-Captured a b c [] h = absurd h
triple-Captured a b c (x ∷ []) h = absurd (h.2)
triple-Captured a b c (x ∷ y ∷ []) h = absurd (h.2.2)
triple-Captured a b c (x ∷ y ∷ z ∷ []) h = refl
triple-Captured a b c (x ∷ y ∷ z ∷ w ∷ g) h = absurd (h.2.2.2)

single-Captured : (a : Class) (g : Groups) → Captured (a ∷ []) g → g ≡ group1 g ∷ []
single-Captured a [] h = absurd h
single-Captured a (x ∷ []) h = refl
single-Captured a (x ∷ y ∷ g) h = absurd (h.2)

-- What a classified line must be, with no search in it.
abbrev pub Describes : Text → LogLine → Type 0
Describes line (marker guid generator contract) =
    Found pattern_marker line (guid ∷ generator ∷ contract ∷ [])
Describes line (accepted guid) =
    Absent pattern_marker line × Found pattern_accepted line (guid ∷ [])
Describes line (end_mission guid completion reason) =
    Absent pattern_marker line
    × Absent pattern_accepted line
    × Found pattern_end_mission line (guid ∷ completion ∷ reason ∷ [])
Describes line (blueprint name) =
    Absent pattern_marker line
    × Absent pattern_accepted line
    × Absent pattern_end_mission line
    × Found pattern_blueprint line (name ∷ [])
Describes line other =
    Absent pattern_marker line
    × Absent pattern_accepted line
    × Absent pattern_end_mission line
    × Absent pattern_blueprint line

none-Absent : (p : Pattern) (line : Text) → search_in p line ≡ none → Absent p line
none-Absent p line h g f = Found-search_in f h

triple-Found :
    (p : Pattern) {a b c : Class} (line : Text) (g : Groups)
    → classes p ≡ a ∷ b ∷ c ∷ []
    → search_in p line ≡ some g
    → Found p line (group1 g ∷ group2 g ∷ group3 g ∷ [])
triple-Found p line g e h =
    let f = search_in-Found p line g h in
    subst (λ x. Found p line x)
      (triple-Captured _ _ _ g (subst (λ x. Captured x g) e (Found-Captured f))) f

single-Found :
    (p : Pattern) {a : Class} (line : Text) (g : Groups)
    → classes p ≡ a ∷ []
    → search_in p line ≡ some g
    → Found p line (group1 g ∷ [])
single-Found p line g e h =
    let f = search_in-Found p line g h in
    subst (λ x. Found p line x)
      (single-Captured _ g (subst (λ x. Captured x g) e (Found-Captured f))) f

after_end-Describes :
    (line : Text)
    → Absent pattern_marker line
    → Absent pattern_accepted line
    → Absent pattern_end_mission line
    → (o : Option Groups) → search_in pattern_blueprint line ≡ o
    → Describes line (elim o [ some g ↦ blueprint (group1 g) | none ↦ other ])
unfolding pattern_blueprint
after_end-Describes line a b c none h = (a, b, c, none-Absent _ line h)
after_end-Describes line a b c (some g) h = (a, b, c, single-Found pattern_blueprint line g refl h)

-- A line is taken for a marker if the marker's pattern matches in it; else for an acceptance, an end
-- of a mission or a blueprint by the first of these patterns that matches; else for nothing. What
-- is taken from it are the groups of such a match.
pub classify-Describes : (line : Text) → Describes line (classify line)
unfolding classify
classify-Describes line = elim (Option-cases (search_in pattern_marker line)) [
  | inr (g, h) ↦
      rw (h, classify) (unfold pattern_marker in triple-Found pattern_marker line g refl h)
  | inl a ↦ elim (Option-cases (search_in pattern_accepted line)) [
    | inr (g, h) ↦
        rw (a, h, classify)
          (
            none-Absent _ line a,
            unfold pattern_accepted in single-Found pattern_accepted line g refl h,
          )
    | inl b ↦ elim (Option-cases (search_in pattern_end_mission line)) [
      | inr (g, h) ↦
          rw (a, b, h, classify)
            (
              none-Absent _ line a,
              none-Absent _ line b,
              unfold pattern_end_mission in triple-Found pattern_end_mission line g refl h,
            )
      | inl c ↦
          rw (a, b, c, classify)
            (after_end-Describes line (none-Absent _ line a) (none-Absent _ line b)
              (none-Absent _ line c) (search_in pattern_blueprint line) refl)
    ]
  ]
]
