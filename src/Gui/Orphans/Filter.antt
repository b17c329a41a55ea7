-- ===== src/Gui/Orphans/Filter.antt =====
-- What the filter for orphans lets through, without a search in it.
use scmdb_log_watcher_es.Base.{
  ℕ, ◌≡◌, refl, sym, ap, ◌∙◌, subst, Bool, true, false, ◌&&◌, ◌||◌, [], ◌∷◌, ◌++◌, arith,
  Bool-cases, inl, inr, ◌⊎◌, &&_elim, &&_intro, ||_elim, ||_left, ||_right, ◌↔◌,
}
use scmdb_log_watcher_es.Text.{Text, codes, lower, lower_code}
use scmdb_log_watcher_es.Gui.Orphans.{
  Process, white_space, word_at, mode_at, somewhere, is_python, is_program, is_orphan,
}

-- A word ends here.
abbrev pub EndsWord : Text → Type 0
EndsWord [] = Unit
EndsWord (c ∷ s) = white_space c ≡ true

-- The text goes on with `w`, in letters of any case, as the end of a word.
abbrev pub Begins : Text → Text → Type 0
Begins w s = (m : Text) × (rest : Text) × (s ≡ m ++ rest) × (lower m ≡ w) × EndsWord rest

-- There are words that end with `w`.
abbrev pub Mentions : Text → Text → Type 0
Mentions w line = (before : Text) × (s : Text) × (line ≡ before ++ s) × Begins w s

-- `w` is one of the words, and not the first.
abbrev pub Argument : Text → Text → Type 0
Argument w line =
    (before : Text) × (c : ℕ) × (s : Text) × (line ≡ before ++ c ∷ s)
    × (white_space c ≡ true)
    × Begins w s

abbrev pub Orphan : Process → Type 0
Orphan p =
    ((is_python p.name ≡ true)
      × (Mentions (codes "launcher.py") p.command_line
          ⊎ Mentions (codes "watcher.py") p.command_line))
    ⊎ ((is_program p.name ≡ true)
        × (Argument (codes "core") p.command_line ⊎ Argument (codes "import") p.command_line))

word_at-Begins : (w s : Text) → word_at w s ≡ true → Begins w s
unfolding word_at lower
word_at-Begins [] [] h = ([], [], refl, refl, tt)
word_at-Begins [] (c ∷ s) h = ([], c ∷ s, refl, refl, h)
word_at-Begins (x ∷ w) [] h = absurd (ground (arith, h))
word_at-Begins (x ∷ w) (c ∷ s) h =
    let (m, rest, e, l, k) = word_at-Begins w s (ground (arith, h)) in
    let same : lower_code c ≡ x = ground (arith, h) in
    (c ∷ m, rest, ap (λ t. c ∷ t) e, ap (λ a. a ∷ lower m) same ∙ ap (λ t. x ∷ t) l, k)

pub word_at-append : (w m rest : Text) → lower m ≡ w → EndsWord rest → word_at w (m ++ rest) ≡ true
unfolding word_at lower
word_at-append [] [] [] l k = refl
word_at-append [] [] (c ∷ rest) l k = k
word_at-append [] (c ∷ m) rest l k = absurd (ground (arith, l))
word_at-append (x ∷ w) [] rest l k = absurd (ground (arith, l))
word_at-append (x ∷ w) (c ∷ m) rest l k =
    let same : lower_code c ≡ x = ground (arith, l) in
    let others : lower m ≡ w = ground (arith, l) in
    let h = word_at-append w m rest others k in ground (arith, same, h)

pub Begins-word_at : (w s : Text) → Begins w s → word_at w s ≡ true
Begins-word_at w s (m, rest, e, l, k) =
    subst (λ t. word_at w t ≡ true) (sym e) (word_at-append w m rest l k)

module _ (at : Text → Bool) where
  somewhere-split :
      (line : Text)
      → somewhere at line ≡ true
      → (before : Text) × (s : Text) × (line ≡ before ++ s) × (at s ≡ true)
  unfolding somewhere
  somewhere-split [] h = ([], [], refl, h)
  somewhere-split (c ∷ line) h = elim (Bool-cases (at (c ∷ line))) [
    | inl y ↦ ([], c ∷ line, refl, y)
    | inr n ↦
        let (before, s, e, y) = somewhere-split line (ground (arith, h, n)) in
        (c ∷ before, s, ap (λ t. c ∷ t) e, y)
  ]

  pub somewhere-append : (before s : Text) → at s ≡ true → somewhere at (before ++ s) ≡ true
  unfolding somewhere
  somewhere-append [] [] h = h
  somewhere-append [] (c ∷ s) h = ground (arith, h)
  somewhere-append (c ∷ before) s h = ground (arith, somewhere-append before s h)

somewhere-Mentions : (w line : Text) → somewhere (word_at w) line ≡ true ↔ Mentions w line
somewhere-Mentions w line = (
  λ h.
      let (before, s, e, y) = somewhere-split (word_at w) line h in
      (before, s, e, word_at-Begins w s y),
  λ m.
      let (before, s, e, b) = m in
      subst (λ t. somewhere (word_at w) t ≡ true) (sym e)
        (somewhere-append (word_at w) before s (Begins-word_at w s b)),
)

mode_at-word :
    (c : ℕ) (s : Text)
    → mode_at (c ∷ s) ≡ true
    → (white_space c ≡ true) × (Begins (codes "core") s ⊎ Begins (codes "import") s)
unfolding mode_at
mode_at-word c s h =
    let (k, words) = &&_elim (white_space c) _ h in
    elim (||_elim (word_at (codes "core") s) (word_at (codes "import") s) words) [
      | inl y ↦ (k, inl (word_at-Begins (codes "core") s y))
      | inr y ↦ (k, inr (word_at-Begins (codes "import") s y))
    ]

mode_at-nil : mode_at [] ≡ false
unfolding mode_at
mode_at-nil = refl

mode_at-words :
    (line before s : Text)
    → line ≡ before ++ s
    → mode_at s ≡ true
    → Argument (codes "core") line ⊎ Argument (codes "import") line
mode_at-words line before [] e y = absurd (ground (arith, mode_at-nil, y))
mode_at-words line before (c ∷ s) e y =
    let (k, b) = mode_at-word c s y in
    elim b [ inl m ↦ inl (before, c, s, e, k, m) | inr m ↦ inr (before, c, s, e, k, m) ]

pub somewhere-mode_at :
    (line : Text)
    → somewhere mode_at line ≡ true
    → Argument (codes "core") line ⊎ Argument (codes "import") line
somewhere-mode_at line h =
    let (before, s, e, y) = somewhere-split mode_at line h in mode_at-words line before s e y

pub Argument-somewhere :
    (w line : Text)
    → ((c : ℕ) (s : Text) → white_space c ≡ true → word_at w s ≡ true → mode_at (c ∷ s) ≡ true)
    → Argument w line
    → somewhere mode_at line ≡ true
Argument-somewhere w line mode (before, c, s, e, k, b) =
    subst (λ t. somewhere mode_at t ≡ true) (sym e)
      (somewhere-append mode_at before (c ∷ s) (mode c s k (Begins-word_at w s b)))

pub mode_at-core :
    (c : ℕ) (s : Text)
    → white_space c ≡ true
    → word_at (codes "core") s ≡ true
    → mode_at (c ∷ s) ≡ true
unfolding mode_at
mode_at-core c s k h = &&_intro (white_space c) _ k (||_left _ (word_at (codes "import") s) h)

pub mode_at-import :
    (c : ℕ) (s : Text)
    → white_space c ≡ true
    → word_at (codes "import") s ≡ true
    → mode_at (c ∷ s) ≡ true
unfolding mode_at
mode_at-import c s k h = &&_intro (white_space c) _ k (||_right (word_at (codes "core") s) _ h)

pub is_orphan-Orphan : (p : Process) → is_orphan p ≡ true → Orphan p
unfolding is_orphan
is_orphan-Orphan p h = elim (||_elim (is_python p.name && _) _ h) [
  | inl y ↦
      let (python, scripts) = &&_elim (is_python p.name) _ y in
      elim (||_elim (somewhere (word_at (codes "launcher.py")) p.command_line) _ scripts) [
        | inl z ↦ inl (python, inl ((somewhere-Mentions (codes "launcher.py") p.command_line).0 z))
        | inr z ↦ inl (python, inr ((somewhere-Mentions (codes "watcher.py") p.command_line).0 z))
      ]
  | inr y ↦
      let (program, modes) = &&_elim (is_program p.name) _ y in
      inr (program, somewhere-mode_at p.command_line modes)
]

pub python-script :
    (p : Process)
    → is_python p.name ≡ true
    → (somewhere (word_at (codes "launcher.py")) p.command_line
        || somewhere (word_at (codes "watcher.py")) p.command_line)
      ≡ true
    → is_orphan p ≡ true
unfolding is_orphan
python-script p h k =
    ||_left _ (is_program p.name && somewhere mode_at p.command_line)
      (&&_intro (is_python p.name) _ h k)

pub program-mode :
    (p : Process)
    → is_program p.name ≡ true
    → somewhere mode_at p.command_line ≡ true
    → is_orphan p ≡ true
unfolding is_orphan
program-mode p h k = ||_right _ _ (&&_intro (is_program p.name) _ h k)

pub Orphan-is_orphan : (p : Process) → Orphan p → is_orphan p ≡ true
Orphan-is_orphan p (inl (h, inl m)) =
    python-script p h (||_left _ _ ((somewhere-Mentions (codes "launcher.py") p.command_line).1 m))
Orphan-is_orphan p (inl (h, inr m)) = python-script p h (
    ||_right (somewhere (word_at (codes "launcher.py")) p.command_line) _
      ((somewhere-Mentions (codes "watcher.py") p.command_line).1 m))
Orphan-is_orphan p (inr (h, inl a)) =
    program-mode p h (Argument-somewhere (codes "core") p.command_line mode_at-core a)
Orphan-is_orphan p (inr (h, inr a)) =
    program-mode p h (Argument-somewhere (codes "import") p.command_line mode_at-import a)
