-- ===== src/Gui/Orphans/Lines.antt =====
-- The command lines of the program's processes, where the filter for orphans looks for its words.
use scmdb_log_watcher_es.Base.{
  ℕ, ◌≡◌, refl, ap, ◌∙◌, subst, Bool, true, false, not, ◌&&◌, ◌||◌, List, [], ◌∷◌, ◌++◌, ◌==◌, All,
  append-one, arith,
}
use scmdb_log_watcher_es.Text.{Text, codes, lower, lower_code}
use scmdb_log_watcher_es.Gui.Orphans.{
  Process, white_space, word_at, mode_at, somewhere, spaced, line_of,
}
use scmdb_log_watcher_es.Gui.Orphans.Filter.{
  EndsWord, mode_at-core, mode_at-import, somewhere-append, word_at-append,
}

abbrev pub bare_codes : Text → Bool
bare_codes [] = true
bare_codes (c ∷ s) = not (c == b' ' || c == 9 || c == b'"') && bare_codes s

-- An argument that needs no quotes.
abbrev pub is_bare : Text → Bool
is_bare [] = false
is_bare (c ∷ s) = bare_codes (c ∷ s)

-- `subprocess` leaves such an argument as it is.
abbrev pub Quotes : (Text → Text) → Type 0
Quotes quote = (arg : Text) → is_bare arg ≡ true → quote arg ≡ arg

-- The process of a command, named after the file of the program.
abbrev pub process_of : (Text → Text) → (Text → Text) → ℕ → List Text → Process
process_of quote name_of pid args = record {
  process_id = pid;
  name = elim args [ [] ↦ [] | program ∷ _ ↦ name_of program ];
  command_line = line_of quote args;
}

spaced-EndsWord : (quote : Text → Text) (args : List Text) → EndsWord (spaced quote args)
unfolding white_space
spaced-EndsWord quote [] = tt
spaced-EndsWord quote (arg ∷ args) = refl

-- What comes behind a program: nothing, or a blank and more.
abbrev pub Spaced : Text → Type 0
Spaced [] = Unit
Spaced (c ∷ s) = c ≡ b' '

pub spaced-Spaced : (quote : Text → Text) (args : List Text) → Spaced (spaced quote args)
spaced-Spaced quote [] = tt
spaced-Spaced quote (arg ∷ args) = refl

-- No word goes over a blank.
word_at-Spaced :
    (w s rest : Text)
    → All (λ x. (b' ' == x) ≡ false) w
    → Spaced rest
    → word_at w (s ++ rest) ≡ word_at w s
unfolding word_at
word_at-Spaced [] [] [] n e = refl
word_at-Spaced [] [] (c ∷ rest) n e = ap white_space e ∙ refl
word_at-Spaced [] (c ∷ s) rest n e = refl
word_at-Spaced (x ∷ w) [] [] n e = refl
word_at-Spaced (x ∷ w) [] (c ∷ rest) n e =
    ap (λ k. lower_code k == x && word_at w rest) e ∙ ap (λ b. b && word_at w rest) n.0
word_at-Spaced (x ∷ w) (c ∷ s) rest n e =
    ap (λ b. lower_code c == x && b) (word_at-Spaced w s rest n.1 e)

mode_at-Spaced : (c : ℕ) (s rest : Text) → Spaced rest → mode_at (c ∷ (s ++ rest)) ≡ mode_at (c ∷ s)
unfolding mode_at
mode_at-Spaced c s rest e =
    ap (λ b. white_space c && (b || word_at (codes "import") (s ++ rest)))
      (word_at-Spaced (codes "core") s rest (refl, (refl, (refl, (refl, tt)))) e)
    ∙ ap (λ b. white_space c && (word_at (codes "core") s || b))
        (word_at-Spaced (codes "import") s rest (refl, (refl, (refl, (refl, (refl, (refl, tt))))))
          e)

or_false : (a b : Bool) → (a || b) ≡ false → (a ≡ false) × (b ≡ false)
or_false true b h = absurd (ground (arith, h))
or_false false b h = (refl, h)

pub somewhere-Spaced :
    (before rest : Text)
    → Spaced rest
    → somewhere mode_at before ≡ false
    → somewhere mode_at (before ++ rest) ≡ somewhere mode_at rest
unfolding somewhere
somewhere-Spaced [] rest e h = refl
somewhere-Spaced (c ∷ before) rest e h =
    let apart = or_false (mode_at (c ∷ before)) (somewhere mode_at before) h in
    ap (λ b. b || somewhere mode_at (before ++ rest)) (mode_at-Spaced c before rest e ∙ apart.0)
    ∙ somewhere-Spaced before rest e apart.1

module _ (quote : Text → Text) (quotes : Quotes quote) where
  word_at-quote :
      (w : Text) (args : List Text)
      → is_bare w ≡ true
      → lower w ≡ w
      → word_at w (quote w ++ spaced quote args) ≡ true
  word_at-quote w args b l =
      word_at-append w (quote w) (spaced quote args) (ap lower (quotes w b) ∙ l)
        (spaced-EndsWord quote args)

  pub core-line :
      (exe : Text) (args : List Text)
      → somewhere mode_at (line_of quote (exe ∷ codes "core" ∷ args)) ≡ true
  unfolding white_space lower
  core-line exe args = somewhere-append mode_at (quote exe) (spaced quote (codes "core" ∷ args)) (
      mode_at-core b' ' (quote (codes "core") ++ spaced quote args) refl
        (word_at-quote (codes "core") args refl refl))

  pub import-line :
      (exe : Text) (args : List Text)
      → somewhere mode_at (line_of quote (exe ∷ codes "import" ∷ args)) ≡ true
  unfolding white_space lower
  import-line exe args =
      somewhere-append mode_at (quote exe) (spaced quote (codes "import" ∷ args)) (
        mode_at-import b' ' (quote (codes "import") ++ spaced quote args) refl
          (word_at-quote (codes "import") args refl refl))

  pub script-line :
      (exe : Text) (args : List Text)
      → somewhere (word_at (codes "launcher.py")) (line_of quote (exe ∷ codes "launcher.py" ∷ args))
        ≡ true
  unfolding lower
  script-line exe args =
      let script = codes "launcher.py" in
      subst (λ t. somewhere (word_at script) t ≡ true)
        (append-one (quote exe) b' ' (quote script ++ spaced quote args))
        (somewhere-append (word_at script) (quote exe ++ b' ' ∷ [])
          (quote script ++ spaced quote args) (word_at-quote script args refl refl))
