-- ===== src/Runtime/Groups.antt =====
-- python/scmdb_watcher/test_groups_service.py: the results of the groups of tests. `digits` and
-- `int_of` are `str` and `int` of the numbers; running a group is the system's.
pub mod Run
use scmdb_log_watcher_es.Base.{
  ℕ, zero, suc, ◌≡◌, refl, ap, ◌∙◌, true, false, Option, none, some, List, [], ◌∷◌, ◌++◌, ◌==◌, All,
  if◌then◌else◌,
}
use scmdb_log_watcher_es.Text.{Text, codes, starts_with, onto_head}

-- `s.split(sep, n)`: at most `n` cuts, and always one part at least.
unfoldable pub split_at_most : ℕ → ℕ → Text → List Text
split_at_most zero sep s = s ∷ []
split_at_most (suc n) sep [] = [] ∷ []
split_at_most (suc n) sep (c ∷ s) =
    let further = split_at_most n sep s in
    let rest = split_at_most (suc n) sep s in if c == sep then [] ∷ further else onto_head c rest

abbrev pub Counts : Type 0
Counts = ℕ × ℕ × ℕ

abbrev pub triple : Option ℕ → Option ℕ → Option ℕ → Option Counts
triple (some a) (some b) (some c) = some (a, b, c)
triple _ _ _ = none

-- `_prefix, a, b, c = line.split(":", 3)` and the three `int`: `none` is a `ValueError`.
abbrev pub counts_of : (Text → Option ℕ) → List Text → Option Counts
counts_of int_of (prefix ∷ a ∷ b ∷ c ∷ []) = triple (int_of a) (int_of b) (int_of c)
counts_of int_of _ = none

-- `_parse_group_result`, on the lines of the output.
unfoldable pub parse_group_result : (Text → Option ℕ) → List Text → Option Counts
unfolding split_at_most
parse_group_result int_of [] = some (0, 0, 0)
parse_group_result int_of (line ∷ lines) =
    let rest = parse_group_result int_of lines in
    if starts_with line (codes "GROUP_RESULT:")
    then counts_of int_of (split_at_most 3 b':' line)
    else rest

-- The line that the code of the runner prints.
unfoldable pub group_line : (ℕ → Text) → Counts → Text
group_line digits (run, failures, errors) =
    codes "GROUP_RESULT:"
    ++ (digits run ++ (codes ":" ++ (digits failures ++ (codes ":" ++ digits errors))))

abbrev pub NoColon : Text → Type 0
NoColon s = All (λ c. (c == b':') ≡ false) s

split_at_most-part :
    (n : ℕ) (a s : Text)
    → NoColon a
    → split_at_most (suc n) b':' (a ++ b':' ∷ s) ≡ a ∷ split_at_most n b':' s
unfolding split_at_most
split_at_most-part n [] s h = refl
split_at_most-part n (c ∷ a) s h =
    rw h.0 (ap (λ parts. onto_head c parts) (split_at_most-part n a s h.1))

prefix-group_line :
    (digits : ℕ → Text) (r : Counts)
    → starts_with (group_line digits r) (codes "GROUP_RESULT:") ≡ true
unfolding group_line starts_with
prefix-group_line digits r = refl

module _ (int_of : Text → Option ℕ) (digits : ℕ → Text) where
  parts-group_line :
      (run failures errors : ℕ)
      → ((n : ℕ) → NoColon (digits n))
      → split_at_most 3 b':' (group_line digits (run, failures, errors))
        ≡ codes "GROUP_RESULT" ∷ digits run ∷ digits failures ∷ digits errors ∷ []
  unfolding group_line split_at_most
  parts-group_line run failures errors h =
      let tail = digits failures ++ b':' ∷ digits errors in
      split_at_most-part 2 (codes "GROUP_RESULT") (digits run ++ b':' ∷ tail) (
        refl,
        (refl, (refl, (refl, (refl, (refl, (refl, (refl, (refl, (refl, (refl, (refl, tt))))))))))),
      )
      ∙ ap (λ ps. codes "GROUP_RESULT" ∷ ps)
          (split_at_most-part 1 (digits run) tail (h run)
            ∙ ap (λ ps. digits run ∷ ps)
                (split_at_most-part 0 (digits failures) (digits errors) (h failures)))

  -- The counts that the runner prints are the ones that are read, whatever is printed before, as long
  -- as no line there begins like the result, and after. `int` reads back what `str` writes, and that
  -- has no colon.
  pub parse_group_result-group_line :
      (before after : List Text) (run failures errors : ℕ)
      → ((n : ℕ) → int_of (digits n) ≡ some n)
      → ((n : ℕ) → NoColon (digits n))
      → All (λ line. starts_with line (codes "GROUP_RESULT:") ≡ false) before
      → parse_group_result int_of (before ++ group_line digits (run, failures, errors) ∷ after)
        ≡ some (run, failures, errors)
  unfolding parse_group_result
  parse_group_result-group_line [] after run failures errors back plain h =
      rw
        (
          prefix-group_line digits (run, failures, errors),
          parts-group_line run failures errors plain,
          back run,
          back failures,
          back errors,
        )
        refl
  parse_group_result-group_line (line ∷ before) after run failures errors back plain h =
      rw h.0 (parse_group_result-group_line before after run failures errors back plain h.1)
