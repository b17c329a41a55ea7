-- ===== src/Import/Command/Output.antt =====
-- What the window reads from the output of an import is where the export was written. The lines are
-- what `print` is given, which are those of the output where no name holds a line break.
use scmdb_log_watcher_es.Base.{
  ℕ, zero, suc, ◌+◌, ◌==◌, ◌≡◌, ◌≢◌, refl, sym, ap, ◌∙◌, subst, ◌⊎◌, inl, inr, Bool, true, false,
  List, [], ◌∷◌, ◌++◌, All, All-append, arith, length,
}
use scmdb_log_watcher_es.Text.{
  Text, codes, strip, lower, lower_code, starts_with, is_space, lstrip_if, rstrip_if,
}
use scmdb_log_watcher_es.Gui.Command.{output_lines, find_output, extract_output_path}
use scmdb_log_watcher_es.Import.Command.{
  Log, Format, is_something, found_line, dropped_line, log_lines, all_logs, report, output_at,
  deduped, export_logs,
}

-- The line is empty once stripped, or begins with another letter than the `o` of the line looked for.
abbrev Quiet : Text → Type 0
Quiet line =
    (strip line ≡ [])
    ⊎ ((c : ℕ) × (t : Text) × (strip line ≡ c ∷ t) × ((lower_code c == b'o') ≡ false))

rstrip_if-kept :
    (c : ℕ) (s r : Text)
    → is_space c ≡ false
    → rstrip_if is_space s ≡ r
    → (t : Text) × (rstrip_if is_space (c ∷ s) ≡ c ∷ t)
unfolding rstrip_if
rstrip_if-kept c s [] h e = ([], rw (e, h) refl)
rstrip_if-kept c s (d ∷ t) h e = (d ∷ t, rw e refl)

-- A line whose first code point that is no space is `c`.
head-Quiet :
    (line : Text) (c : ℕ) (s : Text)
    → lstrip_if is_space line ≡ c ∷ s
    → is_space c ≡ false
    → (lower_code c == b'o') ≡ false
    → Quiet line
unfolding strip
head-Quiet line c s e space other =
    let (t, r) = rstrip_if-kept c s (rstrip_if is_space s) space refl in
    inr (c, t, ap (rstrip_if is_space) e ∙ r, other)

find_output-behind :
    (line : Text) (lines : List Text)
    → starts_with (lower line) (codes "output written to") ≡ false
    → lines ≢ []
    → find_output (line ∷ lines) ≡ find_output lines
unfolding find_output
find_output-behind line [] h k = absurd (k refl)
find_output-behind line (next ∷ lines) h k = rw h refl

other_start :
    (c : ℕ) (t : Text)
    → (lower_code c == b'o') ≡ false
    → starts_with (lower (c ∷ t)) (codes "output written to") ≡ false
unfolding starts_with lower
other_start c t h = rw h refl

not_nil : (line : Text) (lines : List Text) → line ∷ lines ≢ []
not_nil line lines e = ground (arith, e)

output_lines-nil :
    (line : Text) (lines : List Text)
    → strip line ≡ []
    → output_lines (line ∷ lines) ≡ output_lines lines
unfolding output_lines
output_lines-nil line lines e = rw (e, output_lines) refl

output_lines-cons :
    (line : Text) (lines : List Text) (c : ℕ) (t : Text)
    → strip line ≡ c ∷ t
    → output_lines (line ∷ lines) ≡ (c ∷ t) ∷ output_lines lines
unfolding output_lines
output_lines-cons line lines c t e = rw (e, output_lines) refl

output_lines-filled :
    (lines rest : List Text)
    → All Quiet lines
    → output_lines rest ≢ []
    → output_lines (lines ++ rest) ≢ []
output_lines-filled [] rest q k = k
output_lines-filled (line ∷ lines) rest q k = elim q.0 [
  | inl e ↦
      subst (λ o. o ≢ []) (sym (output_lines-nil line (lines ++ rest) e))
        (output_lines-filled lines rest q.1 k)
  | inr (c, t, e, other) ↦
      subst (λ o. o ≢ []) (sym (output_lines-cons line (lines ++ rest) c t e))
        (not_nil (c ∷ t) (output_lines (lines ++ rest)))
]

find_output-Quiet :
    (lines rest : List Text)
    → All Quiet lines
    → output_lines rest ≢ []
    → find_output (output_lines (lines ++ rest)) ≡ find_output (output_lines rest)
find_output-Quiet [] rest q k = refl
find_output-Quiet (line ∷ lines) rest q k = elim q.0 [
  | inl e ↦
      ap find_output (output_lines-nil line (lines ++ rest) e) ∙ find_output-Quiet lines rest q.1 k
  | inr (c, t, e, other) ↦
      ap find_output (output_lines-cons line (lines ++ rest) c t e)
      ∙ find_output-behind (c ∷ t) (output_lines (lines ++ rest)) (other_start c t other)
          (output_lines-filled lines rest q.1 k)
      ∙ find_output-Quiet lines rest q.1 k
]

blank-Quiet : Quiet []
unfolding strip lstrip_if rstrip_if
blank-Quiet = inl refl

strip-indented : (output : Text) → strip (codes "  " ++ output) ≡ strip output
unfolding strip lstrip_if is_space
strip-indented output = refl

strip-written : strip (codes "Output written to:") ≡ codes "Output written to:"
unfolding strip lstrip_if rstrip_if is_space
strip-written = refl

-- The last two lines, for a path without outer spaces.
output_lines-output_at :
    (output : Text) (c : ℕ) (t : Text)
    → strip output ≡ output
    → output ≡ c ∷ t
    → output_lines (output_at output) ≡ codes "Output written to:" ∷ output ∷ []
unfolding output_lines
output_lines-output_at output c t s e =
    output_lines-cons (codes "Output written to:") ((codes "  " ++ output) ∷ []) b'O'
      (codes "utput written to:") strip-written
    ∙ ap (λ r. codes "Output written to:" ∷ r)
        (output_lines-cons (codes "  " ++ output) [] c t (strip-indented output ∙ s ∙ e)
          ∙ ap (λ o. o ∷ []) (sym e))

find_output-output :
    (output : Text) → find_output (codes "Output written to:" ∷ output ∷ []) ≡ output
unfolding find_output lower lower_code starts_with
find_output-output output = refl

module _ (fmt : Format) where
  found_line-Quiet : (b : Bool) (log : Log) → All Quiet (found_line fmt b log)
  unfolding lstrip_if is_space lower_code
  found_line-Quiet false log = tt
  found_line-Quiet true log = (head-Quiet _ b'-' _ refl refl refl, tt)

  dropped_line-Quiet : (n : ℕ) → All Quiet (dropped_line fmt n)
  unfolding lstrip_if is_space lower_code
  dropped_line-Quiet zero = tt
  dropped_line-Quiet (suc n) = (head-Quiet _ b'(' _ refl refl refl, tt)

  log_lines-Quiet : (i n : ℕ) (log : Log) → All Quiet (log_lines fmt i n log)
  unfolding lstrip_if is_space lower_code
  log_lines-Quiet i n log = (
    head-Quiet _ b'[' _ refl refl refl,
    found_line-Quiet (is_something log.missions log.blueprints) log,
  )

  all_logs-Quiet : (i n : ℕ) (logs : List Log) → All Quiet (all_logs fmt i n logs)
  unfolding all_logs
  all_logs-Quiet i n [] = tt
  all_logs-Quiet i n (log ∷ logs) =
      All-append Quiet (log_lines fmt i n log) (all_logs fmt (i + 1) n logs)
        (log_lines-Quiet i n log) (all_logs-Quiet (i + 1) n logs)

  report-Quiet :
      (version directory : Text) (logs : List Log) → All Quiet (report fmt version directory logs)
  unfolding lstrip_if is_space lower_code
  report-Quiet version directory logs =
      let n = length logs in
      let lines = all_logs fmt 1 n logs in
      (
        head-Quiet _ b'S' _ refl refl refl,
        (
          head-Quiet _ b'S' _ refl refl refl,
          (
            blank-Quiet,
            All-append Quiet lines _ (all_logs-Quiet 1 n logs) (
              blank-Quiet,
              (head-Quiet _ b'D' _ refl refl refl, dropped_line-Quiet (deduped fmt logs).1),
            ),
          ),
        ),
      )

  -- From the lines that an import with one file at least prints, the window reads the path of the
  -- export, whatever the files and directories are called and whatever is found in them. The path is
  -- not empty and has no outer spaces.
  pub extract_output_path-export_logs :
      (version exported_at directory output : Text) (log : Log) (logs : List Log) (c : ℕ) (t : Text)
      → strip output ≡ output
      → output ≡ c ∷ t
      → extract_output_path
          (export_logs fmt version exported_at directory output (log ∷ logs)).stdout
        ≡ output
  unfolding extract_output_path export_logs
  extract_output_path-export_logs version exported_at directory output log logs c t s e =
      let lines = report fmt version directory (log ∷ logs) in
      let last = output_lines-output_at output c t s e in
      find_output-Quiet lines (output_at output) (report-Quiet version directory (log ∷ logs))
        (subst (λ o. o ≢ []) (sym last) (not_nil (codes "Output written to:") (output ∷ [])))
      ∙ ap find_output last
      ∙ find_output-output output
