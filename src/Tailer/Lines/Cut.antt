-- ===== src/Tailer/Lines/Cut.antt =====
-- python/watcher.py, `LogTailer.run`: what a cut at the last line feed is, and the lines of joined bytes.
use scmdb_log_watcher_es.Base.{
  ◌≡◌, refl, sym, ap, ◌∙◌, subst, Bool, true, false, not, ◌&&◌, ◌||◌, none, some, List, [], ◌∷◌,
  ◌++◌, ◌==◌, arith, All, append_assoc, Option-cases, inl, inr, if◌then◌else◌,
}
use scmdb_log_watcher_es.Text.{newline, carriage_return}
use scmdb_log_watcher_es.Tailer.Lines.{Bytes, split_from, splitlines, non_empty, cut_at_last}

abbrev pub NoNewline : Bytes → Type 0
NoNewline s = All (λ c. (c == newline) ≡ false) s

-- The bytes up to the last line feed, and those behind it.
unfoldable pub complete : Bytes → Bytes
complete s = elim (cut_at_last s) [ none ↦ [] | some (block, rest) ↦ block ]

unfoldable pub remainder : Bytes → Bytes
remainder s = elim (cut_at_last s) [ none ↦ s | some (block, rest) ↦ rest ]

module _ (s : Bytes) where
  pub complete-none : cut_at_last s ≡ none → complete s ≡ []
  unfolding complete
  complete-none e = ground arith

  pub remainder-none : cut_at_last s ≡ none → remainder s ≡ s
  unfolding remainder
  remainder-none e = ground arith

  pub complete-some : (block rest : Bytes) → cut_at_last s ≡ some (block, rest) → complete s ≡ block
  unfolding complete
  complete-some block rest e = ground arith

  pub remainder-some :
      (block rest : Bytes) → cut_at_last s ≡ some (block, rest) → remainder s ≡ rest
  unfolding remainder
  remainder-some block rest e = ground arith

-- What a cut is: the block ends with a line feed, and there is none behind it.
pub record Cut (s block rest : Bytes) : Type 0 where
  pub front : Bytes
  pub ends : block ≡ front ++ newline ∷ []
  pub joins : s ≡ block ++ rest
  pub tail : NoNewline rest

pub cut_none : (s : Bytes) → cut_at_last s ≡ none → NoNewline s
unfolding cut_at_last
cut_none [] h = tt
cut_none (c ∷ s) h = elim (Option-cases (cut_at_last s)) [
  | inr (p, e) ↦ absurd (ground arith)
  | inl e ↦ (ground arith, cut_none s e)
]

pub Cut-some : (s block rest : Bytes) → cut_at_last s ≡ some (block, rest) → Cut s block rest
unfolding cut_at_last
Cut-some [] block rest h = absurd (ground arith)
Cut-some (c ∷ s) block rest h = elim (Option-cases (cut_at_last s)) [
  | inr ((b, r), e) ↦
      let i = Cut-some s b r e in
      let block_eq : block ≡ c ∷ b = ground arith in
      let rest_eq : rest ≡ r = ground arith in
      record {
        front = c ∷ i.front;
        ends = block_eq ∙ ap (λ x. c ∷ x) i.ends;
        joins =
            ap (λ x. c ∷ x) i.joins
            ∙ ap (λ x. x ++ r) (sym block_eq)
            ∙ ap (λ x. block ++ x) (sym rest_eq);
        tail = subst NoNewline (sym rest_eq) i.tail;
      }
  | inl e ↦
      let is_line_feed : c ≡ newline = ground arith in
      let block_eq : block ≡ c ∷ [] = ground arith in
      let rest_eq : rest ≡ s = ground arith in
      record {
        front = [];
        ends = block_eq ∙ ap (λ x. x ∷ []) is_line_feed;
        joins = ap (λ x. c ∷ x) (sym rest_eq) ∙ ap (λ x. x ++ rest) (sym block_eq);
        tail = subst NoNewline (sym rest_eq) (cut_none s e);
      }
]

pub if-append :
    (t : Bool) (line : Bytes) (xs ys : List Bytes)
    → (if t then line ∷ (xs ++ ys) else xs ++ ys) ≡ (if t then line ∷ xs else xs) ++ ys
if-append true line xs ys = refl
if-append false line xs ys = refl

-- A text whose first part ends with a line feed splits into the lines of the two parts.
pub split_from-append :
    (after : Bool) (line front s : Bytes)
    → split_from after line (front ++ newline ∷ s)
      ≡ split_from after line (front ++ newline ∷ []) ++ split_from false [] s
unfolding split_from
split_from-append after line [] s = if-append (not after) line [] (split_from false [] s)
split_from-append after line (c ∷ front) s =
    let next = if c == newline || c == carriage_return then [] else line ++ c ∷ [] in
    let emits = c == carriage_return || (c == newline && not after) in
    ap (λ rest. if emits then line ∷ rest else rest)
      (split_from-append (c == carriage_return) next front s)
    ∙ if-append emits line (split_from (c == carriage_return) next (front ++ newline ∷ []))
        (split_from false [] s)

pub splitlines-append :
    (front s : Bytes)
    → splitlines ((front ++ newline ∷ []) ++ s) ≡ splitlines (front ++ newline ∷ []) ++ splitlines s
unfolding splitlines
splitlines-append front s =
    ap (split_from false []) (append_assoc front (newline ∷ []) s)
    ∙ split_from-append false [] front s

pub non_empty-append : (xs ys : List Bytes) → non_empty (xs ++ ys) ≡ non_empty xs ++ non_empty ys
unfolding non_empty
non_empty-append [] ys = refl
non_empty-append ([] ∷ xs) ys = non_empty-append xs ys
non_empty-append ((c ∷ s) ∷ xs) ys = ap (λ x. (c ∷ s) ∷ x) (non_empty-append xs ys)

-- A cut of the end of a text is a cut of the text.
pub cut-append_some :
    (s t block rest : Bytes)
    → cut_at_last t ≡ some (block, rest)
    → cut_at_last (s ++ t) ≡ some (s ++ block, rest)
unfolding cut_at_last
cut-append_some [] t block rest h = h
cut-append_some (c ∷ s) t block rest h = rw (cut-append_some s t block rest h)

pub cut-NoNewline : (t : Bytes) → NoNewline t → cut_at_last t ≡ none
unfolding cut_at_last
cut-NoNewline [] h = refl
cut-NoNewline (c ∷ t) h = rw (cut-NoNewline t h.1, h.0)

pub cut-append_none :
    (s t : Bytes) → NoNewline t → cut_at_last (s ++ newline ∷ t) ≡ some (s ++ newline ∷ [], t)
unfolding cut_at_last
cut-append_none [] t h = rw (cut-NoNewline t h)
cut-append_none (c ∷ s) t h = rw (cut-append_none s t h)
