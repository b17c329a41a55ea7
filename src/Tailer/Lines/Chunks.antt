-- ===== src/Tailer/Lines/Chunks.antt =====
-- The lines do not depend on how the reads cut the file into chunks.
use scmdb_log_watcher_es.Base.{
  ◌≡◌, sym, ap, ◌∙◌, none, some, List, [], ◌∷◌, ◌++◌, arith, append_assoc, append-nil, Option-cases,
  inl, inr,
}
use scmdb_log_watcher_es.Text.{newline}
use scmdb_log_watcher_es.Tailer.Lines.{Bytes, splitlines, non_empty, cut_at_last, feed, feed_all}
use scmdb_log_watcher_es.Tailer.Lines.Cut.{
  NoNewline, complete, remainder, complete-none, remainder-none, complete-some, remainder-some,
  cut_none, Cut-some, splitlines-append, non_empty-append, cut-append_some, cut-NoNewline,
  cut-append_none,
}

abbrev lines : Bytes → List Bytes
lines s = non_empty (splitlines (complete s))

feed-eq :
    (buffer chunk : Bytes)
    → feed buffer chunk ≡ (lines (buffer ++ chunk), remainder (buffer ++ chunk))
unfolding feed complete remainder
feed-eq buffer chunk = ground arith

-- The cut of a text to which more is appended.
record Extends (x y : Bytes) : Type 0 where
  same_lines : lines (x ++ y) ≡ lines x ++ lines (remainder x ++ y)
  same_rest : remainder (x ++ y) ≡ remainder (remainder x ++ y)

extend_none : (x y : Bytes) → cut_at_last x ≡ none → Extends x y
unfolding splitlines non_empty
extend_none x y e = record {
  same_lines = rw (complete-none _ e, remainder-none _ e);
  same_rest = rw (remainder-none _ e);
}

extend_later :
    (x y block rest block' rest' : Bytes)
    → cut_at_last x ≡ some (block, rest)
    → cut_at_last (rest ++ y) ≡ some (block', rest')
    → Extends x y
extend_later x y block rest block' rest' e e' =
    let c = Cut-some x block rest e in
    let whole : x ++ y ≡ block ++ (rest ++ y) =
      ap (λ t. t ++ y) c.joins ∙ append_assoc block rest y in
    let cut : cut_at_last (x ++ y) ≡ some (block ++ block', rest') =
      ap cut_at_last whole ∙ cut-append_some block (rest ++ y) block' rest' e' in
    record {
      same_lines =
          rw
            (
              complete-some _ (block ++ block') rest' cut,
              complete-some _ block rest e,
              remainder-some _ block rest e,
              complete-some _ block' rest' e',
            )
            (ap (λ t. non_empty (splitlines (t ++ block'))) c.ends
              ∙ ap non_empty (splitlines-append c.front block')
              ∙ non_empty-append (splitlines (c.front ++ newline ∷ [])) (splitlines block')
              ∙ ap (λ t. non_empty (splitlines t) ++ non_empty (splitlines block')) (sym c.ends));
      same_rest = rw (
        remainder-some _ (block ++ block') rest' cut,
        remainder-some _ block rest e,
        remainder-some _ block' rest' e',
      );
    }

extend_same :
    (x y block rest : Bytes)
    → cut_at_last x ≡ some (block, rest)
    → cut_at_last (rest ++ y) ≡ none
    → Extends x y
unfolding splitlines non_empty
extend_same x y block rest e e' =
    let c = Cut-some x block rest e in
    let whole : x ++ y ≡ c.front ++ newline ∷ (rest ++ y) =
      ap (λ t. t ++ y) c.joins
      ∙ append_assoc block rest y
      ∙ ap (λ t. t ++ (rest ++ y)) c.ends
      ∙ append_assoc c.front (newline ∷ []) (rest ++ y) in
    let cut : cut_at_last (x ++ y) ≡ some (c.front ++ newline ∷ [], rest ++ y) =
      ap cut_at_last whole ∙ cut-append_none c.front (rest ++ y) (cut_none (rest ++ y) e') in
    record {
      same_lines =
          rw
            (
              complete-some _ (c.front ++ newline ∷ []) (rest ++ y) cut,
              complete-some _ block rest e,
              remainder-some _ block rest e,
              complete-none _ e',
            )
            (rw append-nil (ap (λ t. non_empty (splitlines t)) (sym c.ends)));
      same_rest = rw (
        remainder-some _ (c.front ++ newline ∷ []) (rest ++ y) cut,
        remainder-some _ block rest e,
        remainder-none _ e',
      );
    }

extends : (x y : Bytes) → Extends x y
extends x y = elim (Option-cases (cut_at_last x)) [
  | inl e ↦ extend_none x y e
  | inr ((block, rest), e) ↦ elim (Option-cases (cut_at_last (rest ++ y))) [
    | inl e' ↦ extend_same x y block rest e e'
    | inr ((block', rest'), e') ↦ extend_later x y block rest block' rest' e e'
  ]
]

remainder-NoNewline : (s : Bytes) → NoNewline (remainder s)
remainder-NoNewline s = elim (Option-cases (cut_at_last s)) [
  | inl e ↦ rw (remainder-none _ e) (cut_none s e)
  | inr ((block, rest), e) ↦ rw (remainder-some _ block rest e) ((Cut-some s block rest e).tail)
]

-- The chunks one after the other.
abbrev pub joined : List Bytes → Bytes
joined [] = []
joined (chunk ∷ chunks) = chunk ++ joined chunks

pub feed-NoNewline : (buffer chunk : Bytes) → NoNewline (feed buffer chunk).1
feed-NoNewline buffer chunk = rw feed-eq (remainder-NoNewline (buffer ++ chunk))

-- However the reads cut the bytes into chunks, the lines are those of the bytes read as one, and the
-- buffer holds what stands behind the last line feed.
pub feed_all-joined :
    (chunks : List Bytes) (buffer : Bytes)
    → NoNewline buffer
    → feed_all buffer chunks ≡ (
      non_empty (splitlines (complete (buffer ++ joined chunks))),
      remainder (buffer ++ joined chunks),
    )
unfolding feed_all splitlines non_empty
feed_all-joined [] buffer h =
    rw append-nil
      (rw (complete-none _ (cut-NoNewline buffer h), remainder-none _ (cut-NoNewline buffer h)))
feed_all-joined (chunk ∷ chunks) buffer h =
    let x = buffer ++ chunk in
    let e = extends x (joined chunks) in
    rw (feed-eq, feed_all-joined chunks (remainder x) (remainder-NoNewline x))
      (rw (← append_assoc) (rw (e.same_lines, e.same_rest)))

-- No bytes, no lines.
pub feed-nil : (buffer : Bytes) → NoNewline buffer → feed buffer [] ≡ ([], buffer)
unfolding splitlines non_empty
feed-nil buffer h =
    feed-eq buffer []
    ∙ rw append-nil
        (rw (complete-none _ (cut-NoNewline buffer h), remainder-none _ (cut-NoNewline buffer h)))
