-- ===== src/Tailer/Lines.antt =====
-- python/watcher.py, `LogTailer.run`: the buffer of bytes, and the lines that are cut from it.
pub mod Cut
pub mod Chunks
use scmdb_log_watcher_es.Base.{
  ℕ, Bool, true, false, not, ◌&&◌, ◌||◌, Option, none, some, List, [], ◌∷◌, ◌++◌, ◌==◌,
  if◌then◌else◌,
}
use scmdb_log_watcher_es.Text.{newline, carriage_return}

abbrev pub Bytes : Type 0
Bytes = List ℕ

-- `bytes.splitlines()`, in the middle of a line: whether the byte before was a carriage return, and
-- what there is of the line. A line ends with "\n", "\r\n" or "\r".
unfoldable pub split_from : Bool → Bytes → Bytes → List Bytes
split_from after_return [] [] = []
split_from after_return (b ∷ line) [] = (b ∷ line) ∷ []
split_from after_return line (c ∷ s) =
    let rest =
      split_from (c == carriage_return)
        (if c == newline || c == carriage_return then [] else line ++ c ∷ []) s in
    if c == carriage_return || (c == newline && not after_return) then line ∷ rest else rest

unfoldable pub splitlines : Bytes → List Bytes
unfolding split_from
splitlines s = split_from false [] s

-- `for raw in ...: if not raw: continue`
unfoldable pub non_empty : List Bytes → List Bytes
non_empty [] = []
non_empty ([] ∷ lines) = non_empty lines
non_empty ((c ∷ s) ∷ lines) = (c ∷ s) ∷ non_empty lines

-- `nl = buffer.rfind(b"\n")`, the bytes up to it and the bytes behind it; `none` is `nl < 0`.
unfoldable pub cut_at_last : Bytes → Option (Bytes × Bytes)
cut_at_last [] = none
cut_at_last (c ∷ s) = elim (cut_at_last s) [
  | some (block, rest) ↦ some (c ∷ block, rest)
  | none ↦ if c == newline then some (c ∷ [], s) else none
]

-- The lines that a chunk completes, and the buffer after it.
unfoldable pub feed : Bytes → Bytes → List Bytes × Bytes
unfolding splitlines non_empty cut_at_last
feed buffer chunk = elim (cut_at_last (buffer ++ chunk)) [
  | none ↦ ([], buffer ++ chunk)
  | some (block, rest) ↦ (non_empty (splitlines block), rest)
]

unfoldable pub feed_all : Bytes → List Bytes → List Bytes × Bytes
unfolding feed
feed_all buffer [] = ([], buffer)
feed_all buffer (chunk ∷ chunks) =
    let (lines, buffer') = feed buffer chunk in
    let (more, buffer'') = feed_all buffer' chunks in (lines ++ more, buffer'')
