-- ===== src/Runtime/Logging/Written.antt =====
-- What is in the log files after the set-up.
use scmdb_log_watcher_es.Base.{
  ℕ, suc, ◌≡◌, refl, sym, ap, ◌∙◌, Bool, true, false, ◌&&◌, List, [], ◌∷◌, ◌++◌, leb, ◌==◌,
  append-nil, append_assoc, append-one, ==_iff, if◌then◌else◌,
}
use scmdb_log_watcher_es.Text.{Text, text_eq}
use scmdb_log_watcher_es.Runtime.Logging.{
  Target, console, file, Handler, Loggers, Output, has_handler, add_handler, remove_handler,
  remove_all, is_target, session_format, app_format, console_handler, file_handler, LogRecord,
  effective_level, handlers_for, emit, emit_all, log_all,
}

pub remove_all_self : (hs : List Handler) → remove_all hs hs ≡ []
unfolding remove_all remove_handler
remove_all_self [] = refl
remove_all_self (h ∷ hs) =
    ap (λ b. remove_all hs (if b then hs else h ∷ remove_handler h hs))
      ((==_iff h.object h.object).1 refl)
    ∙ remove_all_self hs

pub add_handler-nil : (h : Handler) → add_handler h [] ≡ h ∷ []
unfolding add_handler has_handler
add_handler-nil h = refl

pub add_handler-one :
    (h k : Handler) → (k.object == h.object) ≡ false → add_handler h (k ∷ []) ≡ k ∷ h ∷ []
unfolding add_handler has_handler
add_handler-one h k e = ap (λ b. if (if b then true else false) then k ∷ [] else k ∷ h ∷ []) e

one_more :
    (b : Bool) (lines : List Text) (line : Text) (rest : List Text)
    → (if b then lines ++ line ∷ [] else lines) ++ rest ≡ lines ++ (if b then line ∷ rest else rest)
one_more true lines line rest = append-one lines line rest
one_more false lines line rest = refl

-- What a record adds to the console or a file.
module _ (line_of : Handler → LogRecord → Text) (t : Target) where
  abbrev added : LogRecord → List Handler → List Text
  added r [] = []
  added r (h ∷ hs) =
      let rest = added r hs in
      if leb h.level r.level && is_target t h.target then line_of h r ∷ rest else rest

  emit_all-added :
      (r : LogRecord) (hs : List Handler) (out : Output)
      → emit_all line_of r hs out t ≡ out t ++ added r hs
  unfolding emit_all emit
  emit_all-added r [] out = sym (append-nil (out t))
  emit_all-added r (h ∷ hs) out =
      emit_all-added r hs (emit line_of r h out)
      ∙ one_more (leb h.level r.level && is_target t h.target) (out t) (line_of h r) (added r hs)

  -- What the records of a logger add, from its level and its handlers.
  abbrev pub all_added : ℕ → List Handler → List LogRecord → List Text
  all_added level hs [] = []
  all_added level hs (r ∷ rs) =
      let rest = all_added level hs rs in (if leb level r.level then added r hs else []) ++ rest

  step-added :
      (b : Bool) (r : LogRecord) (hs : List Handler) (out : Output) (rest : List Text)
      → (if b then emit_all line_of r hs out else out) t ++ rest
        ≡ out t ++ ((if b then added r hs else []) ++ rest)
  step-added true r hs out rest =
      ap (λ lines. lines ++ rest) (emit_all-added r hs out) ∙ append_assoc (out t) (added r hs) rest
  step-added false r hs out rest = refl

  pub log_all-added :
      (l : Loggers) (name : Text) (level : ℕ) (hs : List Handler)
      → effective_level l name ≡ level
      → handlers_for l name ≡ hs
      → (rs : List LogRecord) (out : Output)
      → log_all line_of l name rs out t ≡ out t ++ all_added level hs rs
  unfolding log_all
  log_all-added l name level hs e h [] out = sym (append-nil (out t))
  log_all-added l name level hs e h (r ∷ rs) out =
      log_all-added l name level hs e h rs _
      ∙ ap
          (λ a.
            (if leb a r.level then emit_all line_of r (handlers_for l name) out else out) t
            ++ all_added level hs rs)
          e
      ∙ ap
          (λ k.
            (if leb level r.level then emit_all line_of r k out else out) t
            ++ all_added level hs rs)
          h
      ∙ step-added (leb level r.level) r hs out (all_added level hs rs)

-- The records of a level at least, each as one line.
abbrev pub written : (LogRecord → Text) → ℕ → List LogRecord → List Text
written line level [] = []
written line level (r ∷ rs) =
    let rest = written line level rs in if leb level r.level then line r ∷ rest else rest

no_lines : (q : Bool) → ◌≡◌ {A = List Text} [] (if q then [] else [])
no_lines true = refl
no_lines false = refl

-- One record and one handler: whether the record is logged, and whether the handler writes there.
one_handler :
    (b q : Bool) (line : Text) (rest : List Text)
    → (if b then (if b && q then line ∷ [] else []) else []) ++ (if q then rest else [])
      ≡ (if q then (if b then line ∷ rest else rest) else [])
one_handler true true line rest = refl
one_handler true false line rest = refl
one_handler false q line rest = refl

first_handler :
    (b : Bool) (line other : Text) (rest : List Text)
    → (if b
          then (if b && true
              then line ∷ (if b && false then other ∷ [] else [])
              else (if b && false then other ∷ [] else []))
          else [])
        ++ rest
      ≡ (if b then line ∷ rest else rest)
first_handler true line other rest = refl
first_handler false line other rest = refl

second_handler :
    (b q : Bool) (other line : Text) (rest : List Text)
    → (if b
          then (if b && false
              then other ∷ (if b && q then line ∷ [] else [])
              else (if b && q then line ∷ [] else []))
          else [])
        ++ (if q then rest else [])
      ≡ (if q then (if b then line ∷ rest else rest) else [])
second_handler true true other line rest = refl
second_handler true false other line rest = refl
second_handler false q other line rest = refl

module _ (line_of : Handler → LogRecord → Text) (log_file : Text) (level object : ℕ) where
  abbrev pub app_handler : Handler
  app_handler = file_handler object log_file level app_format

  abbrev pub to_console : Handler
  to_console = console_handler object level

  abbrev pub to_file : Handler
  to_file = file_handler (suc object) log_file level session_format

  pub app-written :
      (t : Target) (rs : List LogRecord)
      → all_added line_of t level (app_handler ∷ []) rs
        ≡ (if is_target t (file log_file) then written (line_of app_handler) level rs else [])
  app-written t [] = no_lines (is_target t (file log_file))
  app-written t (r ∷ rs) =
      ap (λ rest. (if leb level r.level then added line_of t r (app_handler ∷ []) else []) ++ rest)
        (app-written t rs)
      ∙ one_handler (leb level r.level) (is_target t (file log_file)) (line_of app_handler r)
          (written (line_of app_handler) level rs)

  pub console-written :
      (rs : List LogRecord)
      → all_added line_of console level (to_console ∷ to_file ∷ []) rs
        ≡ written (line_of to_console) level rs
  console-written [] = refl
  console-written (r ∷ rs) =
      ap
        (λ rest.
          (if leb level r.level then added line_of console r (to_console ∷ to_file ∷ []) else [])
          ++ rest)
        (console-written rs)
      ∙ first_handler (leb level r.level) (line_of to_console r) (line_of to_file r)
          (written (line_of to_console) level rs)

  pub file-written :
      (path : Text) (rs : List LogRecord)
      → all_added line_of (file path) level (to_console ∷ to_file ∷ []) rs
        ≡ (if text_eq path log_file then written (line_of to_file) level rs else [])
  file-written path [] = no_lines (text_eq path log_file)
  file-written path (r ∷ rs) =
      ap
        (λ rest.
          (if leb level r.level
            then added line_of (file path) r (to_console ∷ to_file ∷ [])
            else [])
          ++ rest)
        (file-written path rs)
      ∙ second_handler (leb level r.level) (text_eq path log_file) (line_of to_console r)
          (line_of to_file r) (written (line_of to_file) level rs)
