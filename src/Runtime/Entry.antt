-- ===== src/Runtime/Entry.antt =====
-- The command line: python/launcher.py, and `main` and `parse_live_args` of python/watcher.py. Of
-- argparse, the options in their full spelling with the value as the next argument.
pub mod RoundTrip
use scmdb_log_watcher_es.Base.{
  ℕ, zero, suc, ◌≡◌, refl, sym, ap, ◌∙◌, subst, Bool, true, false, not, ◌&&◌, ◌||◌, Option, none,
  some, List, [], ◌∷◌, ◌++◌, ◌==◌, leb, arith, if◌then◌else◌,
}
use scmdb_log_watcher_es.Text.{Text, codes, text_eq, starts_with}
use scmdb_log_watcher_es.Dict.{lookup}
use scmdb_log_watcher_es.Config.Paths.{Config}
use scmdb_log_watcher_es.Gui.Command.{
  Command, command, lacking, port_of, parent_args, resolve_start_command,
}

-- What is started, with its arguments.
pub data Started : Type 0 where
  gui : Started
  live : List Text → Started
  importing : List Text → Started

-- `main` of python/watcher.py
unfoldable pub watcher_main : List Text → Started
watcher_main [] = live []
watcher_main (arg ∷ args) =
    if text_eq arg (codes "import") then importing args else live (arg ∷ args)

-- `main` of python/launcher.py
unfoldable pub launcher_main : List Text → Started
unfolding watcher_main
launcher_main [] = gui
launcher_main (arg ∷ args) =
    if text_eq arg (codes "gui")
    then gui
    else if text_eq arg (codes "import")
    then watcher_main (codes "import" ∷ args)
    else if text_eq arg (codes "core")
    then watcher_main args
    else watcher_main (arg ∷ args)

pub record LiveArgs : Type 0 where
  pub port : Text
  pub log_path : Text
  pub dev : Bool
  pub dev_origins : Text
  pub verbose : Bool
  pub parent_pid : Option Text

-- The options of `parse_live_args`.
pub data Flag : Type 0 where
  port_option : Flag
  log_path_option : Flag
  dev_option : Flag
  dev_origins_option : Flag
  verbose_option : Flag
  parent_pid_option : Flag
  unknown : Flag

unfoldable pub flag_of : Text → Flag
unfolding text_eq
flag_of arg =
    if text_eq arg (codes "--port")
    then port_option
    else if text_eq arg (codes "--log-path")
    then log_path_option
    else if text_eq arg (codes "--dev")
    then dev_option
    else if text_eq arg (codes "--dev-origins")
    then dev_origins_option
    else if text_eq arg (codes "--verbose") || text_eq arg (codes "-v")
    then verbose_option
    else if text_eq arg (codes "--parent-pid")
    then parent_pid_option
    else unknown

abbrev is_decimal : ℕ → Bool
is_decimal c = leb b'0' c && leb c b'9'

abbrev all_decimal : Text → Bool
all_decimal [] = true
all_decimal (c ∷ s) = is_decimal c && all_decimal s

-- Digits, a point or none, and digits: `\d*\.\d+`.
abbrev is_fraction : Text → Bool
is_fraction [] = false
is_fraction (c ∷ s) =
    (is_decimal c && is_fraction s) || (c == b'.' && not (text_eq s []) && all_decimal s)

-- `-\d+` or `-\d*\.\d+`, by which argparse knows a negative number.
abbrev is_negative_number : Text → Bool
is_negative_number [] = false
is_negative_number (c ∷ s) = c == b'-' && ((not (text_eq s []) && all_decimal s) || is_fraction s)

-- An argument that argparse takes for a value: one that does not begin like an option, a lone dash, or
-- a negative number, as none of the options looks like one.
abbrev pub value_of : Text → Option Text
value_of arg =
    if starts_with arg (codes "-") && not (text_eq arg (codes "-")) && not (is_negative_number arg)
    then none
    else some arg

abbrev pub and_then {ℓ κ} : {A : Type ℓ} {B : Type κ} → Option A → (A → Option B) → Option B
and_then none f = none
and_then (some a) f = f a

-- `int_of` is `str(int(text))`, `none` where `int` raises.
module _ (int_of : Text → Option Text) where
  abbrev pub int_value : Text → Option Text
  int_value arg = and_then (value_of arg) int_of

  -- What an option with a value makes of the arguments, if the value is one.
  abbrev pub with_value : Flag → Text → LiveArgs → Option LiveArgs
  with_value port_option v args = and_then (int_value v) (λ p. some (record args { port = p }))
  with_value log_path_option v args =
      and_then (value_of v) (λ t. some (record args { log_path = t }))
  with_value dev_origins_option v args =
      and_then (value_of v) (λ t. some (record args { dev_origins = t }))
  with_value parent_pid_option v args =
      and_then (int_value v) (λ p. some (record args { parent_pid = some p }))
  with_value _ v args = none

  -- The state of the parser: an option that waits for its value, or none.
  unfoldable pub parse_args : Option Flag → LiveArgs → List Text → Option LiveArgs
  unfolding flag_of
  parse_args none args [] = some args
  parse_args (some option) args [] = none
  parse_args (some option) args (arg ∷ rest) = elim (with_value option arg args) [
    | none ↦ none
    | some args' ↦ parse_args none args' rest
  ]
  parse_args none args (arg ∷ rest) = elim (flag_of arg) [
    | dev_option ↦ parse_args none (record args { dev = true }) rest
    | verbose_option ↦ parse_args none (record args { verbose = true }) rest
    | unknown ↦ none
    | option ↦ parse_args (some option) args rest
  ]

  -- `parse_live_args`, from the defaults; `none` is argparse's exit with an error.
  unfoldable pub parse_live_args : LiveArgs → List Text → Option LiveArgs
  unfolding parse_args
  parse_live_args defaults argv = parse_args none defaults argv
