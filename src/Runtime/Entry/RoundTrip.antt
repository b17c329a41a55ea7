-- ===== src/Runtime/Entry/RoundTrip.antt =====
-- What the window puts on the command line, the launched program reads back.
use scmdb_log_watcher_es.Base.{
  ℕ, ◌≡◌, refl, ap, ◌∙◌, false, Option, none, some, List, [], ◌∷◌, ◌==◌,
}
use scmdb_log_watcher_es.Text.{Text, codes, text_eq}
use scmdb_log_watcher_es.Config.Paths.{Config}
use scmdb_log_watcher_es.Gui.Command.{command, port_of, resolve_start_command}
use scmdb_log_watcher_es.Runtime.Entry.{
  live, launcher_main, LiveArgs, Flag, port_option, log_path_option, parent_pid_option, flag_of,
  value_of, int_value, and_then, with_value, parse_args, parse_live_args,
}

abbrev pub options : Text → Text → Text → List Text
options log_path port pid =
    codes "--log-path" ∷ log_path ∷ codes "--port" ∷ port ∷ codes "--parent-pid" ∷ pid ∷ []

live-options :
    (log_path port pid : Text)
    → launcher_main (codes "core" ∷ options log_path port pid) ≡ live (options log_path port pid)
unfolding launcher_main text_eq
live-options log_path port pid = refl

abbrev pub given : LiveArgs → Text → Text → Text → LiveArgs
given defaults log_path port pid = record defaults {
  log_path = log_path;
  port = port;
  parent_pid = some pid;
}

module _ (int_of : Text → Option Text) where
  -- An integer that is written as `str` writes it, and not taken for an option.
  abbrev pub Plain : Text → Type 0
  Plain t = (value_of t ≡ some t) × (int_of t ≡ some t)

  parse_args-value :
      (option : Flag) (args args' : LiveArgs) (v : Text) (rest : List Text)
      → with_value int_of option v args ≡ some args'
      → parse_args int_of (some option) args (v ∷ rest) ≡ parse_args int_of none args' rest
  unfolding parse_args
  parse_args-value option args args' v rest e =
      ap (λ o. elim o [ none ↦ none | some args'' ↦ parse_args int_of none args'' rest ]) e

  parse_args-log_path :
      (args : LiveArgs) (rest : List Text)
      → parse_args int_of none args (codes "--log-path" ∷ rest)
        ≡ parse_args int_of (some log_path_option) args rest
  unfolding parse_args flag_of text_eq
  parse_args-log_path args rest = refl

  parse_args-port :
      (args : LiveArgs) (rest : List Text)
      → parse_args int_of none args (codes "--port" ∷ rest)
        ≡ parse_args int_of (some port_option) args rest
  unfolding parse_args flag_of text_eq
  parse_args-port args rest = refl

  parse_args-parent_pid :
      (args : LiveArgs) (rest : List Text)
      → parse_args int_of none args (codes "--parent-pid" ∷ rest)
        ≡ parse_args int_of (some parent_pid_option) args rest
  unfolding parse_args flag_of text_eq
  parse_args-parent_pid args rest = refl

  int_value-Plain : (t : Text) → Plain t → int_value int_of t ≡ some t
  int_value-Plain t (v, i) = ap (λ o. and_then o int_of) v ∙ i

  parse_live_args-options :
      (defaults : LiveArgs) (log_path port pid : Text)
      → value_of log_path ≡ some log_path
      → Plain port
      → Plain pid
      → parse_live_args int_of defaults (options log_path port pid)
        ≡ some (given defaults log_path port pid)
  unfolding parse_live_args parse_args
  parse_live_args-options defaults log_path port pid l p q =
      let one : LiveArgs = record defaults { log_path = log_path } in
      let two : LiveArgs = record one { port = port } in
      let last = codes "--parent-pid" ∷ pid ∷ [] in
      parse_args-log_path defaults (log_path ∷ codes "--port" ∷ port ∷ last)
      ∙ parse_args-value log_path_option defaults one log_path (codes "--port" ∷ port ∷ last)
          (ap (λ o. and_then o (λ t. some (record defaults { log_path = t }))) l)
      ∙ parse_args-port one (port ∷ last)
      ∙ parse_args-value port_option one two port last
          (ap (λ o. and_then o (λ t. some (record one { port = t }))) (int_value-Plain port p))
      ∙ parse_args-parent_pid two (pid ∷ [])
      ∙ parse_args-value parent_pid_option two (given defaults log_path port pid) pid [] (
          ap (λ o. and_then o (λ t. some (record two { parent_pid = some t })))
            (int_value-Plain pid q))

  -- The command that the window resolves starts the live watcher through the launcher, and parsing its
  -- arguments gives back the path of the log, the port of the configuration and the process of the
  -- window; all else is as by default. Paths and numbers do not begin with a dash, and `int` reads
  -- the numbers as they are written.
  pub resolve_start_command-parse_live_args :
      (digits : ℕ → Text) (exe : Text) (default_port : Text) (config : Config) (defaults : LiveArgs)
      (log_path port : Text) (pid : ℕ)
      → port_of int_of default_port config ≡ some port
      → (pid == 0) ≡ false
      → value_of log_path ≡ some log_path
      → Plain port
      → Plain (digits pid)
      → (rest : List Text) × (resolve_start_command int_of digits
            (command (exe ∷ codes "core" ∷ []))
            default_port
            config
            log_path
            (some pid)
          ≡ some (command (exe ∷ codes "core" ∷ rest)))
        × (launcher_main (codes "core" ∷ rest) ≡ live rest)
        × (parse_live_args int_of defaults rest ≡ some (given defaults log_path port (digits pid)))
  unfolding resolve_start_command
  resolve_start_command-parse_live_args digits exe default_port config defaults log_path port pid
        known up l p q =
      (
        options log_path port (digits pid),
        rw (known, resolve_start_command, up) refl,
        live-options log_path port (digits pid),
        parse_live_args-options defaults log_path port (digits pid) l p q,
      )
