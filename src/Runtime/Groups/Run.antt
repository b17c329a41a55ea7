-- ===== src/Runtime/Groups/Run.antt =====
-- python/scmdb_watcher/test_groups_service.py, `run_test_groups`: one group after the other, and what
-- the callbacks are told. What `subprocess.run` answers is given for each group.
use scmdb_log_watcher_es.Base.{
  ℕ, Bool, ◌&&◌, ◌||◌, Option, none, some, List, [], ◌∷◌, ◌++◌, leb, ◌==◌, if◌then◌else◌,
}
use scmdb_log_watcher_es.Text.{Text, codes, strip, newline, carriage_return, onto_head}
use scmdb_log_watcher_es.Runtime.Groups.{Counts, parse_group_result}

pub record TestGroup : Type 0 where
  pub key : Text
  pub files : List Text

pub record TestGroupResult : Type 0 where
  pub key : Text
  pub ok : Bool
  pub tests_run : ℕ
  pub failures : ℕ
  pub errors : ℕ
  pub output : Text

-- `DEFAULT_TEST_GROUPS`
abbrev pub default_test_groups : List TestGroup
default_test_groups =
    record {
      key = codes "tests_group_core";
      files = codes "test_domain.py" ∷ codes "test_paths.py" ∷ codes "test_validators.py" ∷ [];
    }
    ∷ record {
      key = codes "tests_group_runtime";
      files =
          codes "test_runtime_service.py"
          ∷ codes "test_process_service.py"
          ∷ codes "test_live_runtime_service.py"
          ∷ codes "test_startup_checklist.py"
          ∷ [];
    }
    ∷ record { key = codes "tests_group_import"; files = codes "test_import_service.py" ∷ [] }
    ∷ record {
      key = codes "tests_group_gui";
      files =
          codes "test_gui_controller.py"
          ∷ codes "test_gui_i18n.py"
          ∷ codes "test_gui_settings.py"
          ∷ codes "test_gui_status.py"
          ∷ codes "test_gui_view.py"
          ∷ codes "test_app_logging.py"
          ∷ [];
    }
    ∷ record { key = codes "tests_group_updates"; files = codes "test_update_service.py" ∷ [] }
    ∷ []

-- The characters at which `str.splitlines` cuts.
unfoldable pub is_line_break : ℕ → Bool
is_line_break c =
    (leb 10 c && leb c 13) || (leb 28 c && leb c 30) || c == 0x85 || c == 0x2028 || c == 0x2029

-- `s.splitlines()`: a carriage return with the line feed behind it is one break.
unfoldable pub text_lines : Text → List Text
unfolding is_line_break
text_lines [] = []
text_lines (c ∷ []) = if is_line_break c then [] ∷ [] else (c ∷ []) ∷ []
text_lines (c ∷ d ∷ s) =
    let rest = text_lines (d ∷ s) in
    let further = text_lines s in
    if c == carriage_return && d == newline
    then [] ∷ further
    else if is_line_break c
    then [] ∷ rest
    else onto_head c rest

-- `subprocess.run`: it raises, or there are the exit code, the output and the error output.
pub data Answer : Type 0 where
  not_run : Answer
  ran : ℕ → Text → Text → Answer

-- `"\n".join(part for part in [...] if part).strip()`
abbrev pub merged : Text → Text → Text
merged [] error = strip error
merged (c ∷ out) [] = strip (c ∷ out)
merged (c ∷ out) (d ∷ error) = strip ((c ∷ out) ++ (newline ∷ d ∷ error))

abbrev pub result_of : Text → ℕ → Text → Counts → TestGroupResult
result_of key returncode output (tests_run, failures, errors) = record {
  key = key;
  ok = returncode == 0;
  tests_run = tests_run;
  failures = failures;
  errors = errors;
  output = output;
}

abbrev pub with_counts : Text → ℕ → Text → Option Counts → Option TestGroupResult
with_counts key returncode output none = none
with_counts key returncode output (some counts) = some (result_of key returncode output counts)

-- The result of one group; `none` is an exception.
unfoldable pub group_result : (Text → Option ℕ) → Answer → TestGroup → Option TestGroupResult
unfolding text_lines parse_group_result
group_result int_of not_run group = none
group_result int_of (ran returncode stdout stderr) group =
    with_counts group.key returncode (merged (strip stdout) (strip stderr))
      (parse_group_result int_of (text_lines stdout))

-- What the callbacks are told, in order.
pub data Call : Type 0 where
  group_start : TestGroup → Call
  group_done : TestGroupResult → Call

abbrev pub more_results :
    TestGroupResult → Option (List TestGroupResult) → Option (List TestGroupResult)
more_results r none = none
more_results r (some rs) = some (r ∷ rs)

abbrev pub one_group :
    TestGroup
    → Option TestGroupResult
    → List Call × Option (List TestGroupResult)
    → List Call × Option (List TestGroupResult)
one_group group none more = (group_start group ∷ [], none)
one_group group (some r) (calls, results) =
    (group_start group ∷ group_done r ∷ calls, more_results r results)

-- The calls, and the results; `none` is the exception, which ends the loop.
unfoldable pub run_test_groups :
    (Text → Option ℕ)
    → (TestGroup → Answer)
    → List TestGroup
    → List Call × Option (List TestGroupResult)
unfolding group_result
run_test_groups int_of answer [] = ([], some [])
run_test_groups int_of answer (group ∷ groups) =
    one_group group (group_result int_of (answer group) group)
      (run_test_groups int_of answer groups)
