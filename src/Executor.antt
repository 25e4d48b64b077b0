-- ===== src/Executor.antt =====
-- executor/executor.go: options, retries and the result of a command. Running the process is a
-- parameter, so is the wait between two attempts. Custom writers take part as their presence only.
pub mod Retries
pub mod Environment
use catalyst_forge_libs.Common.{
  ℕ, zero, suc, ◌+◌, ◌*◌, ◌%◌, ◌^◌, Bool, true, false, not, Option, none, some, List, [], ◌∷◌, Str,
  leb, ltb, ◌==◌, is_empty, ◌||◌, ◌&&◌, if◌then◌else◌,
}
use catalyst_forge_libs.Common.Dict.{Dict, insert}
use catalyst_forge_libs.Common.Words.{add64}

pub data Error : Type 0 where
  -- of cmd.Run: the exit code, or a process that did not start
  exited : ℕ → Error
  not_started : Error
  -- the wrappings
  execution_failed : Error → Error
  cancelled_during_retry : Error

-- ExitCode is `none` for -1.
pub record Result : Type 0 where
  pub stdout : Str
  pub stderr : Str
  pub combined : Str
  pub exit_code : Option ℕ
  pub error : Option Error

-- MaxRetries is an int64 bit pattern. A nil map of variables is `none`.
pub record Options : Type 0 where
  pub capture_stdout : Bool
  pub capture_stderr : Bool
  pub capture_combined : Bool
  pub redirect_to_console : Bool
  pub max_retries : ℕ
  pub retry_delay : ℕ
  pub retry_on : Option (Error → Bool)
  pub working_dir : Str
  pub env : Option (Dict Str)
  pub has_stdout_writer : Bool
  pub has_stderr_writer : Bool

abbrev pub default_options : Options
default_options = record {
  capture_stdout = true;
  capture_stderr = true;
  capture_combined = false;
  redirect_to_console = false;
  max_retries = 0;
  retry_delay = 1_000_000_000;
  retry_on = none;
  working_dir = [];
  env = some [];
  has_stdout_writer = false;
  has_stderr_writer = false;
}

pub data Setting : Type 0 where
  with_capture : (stdout stderr combined : Bool) → Setting
  with_console_redirect : Bool → Setting
  with_retry : (max_retries delay : ℕ) → Setting
  with_retry_condition : (Error → Bool) → Setting
  with_working_dir : Str → Setting
  with_env : Dict Str → Setting
  with_env_var : Str → Str → Setting
  with_stdout_writer with_stderr_writer capture_all silent_mode console_only : Setting

-- for k, v := range env { o.Env[k] = v }
unfoldable pub put_all : Dict Str → Dict Str → Dict Str
unfolding insert
put_all [] m = m
put_all ((k, v) ∷ vars) m = put_all vars (insert k v m)

abbrev pub made : Option (Dict Str) → Dict Str
made none = []
made (some m) = m

unfoldable pub apply_setting : Setting → Options → Options
unfolding put_all
apply_setting (with_capture out er combined) o = record o {
  capture_stdout = out;
  capture_stderr = er;
  capture_combined = combined;
}
apply_setting (with_console_redirect redirect) o = record o { redirect_to_console = redirect }
apply_setting (with_retry max_retries delay) o = record o {
  max_retries = max_retries;
  retry_delay = delay;
}
apply_setting (with_retry_condition f) o = record o { retry_on = some f }
apply_setting (with_working_dir dir) o = record o { working_dir = dir }
apply_setting (with_env vars) o = record o { env = some (put_all vars (made o.env)) }
apply_setting (with_env_var k v) o = record o { env = some (insert k v (made o.env)) }
apply_setting with_stdout_writer o = record o { has_stdout_writer = true }
apply_setting with_stderr_writer o = record o { has_stderr_writer = true }
apply_setting capture_all o = record o {
  capture_stdout = true;
  capture_stderr = true;
  redirect_to_console = true;
}
apply_setting silent_mode o = record o {
  capture_stdout = true;
  capture_stderr = true;
  redirect_to_console = false;
}
apply_setting console_only o = record o {
  capture_stdout = false;
  capture_stderr = false;
  redirect_to_console = true;
}

unfoldable pub apply_settings : List Setting → Options → Options
unfolding apply_setting
apply_settings [] o = o
apply_settings (s ∷ settings) o = apply_settings settings (apply_setting s o)

-- The merged options, and the options of the executor after it: the copy is shallow, so the two share
-- the map of variables where there is one.
unfoldable pub merge_options : List Setting → Options → Options × Options
unfolding apply_settings
merge_options settings base =
    let merged = apply_settings settings base in
    (merged, record base { env = elim base.env [ none ↦ none | some m ↦ merged.env ] })

-- What setupCommand gives the process: the directory, the variables that are added to the process's
-- own, and the input, each where it is not empty.
pub record Command : Type 0 where
  pub dir : Option Str
  pub env : Option (Dict Str)
  pub stdin : Option Str

unfoldable pub setup_command : Str → Options → Command
setup_command input o = record {
  dir = if is_empty o.working_dir then none else some o.working_dir;
  env = elim o.env [ none ↦ none | some m ↦ if is_empty m then none else some m ];
  stdin = if is_empty input then none else some input;
}

-- What a process wrote, by stream and in the order in which it came, and the error of cmd.Run.
pub record Output : Type 0 where
  pub out : Str
  pub err : Str
  pub both : Str
  pub failure : Option Error

abbrev pub exit_code_of : Option Error → Option ℕ
exit_code_of none = some 0
exit_code_of (some (exited code)) = some code
exit_code_of (some e) = none

-- The buffers that setupOutputCapture fills, read by createResult.
unfoldable pub create_result : Options → Output → Result
create_result o output = record {
  stdout = if o.capture_stdout && not o.capture_combined then output.out else [];
  stderr = if o.capture_stderr && not o.capture_combined then output.err else [];
  combined = if o.capture_combined then output.both else [];
  exit_code = exit_code_of output.failure;
  error = output.failure;
}

-- What ExecuteWithInput returns, or the nil pointer that it dereferences.
pub data Returned : Type 0 where
  returned : Result → Option Error → Returned
  panicked : Returned

-- maxAttempts, and the number of rounds that a loop from 1 up to it makes.
unfoldable pub attempts_of : ℕ → ℕ
unfolding add64
attempts_of max_retries =
    let max_attempts = add64 max_retries 1 in if leb (2 ^ 63) max_attempts then 0 else max_attempts

abbrev pub wants_retry : Option (Error → Bool) → Error → Bool
wants_retry none e = true
wants_retry (some f) e = f e

module _ {W : Type 0} (run : Command → W → Output × W) (wait : ℕ → W → Bool × W) where
  unfoldable pub execute_once : Str → Options → W → Result × Option Error × W
  unfolding setup_command create_result
  execute_once input o w =
      let (output, w') = run (setup_command input o) w in
      (
        create_result o output,
        elim output.failure [ none ↦ none | some e ↦ some (execution_failed e) ],
        w',
      )

  -- The loop, by the number of attempts that are left. `wait` says whether the context was done first.
  unfoldable pub try_attempts : ℕ → Option Result → Str → Options → W → Returned × W
  unfolding execute_once
  try_attempts zero last_result input o w =
      (elim last_result [ none ↦ panicked | some result ↦ returned result result.error ], w)
  try_attempts (suc left) last_result input o w =
      let (result, failed, w') = execute_once input o w in
      let (done, w'') = wait o.retry_delay w' in
      let later = try_attempts left (some result) input o w'' in
      elim failed [
        | none ↦ (returned result none, w')
        | some e ↦
            if left == 0
            then (returned result (some e), w')
            else if not (wants_retry o.retry_on e)
            then (returned result (some e), w')
            else if done
            then (returned result (some cancelled_during_retry), w'')
            else later
      ]

  -- The answer, the options of the executor and the world after it.
  unfoldable pub execute_with_input : Str → List Setting → Options → W → Returned × Options × W
  unfolding merge_options try_attempts attempts_of
  execute_with_input input settings base w =
      let (o, base') = merge_options settings base in
      let (answer, w') = try_attempts (attempts_of o.max_retries) none input o w in
      (answer, base', w')
