-- ===== src/Executor/Environment.antt =====
-- The variables of the environment in executor/executor.go.
use catalyst_forge_libs.Common.{
  Option, none, some, List, [], ◌∷◌, ◌≡◌, refl, Str, str_eq, if◌then◌else◌, ap, ◌∙◌,
}
use catalyst_forge_libs.Common.Dict.{Dict, lookup, insert, lookup-insert}
use catalyst_forge_libs.Executor.{
  Options, Setting, with_capture, with_console_redirect, with_retry, with_retry_condition,
  with_working_dir, with_env, with_env_var, with_stdout_writer, with_stderr_writer, capture_all,
  silent_mode, console_only, put_all, made, apply_setting, apply_settings, merge_options,
}

-- The last value that a list of assignments gives a variable.
abbrev pub last_value : Str → Dict Str → Option Str → Option Str
last_value k [] old = old
last_value k ((j, v) ∷ vars) old = last_value k vars (if str_eq j k then some v else old)

-- The last value that a list of settings gives a variable.
abbrev pub variable : Str → List Setting → Option Str → Option Str
variable k [] old = old
variable k (with_env vars ∷ settings) old = variable k settings (last_value k vars old)
variable k (with_env_var j v ∷ settings) old =
    variable k settings (if str_eq j k then some v else old)
variable k (s ∷ settings) old = variable k settings old

lookup-put_all :
    (k : Str) (vars m : Dict Str) → lookup k (put_all vars m) ≡ last_value k vars (lookup k m)
unfolding put_all
lookup-put_all k [] m = refl
lookup-put_all k ((j, v) ∷ vars) m =
    lookup-put_all k vars (insert j v m) ∙ ap (last_value k vars) (lookup-insert j k v m)

value_after :
    (k : Str) (settings : List Setting) (o : Options)
    → lookup k (made (apply_settings settings o).env) ≡ variable k settings (lookup k (made o.env))
unfolding apply_settings apply_setting
value_after k [] o = refl
value_after k (with_env vars ∷ settings) o =
    value_after k settings _ ∙ ap (variable k settings) (lookup-put_all k vars (made o.env))
value_after k (with_env_var j v ∷ settings) o =
    value_after k settings _ ∙ ap (variable k settings) (lookup-insert j k v (made o.env))
value_after k (with_capture a b c ∷ settings) o = value_after k settings _
value_after k (with_console_redirect r ∷ settings) o = value_after k settings _
value_after k (with_retry n d ∷ settings) o = value_after k settings _
value_after k (with_retry_condition f ∷ settings) o = value_after k settings _
value_after k (with_working_dir d ∷ settings) o = value_after k settings _
value_after k (with_stdout_writer ∷ settings) o = value_after k settings _
value_after k (with_stderr_writer ∷ settings) o = value_after k settings _
value_after k (capture_all ∷ settings) o = value_after k settings _
value_after k (silent_mode ∷ settings) o = value_after k settings _
value_after k (console_only ∷ settings) o = value_after k settings _

shared :
    (base : Options) (m : Dict Str) (e : Option (Dict Str))
    → base.env ≡ some m
    → (elim base.env as (λ _. Option (Dict Str)) [ none ↦ none | some held ↦ e ]) ≡ e
shared base m e h = rw h refl

-- On an executor with a map of variables, as New makes it, each execution has for each variable the
-- last value that its own settings give it, else the executor's; and what the settings of one
-- execution give stays in the executor: a later execution with settings of its own starts from it.
pub merge_options_lem :
    (settings later : List Setting) (base : Options) (m : Dict Str) (k : Str)
    → base.env ≡ some m
    → let (merged, base') = merge_options settings base in
      (lookup k (made merged.env) ≡ variable k settings (lookup k m))
      × (lookup k (made (merge_options later base').0.env)
          ≡ variable k later (variable k settings (lookup k m)))
unfolding merge_options
merge_options_lem settings later base m k h =
    let first = value_after k settings base ∙ ap (λ e. variable k settings (lookup k (made e))) h in
    (
      first,
      value_after k later _
          ∙ ap (λ e. variable k later (lookup k (made e)))
              (shared base m (apply_settings settings base).env h)
          ∙ ap (variable k later) first,
    )
