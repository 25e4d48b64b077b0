-- ===== src/Tests/Commands.antt =====
-- Examples for executor/executor.go.
use catalyst_forge_libs.Common.{
  ℕ, suc, ◌+◌, ◌≤◌, Bool, false, some, [], ◌∷◌, ◌≡◌, refl, arith, codes, str_eq,
}
use catalyst_forge_libs.Common.Dict.{lookup}
use catalyst_forge_libs.Executor.{
  exited, default_options, with_env_var, with_retry, Output, Command, merge_options, panicked,
  execute_with_input, made,
}
use catalyst_forge_libs.Executor.Retries.{
  counted, uncounted, execute_attempts, negative_retries_panic,
}
use catalyst_forge_libs.Executor.Environment.{merge_options_lem}

-- A process that always fails, on a world that is a clock.
abbrev failing : Command → ℕ → Output × ℕ
failing command now =
    (record { out = codes "o"; err = []; both = []; failure = some (exited 3) }, suc now)

abbrev patient : ℕ → ℕ → Bool × ℕ
patient delay now = (false, now + delay)

execute_attempts_example :
    1
    ≤ (execute_with_input
        (counted failing)
        (uncounted patient)
        []
        (with_retry 2 5 ∷ [])
        default_options
        (0, 0)).2.1
unfolding merge_options
execute_attempts_example =
    (execute_attempts failing patient [] (with_retry 2 5 ∷ []) default_options 0 (omega arith)).1

-- MaxRetries is -1.
negative_retries_panic_example :
    (execute_with_input
      (counted failing)
      (uncounted patient)
      []
      (with_retry 18446744073709551615 5 ∷ [])
      default_options
      (0, 0)).0
    ≡ panicked
unfolding merge_options
negative_retries_panic_example =
    (negative_retries_panic failing patient [] (with_retry 18446744073709551615 5 ∷ [])
      default_options 0 (omega arith) (omega arith)).0

-- The token that one execution sets is there in the next one, which sets nothing.
merge_options_lem_example :
    lookup (codes "T") (
      made
        (merge_options []
          (merge_options (with_env_var (codes "T") (codes "secret") ∷ []) default_options).1).0.env)
    ≡ some (codes "secret")
unfolding str_eq
merge_options_lem_example =
    (merge_options_lem (with_env_var (codes "T") (codes "secret") ∷ []) [] default_options []
      (codes "T") refl).1
