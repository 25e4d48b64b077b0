-- ===== src/Executor/Retries.antt =====
-- The retries of ExecuteWithInput in executor/executor.go.
use catalyst_forge_libs.Common.{
  ℕ, zero, suc, ◌+◌, ◌^◌, ◌<◌, ◌≤◌, Bool, true, false, Option, none, some, List, ◌≡◌, ◌≢◌, refl,
  sym, ◌∙◌, ap, arith, Str,
}
use catalyst_forge_libs.Executor.{
  Error, Result, Options, Setting, Command, setup_command, Output, create_result, Returned,
  panicked, attempts_of, wants_retry, try_attempts, merge_options, execute_with_input,
}

-- A process runner and a wait that also count how often the runner is called.
abbrev pub counted : {W : Type 0} → (Command → W → Output × W) → Command → W × ℕ → Output × (W × ℕ)
counted run command (w, n) = let (output, w') = run command w in (output, (w', n + 1))

abbrev pub uncounted : {W : Type 0} → (ℕ → W → Bool × W) → ℕ → W × ℕ → Bool × (W × ℕ)
uncounted wait delay (w, n) = let (done, w') = wait delay w in (done, (w', n))

module _ {W : Type 0} (run : Command → W → Output × W) (wait : ℕ → W → Bool × W) (input : Str)
    (o : Options) where
  abbrev Attempts : ℕ → Option Result → W → ℕ → Returned × (W × ℕ)
  Attempts left last w n = try_attempts (counted run) (uncounted wait) left last input o (w, n)

  attempts_bounds :
      (left : ℕ) (last : Option Result) (w : W) (n : ℕ)
      → (n ≤ (Attempts left last w n).1.1) × ((Attempts left last w n).1.1 ≤ n + left)
  unfolding try_attempts
  attempts_bounds zero last w n = (omega arith, omega arith)
  attempts_bounds (suc left) last w n =
      let command = setup_command input o in
      let (output, w') = run command w in
      let (done, w'') = wait o.retry_delay w' in
      let later = attempts_bounds left (some (create_result o output)) w'' (n + 1) in
      ground (arith, later)

  attempts_answer :
      (left : ℕ) (r : Result) (w : W) (n : ℕ) → (Attempts left (some r) w n).0 ≢ panicked
  unfolding try_attempts
  attempts_answer zero r w n = λ e. cc
  attempts_answer (suc left) r w n =
      let command = setup_command input o in
      let (output, w') = run command w in
      let (done, w'') = wait o.retry_delay w' in
      let later = attempts_answer left (create_result o output) w'' (n + 1) in ground (arith, later)

  first_attempt :
      (left : ℕ) (last : Option Result) (w : W) (n : ℕ)
      → ((Attempts (suc left) last w n).0 ≢ panicked) × (n + 1 ≤ (Attempts (suc left) last w n).1.1)
  unfolding try_attempts
  first_attempt left last w n =
      let command = setup_command input o in
      let (output, w') = run command w in
      let (done, w'') = wait o.retry_delay w' in
      let later = attempts_bounds left (some (create_result o output)) w'' (n + 1) in
      let answers = attempts_answer left (create_result o output) w'' (n + 1) in
      (ground (arith, answers), ground (arith, later))

  attempts_exhausted :
      (e : Error)
      → ((command : Command) (w : W) → (run command w).0.failure ≡ some e)
      → ((delay : ℕ) (w : W) → (wait delay w).0 ≡ false)
      → wants_retry o.retry_on (Error.execution_failed e) ≡ true
      → (left : ℕ) (last : Option Result) (w : W) (n : ℕ) → (Attempts left last w n).1.1 ≡ n + left
  unfolding try_attempts
  attempts_exhausted e fails on retry zero last w n = omega arith
  attempts_exhausted e fails on retry (suc left) last w n =
      let command = setup_command input o in
      let (output, w') = run command w in
      let (done, w'') = wait o.retry_delay w' in
      let later =
        attempts_exhausted e fails on retry left (some (create_result o output)) w'' (n + 1) in
      ground (arith, later, fails command w, on o.retry_delay w', retry)

attempts_of_fits : (n : ℕ) → n + 1 < 2 ^ 63 → attempts_of n ≡ suc n
unfolding attempts_of
attempts_of_fits n h = ground arith

attempts_of_wraps : (n : ℕ) → 2 ^ 63 ≤ n + 1 → n < 2 ^ 64 → attempts_of n ≡ 0
unfolding attempts_of
attempts_of_wraps n h k = ground arith

module _ {W : Type 0} (run : Command → W → Output × W) (wait : ℕ → W → Bool × W) where
  execute_is_attempts :
      (input : Str) (settings : List Setting) (base : Options) (w : W) (k : ℕ)
      → attempts_of (merge_options settings base).0.max_retries ≡ k
      → ((execute_with_input (counted run) (uncounted wait) input settings base (w, 0)).0
          ≡ (Attempts run wait input (merge_options settings base).0 k none w 0).0)
        × ((execute_with_input (counted run) (uncounted wait) input settings base (w, 0)).2.1
            ≡ (Attempts run wait input (merge_options settings base).0 k none w 0).1.1)
  unfolding execute_with_input
  execute_is_attempts input settings base w k h = (
    ap (λ j. (Attempts run wait input (merge_options settings base).0 j none w 0).0) h,
    ap (λ j. (Attempts run wait input (merge_options settings base).0 j none w 0).1.1) h,
  )

  -- With fewer than 2 ^ 63 - 1 retries, none of them a negative number, an execution returns, after at
  -- least one run of the process and at most one more than there are retries.
  pub execute_attempts :
      (input : Str) (settings : List Setting) (base : Options) (w : W)
      → (merge_options settings base).0.max_retries + 1 < 2 ^ 63
      → let (answer, _, (w', n)) =
          execute_with_input (counted run) (uncounted wait) input settings base (w, 0) in
        (answer ≢ panicked) × (1 ≤ n) × (n ≤ (merge_options settings base).0.max_retries + 1)
  execute_attempts input settings base w small =
      let o = (merge_options settings base).0 in
      let (same, count) =
        execute_is_attempts input settings base w (suc o.max_retries)
          (attempts_of_fits o.max_retries small) in
      let (answers, once) = first_attempt run wait input o o.max_retries none w 0 in
      let bounds = attempts_bounds run wait input o (suc o.max_retries) none w 0 in
      (λ e. answers (sym same ∙ e), omega (arith, count, once), omega (arith, count, bounds))

  -- A negative number of retries, or the greatest int64, makes every execution panic, and the process
  -- is never run.
  pub negative_retries_panic :
      (input : Str) (settings : List Setting) (base : Options) (w : W)
      → 2 ^ 63 ≤ (merge_options settings base).0.max_retries + 1
      → (merge_options settings base).0.max_retries < 2 ^ 64
      → let (answer, _, (w', n)) =
          execute_with_input (counted run) (uncounted wait) input settings base (w, 0) in
        (answer ≡ panicked) × (n ≡ 0)
  negative_retries_panic input settings base w negative word =
      let n = (merge_options settings base).0.max_retries in
      let (same, count) =
        execute_is_attempts input settings base w 0 (attempts_of_wraps n negative word) in
      (same ∙ unfold try_attempts in refl, count ∙ unfold try_attempts in refl)

  -- Where every run of the process fails with an error that is to be retried and the context is never
  -- done, the process is run exactly once more than there are retries.
  pub execute_exhausts :
      (input : Str) (settings : List Setting) (base : Options) (w : W) (e : Error)
      → (merge_options settings base).0.max_retries + 1 < 2 ^ 63
      → ((command : Command) (w : W) → (run command w).0.failure ≡ some e)
      → ((delay : ℕ) (w : W) → (wait delay w).0 ≡ false)
      → wants_retry (merge_options settings base).0.retry_on (Error.execution_failed e) ≡ true
      → (execute_with_input (counted run) (uncounted wait) input settings base (w, 0)).2.1
        ≡ (merge_options settings base).0.max_retries + 1
  execute_exhausts input settings base w e small fails on retry =
      let o = (merge_options settings base).0 in
      let (same, count) =
        execute_is_attempts input settings base w (suc o.max_retries)
          (attempts_of_fits o.max_retries small) in
      let exact =
        attempts_exhausted run wait input o e fails on retry (suc o.max_retries) none w 0 in
      omega (arith, count, exact)
