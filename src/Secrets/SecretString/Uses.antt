-- ===== src/Secrets/SecretString/Uses.antt =====
-- How often a `SecretString` hands its secret out, and how often it asks its resolver.
use catalyst_forge_libs.Common.{
  ℕ, ◌+◌, ◌≤◌, Bool, true, false, none, some, List, [], ◌∷◌, ◌≡◌, refl, arith, Str, All, inl, inr,
  Bool-cases, Option-cases, if◌then◌else◌,
}
use catalyst_forge_libs.Secrets.Types.{Secret, ok, is_ok}
use catalyst_forge_libs.Secrets.Secret.{zero_out, zero_out_zeros}
use catalyst_forge_libs.Secrets.SecretString
use catalyst_forge_libs.Secrets.SecretString.{
  SecretString, Resolver, resolve, string, bytes, bytes_of, clear_cached, is_consumed, copy_secret,
  ask, take_answer,
}

-- One call of a method on the secret string.
pub data Use : Type 0 where
  resolving reading_string reading_bytes clearing : Use

-- Whether the call hands the secret out, and the state after it.
unfoldable pub attempt :
    {W : Type 0} → Resolver W → Use → SecretString → W → Bool × SecretString × W
unfolding SecretString.resolve SecretString.string SecretString.bytes clear_cached
attempt resolver resolving s w =
    let (r, s', w') = SecretString.resolve resolver s w in (is_ok r, s', w')
attempt resolver reading_string s w =
    let (r, s', w') = SecretString.string resolver s w in (is_ok r, s', w')
attempt resolver reading_bytes s w =
    let (r, s', w') = SecretString.bytes resolver s w in (is_ok r, s', w')
attempt resolver clearing s w = (false, (clear_cached s).0, w)

-- How many calls of a sequence hand the secret out, and the state of the resolver at the end.
unfoldable pub run_uses : {W : Type 0} → Resolver W → List Use → SecretString → W → ℕ × W
run_uses resolver [] s w = (0, w)
run_uses resolver (u ∷ us) s w =
    let (served, s', w') = attempt resolver u s w in
    let (n, w'') = run_uses resolver us s' w' in ((if served then 1 else 0) + n, w'')

module _ {W : Type 0} (resolver : Resolver W) where
  -- What one call keeps of a one-time secret.
  attempt_one_time :
      (u : Use) (s : SecretString) (w : W)
      → s.one_time_use ≡ true
      → ((attempt resolver u s w).1.one_time_use ≡ true)
        × ((attempt resolver u s w).0 ≡ true → (attempt resolver u s w).1.consumed ≡ true)
        × (s.consumed ≡ true
            → ((attempt resolver u s w).0 ≡ false)
              × ((attempt resolver u s w).1.consumed ≡ true)
              × ((attempt resolver u s w).2 ≡ w))
  unfolding attempt
  attempt_one_time resolving s w h =
      (ground arith, λ k. ground arith, λ k. (ground arith, ground arith, ground arith))
  attempt_one_time reading_string s w h =
      (ground arith, λ k. ground arith, λ k. (ground arith, ground arith, ground arith))
  attempt_one_time reading_bytes s w h =
      (ground arith, λ k. ground arith, λ k. (ground arith, ground arith, ground arith))
  attempt_one_time clearing s w h =
      (ground arith, λ k. ground arith, λ k. (ground arith, ground arith, ground arith))

  -- A one-time secret that is consumed is never handed out again, and the resolver is never asked
  -- again, whatever calls follow.
  pub consumed_is_silent :
      (us : List Use) (s : SecretString) (w : W)
      → s.one_time_use ≡ true
      → s.consumed ≡ true
      → run_uses resolver us s w ≡ (0, w)
  unfolding run_uses
  consumed_is_silent [] s w h k = refl
  consumed_is_silent (u ∷ us) s w h k =
      let (still, _, rest) = attempt_one_time u s w h in
      let (not_served, used, quiet) = rest k in
      ground (
        arith,
        not_served,
        quiet,
        consumed_is_silent us (attempt resolver u s w).1 (attempt resolver u s w).2 still used,
      )

  -- A one-time secret is handed out at most once in any sequence of calls.
  pub served_at_most_once :
      (us : List Use) (s : SecretString) (w : W)
      → s.one_time_use ≡ true
      → (run_uses resolver us s w).0 ≤ 1
  unfolding run_uses
  served_at_most_once [] s w h = omega arith
  served_at_most_once (u ∷ us) s w h =
      let after = (attempt resolver u s w).1 in
      let world = (attempt resolver u s w).2 in
      let kept = attempt_one_time u s w h in
      elim (Bool-cases (attempt resolver u s w).0) [
        | inl served ↦
            rw (served, consumed_is_silent us after world kept.0 (kept.1 served)) (omega arith)
        | inr not_served ↦ rw not_served (omega (arith, served_at_most_once us after world kept.0))
      ]

  cached_answers :
      (s : SecretString) (held : Secret) (w : W)
      → s.one_time_use ≡ false
      → s.allow_cache ≡ true
      → s.resolved ≡ some held
      → (resolve resolver s w ≡ (ok (copy_secret (some held)), s, w))
        × (string resolver s w ≡ (ok (bytes_of held.value), s, w))
        × (bytes resolver s w ≡ (ok (some (bytes_of held.value)), s, w))
  unfolding resolve string bytes
  cached_answers s held w once caching filled = (ground arith, ground arith, ground arith)

  cache_filled :
      (s : SecretString) (w : W) (x : Secret)
      → s.one_time_use ≡ false
      → s.allow_cache ≡ true
      → (resolve resolver s w).0 ≡ ok (some x)
      → (held : Secret) × ((resolve resolver s w).1.resolved ≡ some held)
        × ((resolve resolver s w).1.one_time_use ≡ false)
        × ((resolve resolver s w).1.allow_cache ≡ true)
        × (copy_secret (some held) ≡ copy_secret (some x))
        × (bytes_of held.value ≡ bytes_of x.value)
  unfolding resolve
  cache_filled s w x once caching given = elim (Option-cases s.resolved) [
    | inl empty ↦ (
      record x { value = some (bytes_of x.value) },
      ground arith,
      ground arith,
      ground arith,
      ground arith,
      ground arith,
    )
    | inr (held, cached) ↦
        (held, ground arith, ground arith, ground arith, ground arith, ground arith)
  ]

  -- With caching and without one-time use, a Resolve that hands out a secret is the last that asks
  -- the resolver: at any later state of the resolver, Resolve, String and Bytes answer from the
  -- cache, with the same value, and change nothing.
  pub cached_after_resolve :
      (s : SecretString) (w : W) (x : Secret)
      → s.one_time_use ≡ false
      → s.allow_cache ≡ true
      → (resolve resolver s w).0 ≡ ok (some x)
      → (later : W)
      → let after = (resolve resolver s w).1 in
        (resolve resolver after later ≡ (ok (copy_secret (some x)), after, later))
        × (string resolver after later ≡ (ok (bytes_of x.value), after, later))
        × (bytes resolver after later ≡ (ok (some (bytes_of x.value)), after, later))
  cached_after_resolve s w x once caching given later =
      let after = (resolve resolver s w).1 in
      let (held, filled, still, caches, same, same_bytes) = cache_filled s w x once caching given in
      let (r, t, b) = cached_answers after held later still caches filled in (cc, cc, cc)

-- Clear leaves no secret in the cache and zeros in its memory, and consumes a one-time secret.
pub clear_cached_lem :
    (s : SecretString) (held : Secret) (value : Str)
    → s.resolved ≡ some held
    → held.value ≡ some value
    → ((clear_cached s).0.resolved ≡ none)
      × ((clear_cached s).1 ≡ some (zero_out value))
      × (is_consumed (clear_cached s).0 ≡ s.one_time_use)
      × All (λ b. b ≡ 0) (zero_out value)
unfolding clear_cached is_consumed
clear_cached_lem s held value cached there =
    (refl, ground arith, ground arith, zero_out_zeros value)
