-- ===== src/Client/Retry.antt =====
-- How often `Sign` asks the service, and how it ends.
use codesign.Common.{
  ℕ, zero, suc, ◌+◌, ◌≤◌, ◌<◌, ◌≡◌, refl, ap, ◌⊎◌, inl, inr, Bool, true, false, arith, Bytes, codes,
}
use mathlib.Core.Path.{subst}
use native.Mathlib.Decide.{dec_lt}
use codesign.Common.Errors.{Error, Result, ok, err, wrap, ◌>>=◌}
use codesign.Client.{
  Config, SignOptions, Post, Attempt, validate_headers, sign_post, sign_once, after_wait,
  after_attempt, attempts, last_attempt, sign,
}

module _ (post : Post) (web : ℕ → Attempt) where
  -- Attempt `k` fails in a way that is worth a retry.
  abbrev pub Weather : ℕ → Error → Type 0
  Weather k e = sign_once post (web k) ≡ (err e, true)

  -- How the last attempt, `k`, gives the result, where no attempt behind `last` is allowed.
  pub data Final (last k : ℕ) (result : Result Bytes) : Type 0 where
    signed :
        (file : Bytes)
        → (sign_once post (web k)).0 ≡ ok file
        → result ≡ ok file
        → Final last k result
    permanent :
        (e : Error) → sign_once post (web k) ≡ (err e, false) → result ≡ err e → Final last k result
    exhausted : (e : Error) → k ≡ last → Weather k e → result ≡ err e → Final last k result
    canceled :
        (e stopped : Error)
        → k < last
        → Weather k e
        → (web (suc k)).waiting ≡ err stopped
        → result ≡ err (wrap (codes "waiting to retry") stopped)
        → Final last k result

  pub record Run (first last : ℕ) (result : Result Bytes) : Type 0 where
    pub k : ℕ
    pub from_first : first ≤ k
    pub to_last : k ≤ last
    pub retried :
        (j : ℕ) → first ≤ j → j < k → (e : Error) × Weather j e × ((web (suc j)).waiting ≡ ok tt)
    pub final : Final last k result

  Run-only :
      (first last : ℕ) (result : Result Bytes)
      → first ≤ last
      → Final last first result
      → Run first last result
  Run-only first last result h f = record {
    k = first;
    from_first = omega arith;
    to_last = h;
    retried = λ j a b. absurd (omega arith);
    final = f;
  }

  Run-later :
      (first last : ℕ) (result : Result Bytes) (e : Error)
      → Weather first e
      → (web (suc first)).waiting ≡ ok tt
      → Run (suc first) last result
      → Run first last result
  Run-later first last result e w wait r = record {
    k = r.k;
    from_first = omega (arith, r.from_first);
    to_last = r.to_last;
    retried = λ j a b. elim (dec_lt first j) [
      | yes behind ↦ r.retried j behind b
      | no before ↦
          subst (λ i. (x : Error) × Weather i x × ((web (suc i)).waiting ≡ ok tt)) (omega arith)
            (e, w, wait)
    ];
    final = r.final;
  }

  last_attempt-Final :
      (k : ℕ) (x : Result Bytes × Bool) → sign_once post (web k) ≡ x → Final k k (last_attempt x)
  last_attempt-Final k (ok file, b) h = signed file (ap (λ p. p.0) h) refl
  last_attempt-Final k (err e, true) h = exhausted e refl h refl
  last_attempt-Final k (err e, false) h = permanent e h refl

  after_wait-Run :
      (k last : ℕ) (e : Error) (more : Result Bytes) (y : Result (Unit {0}))
      → k < last
      → Weather k e
      → (web (suc k)).waiting ≡ y
      → Run (suc k) last more
      → Run k last (after_wait y more)
  after_wait-Run k last e more (ok _) h w wait r = Run-later k last more e w wait r
  after_wait-Run k last e more (err stopped) h w wait r =
      Run-only k last _ (omega arith) (canceled e stopped h w wait refl)

  after_attempt-Run :
      (k last : ℕ) (more : Result Bytes) (x : Result Bytes × Bool)
      → k < last
      → sign_once post (web k) ≡ x
      → Run (suc k) last more
      → Run k last (after_attempt x (after_wait (web (suc k)).waiting more))
  after_attempt-Run k last more (ok file, b) h is_x r =
      Run-only k last _ (omega arith) (signed file (ap (λ p. p.0) is_x) refl)
  after_attempt-Run k last more (err e, false) h is_x r =
      Run-only k last _ (omega arith) (permanent e is_x refl)
  after_attempt-Run k last more (err e, true) h is_x r =
      after_wait-Run k last e more (web (suc k)).waiting h is_x refl r

  attempts-Run : (left k last : ℕ) → last ≡ k + left → Run k last (attempts post web left k)
  unfolding attempts
  attempts-Run zero k last h = Run-only k last _ (omega arith) (
      subst (λ l. Final l k (last_attempt (sign_once post (web k)))) (omega arith)
        (last_attempt-Final k (sign_once post (web k)) refl))
  attempts-Run (suc left) k last h =
      after_attempt-Run k last _ (sign_once post (web k)) (omega arith) refl
        (attempts-Run left (suc k) last (omega arith))

module _ (config : Config) (web : ℕ → Attempt) (filename file : Bytes) (opts : SignOptions) where
  -- `Sign` either refuses the metadata, without any attempt, or posts the same request in attempts
  -- 0 to `k`, where `k` is at most `Retries`: each attempt before the last one failed in a way that
  -- is worth a retry and was followed by an undisturbed wait, and the last one gives the result,
  -- because it succeeded, failed for good, had no retry left, or the context ended in the wait
  -- behind it.
  pub sign-Run :
      ((e : Error) × (validate_headers filename opts ≡ err e)
        × (sign config web filename file opts ≡ err e))
      ⊎ ((validate_headers filename opts ≡ ok tt)
          × Run
              (sign_post config filename file opts)
              web
              0
              config.retries
              (sign config web filename file opts))
  unfolding sign
  sign-Run = by_headers (validate_headers filename opts)
    where
      by_headers :
          (x : Result (Unit {0}))
          → ((e : Error) × (x ≡ err e)
              × ((x >>= λ _. attempts (sign_post config filename file opts) web config.retries 0)
                  ≡ err e))
            ⊎ ((x ≡ ok tt)
                × Run (sign_post config filename file opts) web 0 config.retries (
                    x >>= λ _. attempts (sign_post config filename file opts) web config.retries 0))
      by_headers (err e) = inl (e, refl, refl)
      by_headers (ok _) = inr (
        refl,
        attempts-Run (sign_post config filename file opts) web config.retries 0 config.retries
            (omega arith),
      )
