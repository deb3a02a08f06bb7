-- ===== src/Retry.antt =====
-- internal/obs/retry: Do with its policy. The hooks of a policy only log, and the metrics and spans are
-- not modelled; the waits between attempts are a function of the attempt (Backoff.Next).
pub mod Bounds
pub mod Keeps
use pingerus.Base.{
  ℕ, zero, suc, ◌+◌, ◌*◌, ◌^◌, Bool, true, false, not, ◌&&◌, ◌||◌, ltb, leb, ◌==◌, if◌then◌else◌,
  Option, none, some,
}
use pingerus.Base.Int.{ℤ, limit_or}
use pingerus.World.{World, Op, attempt, pure, raise, sleep, ◌>>=◌, ◌>>◌}
use pingerus.World.Errors.{Error, Result, ok, err}

pub record Policy : Type 0 where
  pub attempts : ℤ
  pub next : ℕ → ℕ
  pub retryable : Option (Error → Bool)

-- ExpoJitter.Next for an attempt that is not negative; `jitter` is the product with the random factor.
unfoldable pub expo_jitter : (ℕ → ℕ) → ℕ → ℕ → ℕ → ℕ
expo_jitter jitter base max attempt =
    let d = base * 2 ^ attempt in jitter (if ltb 0 max && ltb max d then max else d)

abbrev millisecond : ℕ
millisecond = 1000000

-- DefaultKafkaPolicy
unfoldable pub default_kafka_policy : (ℕ → ℕ) → Policy
unfolding expo_jitter
default_kafka_policy jitter = record {
  attempts = ℤ.pos 6;
  next = expo_jitter jitter (200 * millisecond) (30000 * millisecond);
  retryable = some (λ e. true);
}

-- p.Retryable, and every error where it is nil.
abbrev pub is_retryable : Option (Error → Bool) → Error → Bool
is_retryable none e = true
is_retryable (some f) e = f e

-- The number of attempts: at least one.
abbrev pub rounds : Policy → ℕ
rounds p = limit_or 1 p.attempts

module _ (p : Policy) (fn : Op (Unit {0})) where
  -- After an attempt, with `left` more to make; `again` waits and makes them.
  unfoldable pub after_attempt : ℕ → Op (Unit {0}) → Result (Unit {0}) → Op (Unit {0})
  after_attempt left again (ok u) = pure tt
  after_attempt left again (err e) =
      if not (is_retryable p.retryable e) || left == 0 then raise e else again

  -- The loop of Do, with `left` rounds to go and the attempt's number.
  unfoldable pub loop : ℕ → ℕ → Op (Unit {0})
  unfolding after_attempt attempt ◌>>=◌
  loop zero i = pure tt
  loop (suc left) i =
      let again : Op (Unit {0}) = (do sleep (p.next i); loop left (i + 1)) in
      (do r ← attempt fn; after_attempt left again r)

  unfoldable pub run : Op (Unit {0})
  unfolding loop
  run = loop (rounds p) 0
