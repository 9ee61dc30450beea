-- ===== src/Server/Limiter.antt =====
-- internal/server/server.go: rateLimiter, over a type of floating-point numbers.
pub mod Floats
pub mod Buckets
pub mod Cleanup
pub mod Bursts
use worker_lightweight.Base.{
  ℕ, ◌-◌, ◌*◌, ◌^◌, ◌<◌, Bool, true, false, ℤ, pos, List, [], ◌∷◌, Text, Option, none, some, ltb,
  ◌==◌, text_eq, text_beq, if◌then◌else◌,
}
use worker_lightweight.Server.Limiter.Floats.{Float, zero, one}

pub record Bucket {ℓ} (F : Type ℓ) : Type ℓ where
  pub tokens : F
  pub last : ℕ

-- The maps `tokens` and `last` have the same keys: they are one map, as a function.
pub record RateLimiter {ℓ} (F : Type ℓ) : Type ℓ where
  pub buckets : Text → Option (Bucket F)
  pub per_min : F

module _ {ℓ} {F : Type ℓ} ⦃fl : Float F⦄ where
  unfoldable pub new_rate_limiter : ℤ → RateLimiter F
  new_rate_limiter per_min = record { buckets = λ k. none; per_min = fl.of_int per_min }

  -- The tokens before this call: a fresh client starts with a full bucket.
  abbrev pub refilled : F → ℕ → Option (Bucket F) → F
  refilled per_min now none = per_min
  refilled per_min now (some b) =
      let t = fl.add b.tokens (fl.mul (fl.minutes (now - b.last)) per_min) in
      if fl.lt per_min t then per_min else t

  abbrev pub put : Text → Bucket F → RateLimiter F → RateLimiter F
  put key b rl = record rl { buckets = λ k. if k == key then some b else rl.buckets k }

  abbrev pub spend : Text → ℕ → F → RateLimiter F → Bool × RateLimiter F
  spend key now t rl =
      if fl.lt t one
      then (false, put key (record { tokens = t; last = now }) rl)
      else (true, put key (record { tokens = fl.sub t one; last = now }) rl)

  unfoldable pub allow : Text → ℕ → RateLimiter F → Bool × RateLimiter F
  unfolding text_beq
  allow key now rl = spend key now (refilled rl.per_min now (rl.buckets key)) rl

  abbrev pub kept : ℕ → ℕ → Option (Bucket F) → Option (Bucket F)
  kept now ttl none = none
  kept now ttl (some b) = if ltb b.last (now - ttl) then none else some b

  -- `now.Add(-ttl)` is a time after Go's zero time.
  unfoldable pub cleanup : ℕ → ℕ → RateLimiter F → RateLimiter F
  cleanup now ttl rl = record rl { buckets = λ k. kept now ttl (rl.buckets k) }
