-- ===== src/Server/Limiter/Buckets.antt =====
-- internal/server/server.go: the tokens of a client stay between none and a full bucket.
use worker_lightweight.Base.{
  ◌≡◌, refl, ℕ, ◌-◌, Bool, true, false, List, [], ◌∷◌, ltb, pos, Text, Option, none, some, ◌==◌,
  text_eq, if◌then◌else◌, Bool-cases, inl, inr,
}
use worker_lightweight.Server.Limiter.Floats.{Float, zero, one, ◌≼◌, IsRounding}
use worker_lightweight.Server.Limiter.{
  Bucket, RateLimiter, refilled, put, spend, allow, kept, cleanup, new_rate_limiter,
}

-- What happens to a limiter: a request of a client, or a round of the cleanup.
pub data Event : Type 0 where
  request : (key : Text) (now : ℕ) → Event
  sweep : (now ttl : ℕ) → Event

module _ {ℓ} {F : Type ℓ} ⦃fl : Float F⦄ where
  abbrev pub IsWithin : F → Option (Bucket F) → Type 0
  IsWithin per_min none = Unit
  IsWithin per_min (some b) = (zero ≼ b.tokens) × (b.tokens ≼ per_min)

  pub record IsFair (rl : RateLimiter F) : Type ℓ where
    pub capacity : zero ≼ rl.per_min
    pub within : (k : Text) → IsWithin rl.per_min (rl.buckets k)

  pub run : List Event → RateLimiter F → RateLimiter F
  run [] rl = rl
  run (request key now ∷ es) rl = run es (allow key now rl).1
  run (sweep now ttl ∷ es) rl = run es (cleanup now ttl rl)

module _ {ℓ} {F : Type ℓ} ⦃fl : Float F⦄ (law : IsRounding F) where
  refilled-IsWithin :
      (per_min : F) (now : ℕ) (b : Option (Bucket F))
      → zero ≼ per_min
      → IsWithin per_min b
      → (zero ≼ refilled per_min now b) × (refilled per_min now b ≼ per_min)
  refilled-IsWithin per_min now none c w = (c, law.le_refl per_min)
  refilled-IsWithin per_min now (some b) c w = go (fl.lt per_min t) refl
    where
      gained : F
      gained = fl.mul (fl.minutes (now - b.last)) per_min

      t : F
      t = fl.add b.tokens gained

      some_time : zero ≼ gained
      some_time =
          law.mul_nonneg (fl.minutes (now - b.last)) per_min (law.minutes_nonneg (now - b.last)) c

      enough : zero ≼ t
      enough = law.le_trans zero gained t some_time (law.add_nonneg b.tokens gained w.0)

      go :
          (full : Bool)
          → fl.lt per_min t ≡ full
          → (zero ≼ (if full then per_min else t)) × ((if full then per_min else t) ≼ per_min)
      go true e = (c, law.le_refl per_min)
      go false e = (enough, e)

  put-IsFair :
      (key : Text) (b : Bucket F) (rl : RateLimiter F)
      → IsWithin rl.per_min (some b)
      → IsFair rl
      → IsFair (put key b rl)
  put-IsFair key b rl w f = record { capacity = f.capacity; within = λ k. go k (k == key) }
    where
      go : (k : Text) (same : Bool) → IsWithin rl.per_min (if same then some b else rl.buckets k)
      go k true = w
      go k false = f.within k

  spend-IsFair :
      (key : Text) (now : ℕ) (t : F) (rl : RateLimiter F)
      → zero ≼ t
      → t ≼ rl.per_min
      → IsFair rl
      → IsFair (spend key now t rl).1
  spend-IsFair key now t rl low high f = elim (Bool-cases (fl.lt t one)) [
    | inl e ↦ rw e (put-IsFair key (record { tokens = t; last = now }) rl (low, high) f)
    | inr e ↦ rw e (
        put-IsFair key (record { tokens = fl.sub t one; last = now }) rl
          (law.sub_nonneg t e, law.le_trans (fl.sub t one) t rl.per_min (law.sub_le t) high) f)
  ]

  pub allow-IsFair :
      (key : Text) (now : ℕ) (rl : RateLimiter F) → IsFair rl → IsFair (allow key now rl).1
  unfolding allow
  allow-IsFair key now rl f =
      let w = refilled-IsWithin rl.per_min now (rl.buckets key) f.capacity (f.within key) in
      spend-IsFair key now (refilled rl.per_min now (rl.buckets key)) rl w.0 w.1 f

  pub cleanup-IsFair : (now ttl : ℕ) (rl : RateLimiter F) → IsFair rl → IsFair (cleanup now ttl rl)
  unfolding cleanup
  cleanup-IsFair now ttl rl f = record {
    capacity = f.capacity;
    within = λ k. go (rl.buckets k) (f.within k);
  }
    where
      go : (b : Option (Bucket F)) → IsWithin rl.per_min b → IsWithin rl.per_min (kept now ttl b)
      go none w = tt
      go (some b) w = elim (Bool-cases (ltb b.last (now - ttl))) [
        | inl e ↦ rw e tt
        | inr e ↦ rw e w
      ]

  run-keeps : (es : List Event) (rl : RateLimiter F) → IsFair rl → IsFair (run es rl)
  unfolding run
  run-keeps [] rl f = f
  run-keeps (request key now ∷ es) rl f =
      run-keeps es (allow key now rl).1 (allow-IsFair key now rl f)
  run-keeps (sweep now ttl ∷ es) rl f =
      run-keeps es (cleanup now ttl rl) (cleanup-IsFair now ttl rl f)

  -- Over floating-point numbers whose rounding is monotone, whatever requests and cleanups
  -- happened since the start, every bucket holds between no token and the configured number for a
  -- minute.
  pub run-IsFair :
      (es : List Event) (per_min : ℕ) → IsFair {F = F} (run es (new_rate_limiter (pos per_min)))
  unfolding new_rate_limiter
  run-IsFair es per_min =
      run-keeps es (new_rate_limiter (pos per_min))
        (record { capacity = law.int_nonneg per_min; within = λ k. tt })
