-- ===== src/Server/Limiter/Cleanup.antt =====
-- internal/server/server.go: cleanup forgets only clients whose bucket would be full again.
use worker_lightweight.Base.{
  ◌≡◌, refl, sym, ℕ, ◌-◌, ◌≤◌, Bool, true, false, Text, Option, none, some, ltb, ltb→lt, text_eq,
  beq_self, if◌then◌else◌, Bool-cases, inl, inr, arith,
}
use worker_lightweight.Server.Limiter.Floats.{Float, zero, one, ◌≼◌, minute, IsRounding}
use worker_lightweight.Server.Limiter.{Bucket, RateLimiter, refilled, spend, allow, kept, cleanup}
use worker_lightweight.Server.Limiter.Buckets.{IsWithin, IsFair}

module _ {ℓ} {F : Type ℓ} ⦃fl : Float F⦄ (law : IsRounding F) where
  -- After a minute a bucket is full.
  refilled_full :
      (per_min : F) (now : ℕ) (b : Bucket F)
      → zero ≼ per_min
      → zero ≼ b.tokens
      → minute ≤ now - b.last
      → refilled per_min now (some b) ≡ per_min
  refilled_full per_min now b c w long = go (fl.lt per_min t) refl
    where
      gained : F
      gained = fl.mul (fl.minutes (now - b.last)) per_min

      t : F
      t = fl.add b.tokens gained

      enough : per_min ≼ t
      enough =
          law.le_trans per_min gained t
            (law.mul_grows (fl.minutes (now - b.last)) per_min
              (law.minutes_mono (now - b.last) long) c)
            (law.add_nonneg b.tokens gained w)

      go : (full : Bool) → fl.lt per_min t ≡ full → (if full then per_min else t) ≡ per_min
      go true e = refl
      go false e = law.le_antisym t per_min e enough

  refilled-kept :
      (per_min : F) (swept ttl now : ℕ) (b : Option (Bucket F))
      → zero ≼ per_min
      → IsWithin per_min b
      → minute ≤ ttl
      → swept ≤ now
      → refilled per_min now (kept swept ttl b) ≡ refilled per_min now b
  refilled-kept per_min swept ttl now none c w long order = refl
  refilled-kept per_min swept ttl now (some b) c w long order =
      elim (Bool-cases (ltb b.last (swept - ttl))) [
        | inr e ↦ rw e refl
        | inl e ↦
            rw e (
              sym
                (refilled_full per_min now b c w.0 (omega (arith, ltb→lt b.last (swept - ttl) e))))
      ]

  spend_same :
      (key : Text) (now : ℕ) (t : F) (a b : RateLimiter F)
      → ((spend key now t a).0 ≡ (spend key now t b).0)
        × ((spend key now t a).1.buckets key ≡ (spend key now t b).1.buckets key)
  spend_same key now t a b = elim (Bool-cases (fl.lt t one)) [
    | inl e ↦ rw (e, beq_self key) (refl, refl)
    | inr e ↦ rw (e, beq_self key) (refl, refl)
  ]

  -- Where the rounding is monotone and the buckets are in bounds, a cleanup that keeps buckets for
  -- at least a minute decides nothing: any client, at any later time, gets the same answer and is
  -- left with the same bucket as if there had been no cleanup.
  pub allow-cleanup :
      (key : Text) (swept ttl now : ℕ) (rl : RateLimiter F)
      → IsFair rl
      → minute ≤ ttl
      → swept ≤ now
      → ((allow key now (cleanup swept ttl rl)).0 ≡ (allow key now rl).0)
        × ((allow key now (cleanup swept ttl rl)).1.buckets key ≡ (allow key now rl).1.buckets key)
  unfolding allow cleanup
  allow-cleanup key swept ttl now rl f long order =
      rw
        (refilled-kept rl.per_min swept ttl now (rl.buckets key) f.capacity (f.within key) long
          order)
        (spend_same key now (refilled rl.per_min now (rl.buckets key))
          (record rl { buckets = λ k. kept swept ttl (rl.buckets k) }) rl)
