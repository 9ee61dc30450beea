-- ===== src/Server/Limiter/Bursts.antt =====
-- internal/server/server.go: how many requests of one instant pass.
use worker_lightweight.Base.{
  ◌≡◌, refl, ℕ, zero, suc, ◌+◌, ◌-◌, ◌^◌, ◌≤◌, Bool, true, false, pos, Text, some, ltb, text_eq,
  beq_self, if◌then◌else◌, arith,
}
use worker_lightweight.Server.Limiter.Floats.{Float, IsExact}
use worker_lightweight.Server.Limiter.{RateLimiter, refilled, put, allow, new_rate_limiter}

abbrev granted : Bool → ℕ
granted true = 1
granted false = 0

module _ {ℓ} {F : Type ℓ} ⦃fl : Float F⦄ where
  -- How many of `k` calls of allow at the time `now` return true.
  unfoldable pub passed : ℕ → Text → ℕ → RateLimiter F → ℕ
  passed zero key now rl = 0
  passed (suc k) key now rl = let r = allow key now rl in granted r.0 + passed k key now r.1

  -- The client has `m` tokens now, of `n`.
  record Has (key : Text) (now m n : ℕ) (rl : RateLimiter F) : Type ℓ where
    cap : rl.per_min ≡ fl.of_int (pos n)
    tokens : refilled rl.per_min now (rl.buckets key) ≡ fl.of_int (pos m)
    fits : m ≤ n

  module _ (law : IsExact F) (key : Text) (now n : ℕ) (small : n ≤ 2 ^ 53) where
    refilled_now :
        (m : ℕ)
        → m ≤ n
        → refilled
            (fl.of_int (pos n))
            now
            (some (record { tokens = fl.of_int (pos m); last = now }))
          ≡ fl.of_int (pos m)
    refilled_now m le =
        let no_wait : now - now ≡ 0 = omega arith in
        let room : ltb n m ≡ false = ground arith in
        rw
          (
            no_wait,
            law.no_time (fl.of_int (pos m)) (fl.of_int (pos n)),
            law.lt_int n m small (omega arith),
            room,
          )
          refl

    put-Has :
        (m : ℕ) (rl : RateLimiter F)
        → m ≤ n
        → rl.per_min ≡ fl.of_int (pos n)
        → Has key now m n (put key (record { tokens = fl.of_int (pos m); last = now }) rl)
    put-Has m rl le e = record {
      cap = e;
      tokens = rw (e, beq_self key) (refilled_now m le);
      fits = le;
    }

    allow_some :
        (m : ℕ) (rl : RateLimiter F)
        → Has key now (suc m) n rl
        → ((allow key now rl).0 ≡ true) × Has key now m n (allow key now rl).1
    unfolding allow
    allow_some m rl h =
        let enough : ltb (suc m) 1 ≡ false = ground arith in
        rw
          (
            h.tokens,
            law.lt_int (suc m) 1 (omega (arith, h.fits)) (omega arith),
            enough,
            law.sub_one m (omega (arith, h.fits)),
          )
          (refl, put-Has m rl (omega (arith, h.fits)) h.cap)

    allow_none :
        (rl : RateLimiter F)
        → Has key now 0 n rl
        → ((allow key now rl).0 ≡ false) × Has key now 0 n (allow key now rl).1
    unfolding allow
    allow_none rl h =
        rw (h.tokens, law.lt_int 0 1 (omega arith) (omega arith))
          (refl, put-Has 0 rl (omega arith) h.cap)

    passed_lem :
        (k m : ℕ) (rl : RateLimiter F)
        → Has key now m n rl
        → passed k key now rl ≡ (if ltb k m then k else m)
    unfolding passed
    passed_lem zero m rl h = ground arith
    passed_lem (suc k) zero rl h =
        let a = allow_none rl h in rw a.0 (ground (arith, passed_lem k 0 (allow key now rl).1 a.1))
    passed_lem (suc k) (suc m) rl h =
        let a = allow_some m rl h in
        rw a.0 (ground (arith, passed_lem k m (allow key now rl).1 a.1))

    -- Where the arithmetic on small integers is exact, of any number of requests that a new client
    -- makes at one instant, just as many pass as the configured number, if it is at most 2 ^ 53.
    pub passed-burst :
        (k : ℕ) → passed k key now (new_rate_limiter (pos n)) ≡ (if ltb k n then k else n)
    unfolding new_rate_limiter
    passed-burst k =
        passed_lem k n (new_rate_limiter (pos n))
          (record { cap = refl; tokens = refl; fits = omega arith })
