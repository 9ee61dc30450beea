-- ===== src/Lock/Leases.antt =====
-- internal/lock/memory.go: what a lease promises while the calls do not overlap.
use worker_lightweight.Base.{
  ◌≡◌, ◌≢◌, refl, sym, ℕ, ◌+◌, ◌≤◌, Bool, true, false, Option, none, some, Text, ltb, ne→beq,
  beq_self, ◌==◌, text_eq, arith, inl, inr, Bool-cases,
}
use worker_lightweight.Lock.{Entry, Locks, store, lease, acquire_at, acquire, release_at, release}

abbrev pub token_of : Option Entry → Option Text
token_of none = none
token_of (some e) = some e.token

abbrev pub exp_of : Option Entry → Option ℕ
exp_of none = none
exp_of (some e) = some e.exp

store_self : (k : Text) (e : Option Entry) (m : Locks) → store k e m k ≡ e
store_self k e m = rw (beq_self k)

abbrev Holds : Text → Text → ℕ → Bool × Locks → Type 0
Holds k token exp r = r.0 ≡ true → r.1 k ≡ some (lease token exp)

-- The winner's lease stands in the table.
acquire-Holds :
    (k token : Text) (ttl now : ℕ) (m : Locks)
    → Holds k token (now + ttl) (acquire k token ttl now m)
unfolding acquire
acquire-Holds k token ttl now m = go (m k)
  where
    go : (o : Option Entry) → Holds k token (now + ttl) (acquire_at k token ttl now o m)
    go none h = store_self k _ m
    go (some e) h = elim (Bool-cases (ltb e.exp now)) [
      | inl p ↦ rw p (store_self k _ m)
      | inr p ↦ elim (Bool-cases (e.token == token)) [
        | inl q ↦ rw (p, q) (rw (store_self k _ m) (ground (arith, text_eq.beq_iff e.token token)))
        | inr q ↦ absurd (ground arith)
      ]
    ]

-- While a lease lasts, nobody with another token gets the lock, and the attempt changes nothing;
-- the holder may refresh it.
pub acquire_excludes :
    (k a b : Text) (ttl ttl' now later : ℕ) (m : Locks)
    → (acquire k a ttl now m).0 ≡ true
    → b ≢ a
    → later ≤ now + ttl
    → let held = (acquire k a ttl now m).1 in
      (acquire k b ttl' later held ≡ (false, held)) × ((acquire k a ttl' later held).0 ≡ true)
unfolding acquire
acquire_excludes k a b ttl ttl' now later m won other lasts =
    let e = acquire-Holds k a ttl now m won in
    (
      rw (e, acquire_at) (ground (arith, text_eq.beq_iff a b)),
      rw (e, acquire_at) (ground (arith, beq_self a)),
    )

-- After the holder's release any token can be granted at any time.
pub release_own :
    (k a b : Text) (ttl ttl' now later : ℕ) (m : Locks)
    → (acquire k a ttl now m).0 ≡ true
    → (acquire k b ttl' later (release k a (acquire k a ttl now m).1)).0 ≡ true
unfolding release acquire
release_own k a b ttl ttl' now later m won =
    let e = acquire-Holds k a ttl now m won in rw (e, release_at, beq_self a) (rw (beq_self k) refl)

-- While a lease stands, a release with another token changes nothing, and the holder's own release
-- frees the lock, so that the other token can be granted at any time.
pub release_frees :
    (k a b : Text) (ttl ttl' now later : ℕ) (m : Locks)
    → (acquire k a ttl now m).0 ≡ true
    → b ≢ a
    → let held = (acquire k a ttl now m).1 in
      (release k b held ≡ held) × ((acquire k b ttl' later (release k a held)).0 ≡ true)
unfolding release acquire
release_frees k a b ttl ttl' now later m won other =
    let e = acquire-Holds k a ttl now m won in
    (
      rw (e, release_at) (rw (ne→beq a b (λ p. other (sym p))) refl),
      release_own k a b ttl ttl' now later m won,
    )
