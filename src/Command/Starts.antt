-- ===== src/Command/Starts.antt =====
-- main.go: what a start of the server does, on every path.
use worker_lightweight.Base.{
  ◌≡◌, ◌≢◌, refl, ℕ, ◌+◌, ◌≤◌, ◌⊎◌, Bool, true, false, ◌||◌, List, [], ◌∷◌, ◌++◌, Option, Text,
  ◌==◌, text_eq, if◌then◌else◌, Bool-cases, inl, inr, arith,
}
use worker_lightweight.Server.Lifecycle.{
  Options, plain, tls, listener, server_closed, broken, start_result, audit_file, store,
  close_server,
}
use worker_lightweight.Command.{
  Warning, without_tls, without_token, Action, warned, opened_audit, made, listened, closed, exited,
  Ending, stopped, signalled, is_public_addr, half_tls, warnings, from_new, from_audit, run_server,
}

-- How often each kind of action occurs.
abbrev pub count : (Action → Bool) → List Action → ℕ
count p [] = 0
count p (a ∷ as') = (if p a then 1 else 0) + count p as'

abbrev pub is_made : Action → Bool
is_made made = true
is_made _ = false

abbrev pub is_exit : Action → Bool
is_exit (exited code) = true
is_exit _ = false

abbrev pub is_opened : Action → Bool
is_opened opened_audit = true
is_opened _ = false

abbrev pub closes_store : Action → Bool
closes_store (closed store) = true
closes_store _ = false

abbrev pub closes_audit : Action → Bool
closes_audit (closed audit_file) = true
closes_audit _ = false

abbrev pub is_plain : Action → Bool
is_plain (listened plain) = true
is_plain _ = false

-- What was made or opened is closed.
abbrev pub Closing : List Action → Type 0
Closing ts =
    (count closes_store ts ≡ count is_made ts)
    × (count is_made ts ≤ 1)
    × (count is_opened ts ≤ count closes_audit ts + count is_exit ts)

-- A kind of action that is no warning.
abbrev Unwarned : (Action → Bool) → Type 0
Unwarned p = (w : Warning) → p (warned w) ≡ false

count-append :
    (p : Action → Bool) (xs ys : List Action) → count p (xs ++ ys) ≡ count p xs + count p ys
count-append p [] ys = omega arith
count-append p (x ∷ xs) ys = omega (arith, count-append p xs ys)

module _ (split_host : Text → Option Text) (is_loopback : Text → Option Bool) (o : Options) where
  count-warnings :
      (p : Action → Bool) → Unwarned p → count p (warnings split_host is_loopback o) ≡ 0
  count-warnings p u =
      go (is_public_addr split_host is_loopback o.addr) (o.tls_cert == [] || o.tls_key == [])
        (o.token == [])
    where
      go :
          (a b c : Bool)
          → count p (
              if a
              then (if b then warned without_tls ∷ [] else [])
                ++ (if c then warned without_token ∷ [] else [])
              else [])
            ≡ 0
      go false b c = refl
      go true false false = refl
      go true true false = rw (u without_tls) refl
      go true false true = rw (u without_token) refl
      go true true true = rw (u without_tls, u without_token) refl

  new_closes :
      (audit makes : Bool) (e : Ending) → Closing (from_new split_host is_loopback o audit makes e)
  unfolding start_result close_server
  new_closes audit false e = omega arith
  new_closes true true signalled = omega arith
  new_closes true true (stopped server_closed) = omega arith
  new_closes true true (stopped (broken m)) = omega arith
  new_closes false true signalled = omega arith
  new_closes false true (stopped server_closed) = omega arith
  new_closes false true (stopped (broken m)) = omega arith

  opened_closes :
      (makes : Bool) (e : Ending)
      → Closing (opened_audit ∷ from_new split_host is_loopback o true makes e)
  unfolding start_result close_server
  opened_closes false e = omega arith
  opened_closes true signalled = omega arith
  opened_closes true (stopped server_closed) = omega arith
  opened_closes true (stopped (broken m)) = omega arith

  rest_closes :
      (log : Text) (opens makes : Bool) (e : Ending)
      → Closing (from_audit split_host is_loopback o log opens makes e)
  rest_closes log opens makes e = go (log == []) opens
    where
      go :
          (none_given opens' : Bool)
          → Closing (
              if none_given
              then from_new split_host is_loopback o false makes e
              else if opens'
              then opened_audit ∷ from_new split_host is_loopback o true makes e
              else exited 1 ∷ [])
      go true b = new_closes false makes e
      go false true = opened_closes makes e
      go false false = omega arith

  both :
      (o.tls_cert ≢ []) ⊎ (o.tls_key ≢ [])
      → half_tls o ≡ false
      → listener o ≡ tls o.tls_cert o.tls_key
  unfolding listener
  both given h = ground (arith, text_eq.beq_iff o.tls_cert [], text_eq.beq_iff o.tls_key [])

  new_tls :
      (audit makes : Bool) (e : Ending)
      → listener o ≡ tls o.tls_cert o.tls_key
      → count is_plain (from_new split_host is_loopback o audit makes e) ≡ 0
  unfolding start_result close_server
  new_tls audit false e l = refl
  new_tls true true signalled l = rw l refl
  new_tls true true (stopped server_closed) l = rw l refl
  new_tls true true (stopped (broken m)) l = rw l refl
  new_tls false true signalled l = rw l refl
  new_tls false true (stopped server_closed) l = rw l refl
  new_tls false true (stopped (broken m)) l = rw l refl

  rest_tls :
      (log : Text) (opens makes : Bool) (e : Ending)
      → listener o ≡ tls o.tls_cert o.tls_key
      → count is_plain (from_audit split_host is_loopback o log opens makes e) ≡ 0
  rest_tls log opens makes e l = go (log == []) opens
    where
      go :
          (none_given opens' : Bool)
          → count is_plain (
              if none_given
              then from_new split_host is_loopback o false makes e
              else if opens'
              then opened_audit ∷ from_new split_host is_loopback o true makes e
              else exited 1 ∷ [])
            ≡ 0
      go true b = new_tls false makes e l
      go false true = omega (arith, new_tls true makes e l)
      go false false = refl

  module _ (log : Text) (opens makes : Bool) (e : Ending) where
    abbrev pub actions : List Action
    actions = run_server split_host is_loopback o log opens makes e

    abbrev rest : List Action
    rest = from_audit split_host is_loopback o log opens makes e

    count-actions :
        (p : Action → Bool)
        → Unwarned p
        → count p actions ≡ (if half_tls o then count p (exited 1 ∷ []) else count p rest)
    unfolding run_server
    count-actions p u = elim (Bool-cases (half_tls o)) [
      | inl h ↦ rw h refl
      | inr h ↦
          rw (h, count-append p (warnings split_host is_loopback o) rest, count-warnings p u)
            (omega arith)
    ]

    -- Whatever fails on the way and however the server ends, its store is closed exactly as often
    -- as a server was made, which is at most once; and if the audit log was opened, it is closed,
    -- unless the process exits with an error.
    pub run_server-closes : Closing actions
    run_server-closes =
        rw
          (
            count-actions closes_store (λ w. refl),
            count-actions is_made (λ w. refl),
            count-actions is_opened (λ w. refl),
            count-actions closes_audit (λ w. refl),
            count-actions is_exit (λ w. refl),
          )
          (elim (Bool-cases (half_tls o)) [
            | inl h ↦ rw h (omega arith)
            | inr h ↦ rw h (rest_closes log opens makes e)
          ])

    -- A server that is given a certificate or a key never serves plain HTTP, whatever else
    -- happens.
    pub run_server-tls : (o.tls_cert ≢ []) ⊎ (o.tls_key ≢ []) → count is_plain actions ≡ 0
    run_server-tls given = rw (count-actions is_plain (λ w. refl)) (elim (Bool-cases (half_tls o)) [
      | inl h ↦ rw h refl
      | inr h ↦ rw h (rest_tls log opens makes e (both given h))
    ])
