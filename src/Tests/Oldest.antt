-- ===== src/Tests/Oldest.antt =====
-- internal/store/store.go: a choice for `ORDER BY next_run_at ASC LIMIT 1`, for the tests.
use worker_lightweight.Base.{
  ◌≡◌, refl, subst, ℕ, ◌≤◌, Bool, true, false, List, [], ◌∷◌, Option, none, some, ltb,
  if◌then◌else◌, In, head, tail, All, arith,
}
use worker_lightweight.Model.{Task}
use worker_lightweight.Store.Claim.Effects.{IsOldest}

-- The first of the rows that no other precedes.
abbrev pub older : Task → Task → Task
older t u = if ltb u.next_run_at t.next_run_at then u else t

abbrev pub oldest_from : Task → List Task → Task
oldest_from t [] = t
oldest_from t (u ∷ us) = older t (oldest_from u us)

abbrev pub oldest_row : List Task → Option Task
oldest_row [] = none
oldest_row (t ∷ ts) = some (oldest_from t ts)

All-below :
    (m n : ℕ) (ts : List Task)
    → m ≤ n
    → All (λ u. n ≤ u.next_run_at) ts
    → All (λ u. m ≤ u.next_run_at) ts
All-below m n [] h a = tt
All-below m n (t ∷ ts) h a = (ground (arith, a.0), All-below m n ts h a.1)

-- `w` is the choice among `ts`.
abbrev Picked : Task → List Task → Type 0
Picked w ts = In w ts × All (λ u. w.next_run_at ≤ u.next_run_at) ts

older-Picked : (t w : Task) (us : List Task) → Picked w us → Picked (older t w) (t ∷ us)
older-Picked t w us p = go (ltb w.next_run_at t.next_run_at) refl
  where
    go : (b : Bool) → ltb w.next_run_at t.next_run_at ≡ b → Picked (if b then w else t) (t ∷ us)
    go true e = (tail p.0, (ground arith, p.1))
    go false e =
        (head refl, (ground arith, All-below t.next_run_at w.next_run_at us (ground arith) p.1))

oldest_from-picks : (t : Task) (ts : List Task) → Picked (oldest_from t ts) (t ∷ ts)
oldest_from-picks t [] = (head refl, (ground arith, tt))
oldest_from-picks t (u ∷ us) = older-Picked t (oldest_from u us) (u ∷ us) (oldest_from-picks u us)

pub oldest_row-IsOldest : IsOldest oldest_row
oldest_row-IsOldest = record { finds = λ t ts e. cc e; picks = go }
  where
    go :
        (ts : List Task) (t : Task)
        → oldest_row ts ≡ some t
        → In t ts × All (λ u. t.next_run_at ≤ u.next_run_at) ts
    go [] t e = absurd (cc e)
    go (u ∷ us) t e = subst (λ v. Picked v (u ∷ us)) (from e) (oldest_from-picks u us)
      where
        from : some (oldest_from u us) ≡ some t → oldest_from u us ≡ t
        from e = cc e
