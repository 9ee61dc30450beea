-- ===== src/Store/Rules.antt =====
-- Proof rules for the operations of the store: what holds after a computation, for every list of
-- faults, on its successful end and on its failing end.
use worker_lightweight.Base.{
  ◌≡◌, refl, Bool, true, false, List, [], ◌∷◌, ℕ, Option, none, some, length, select,
}
use worker_lightweight.Model.{Task}
use worker_lightweight.Store.Db.{
  Db, StoreError, db_error, Outcome, ok, err, Faults, M, ◌>>=◌, ◌>>◌, pure, guard, or_fail, next,
  update, update_rows, query, finish, with_tx,
}

abbrev pub OnOutcome {ℓ} :
    {A : Type ℓ} → (A → Db → Type 0) → (StoreError → Db → Type 0) → Outcome A → Db → Type 0
OnOutcome Q E (ok a) db = Q a db
OnOutcome Q E (err e) db = E e db

-- Whatever faults are met, `m` ends in `Q` with its result or in `E` with its error.
pub record Ensures {ℓ} {A : Type ℓ} (m : M A) (Q : A → Db → Type 0) (E : StoreError → Db → Type 0)
    (db : Db) : Type 0 where
  pub holds : (fs : Faults) → OnOutcome Q E (m fs db).0 (m fs db).2

-- A rule for each first step of a computation whose end is to be in `Q` or in `E`.
module _ {ℓ} {B : Type ℓ} {Q : B → Db → Type 0} {E : StoreError → Db → Type 0} {db : Db} where
  pub Ensures-pure : (b : B) → Q b db → Ensures (pure b) Q E db
  Ensures-pure b h = record { holds = λ fs. h }

  pub after_update :
      (p : Task → Bool) (f : Task → Task) (k : ℕ → M B)
      → E db_error db
      → Ensures
          (k (length (select p db.tasks)))
          Q
          E
          (record db { tasks = update_rows p f db.tasks })
      → Ensures (update p f >>= k) Q E db
  unfolding update
  after_update p f k r h = record { holds = go }
    where
      go : (fs : Faults) → OnOutcome Q E ((update p f >>= k) fs db).0 ((update p f >>= k) fs db).2
      go [] = h.holds []
      go (true ∷ fs) = r
      go (false ∷ fs) = h.holds fs

  pub after_query {κ} :
      {A : Type κ} (f : List Task → A) (k : A → M B)
      → E db_error db
      → Ensures (k (f db.tasks)) Q E db
      → Ensures (query f >>= k) Q E db
  unfolding query
  after_query f k r h = record { holds = go }
    where
      go : (fs : Faults) → OnOutcome Q E ((query f >>= k) fs db).0 ((query f >>= k) fs db).2
      go [] = h.holds []
      go (true ∷ fs) = r
      go (false ∷ fs) = h.holds fs

  pub after_guard :
      (b : Bool) (e : StoreError) (k : M B)
      → (b ≡ true → Ensures k Q E db)
      → (b ≡ false → E e db)
      → Ensures (guard b e >> k) Q E db
  after_guard true e k h r = record { holds = (h refl).holds }
  after_guard false e k h r = record { holds = λ fs. r refl }

  pub after_or_fail {κ} :
      {A : Type κ} (o : Option A) (e : StoreError) (k : A → M B)
      → ((a : A) → o ≡ some a → Ensures (k a) Q E db)
      → (o ≡ none → E e db)
      → Ensures (or_fail o e >>= k) Q E db
  after_or_fail none e k h r = record { holds = λ fs. r refl }
  after_or_fail (some a) e k h r = record { holds = (h a refl).holds }

  pub after {κ} :
      {A : Type κ} (m : M A) (k : A → M B)
      → Ensures m (λ a db'. Ensures (k a) Q E db') E db
      → Ensures (m >>= k) Q E db
  after {A = A} m k h = record { holds = λ fs. go (m fs db).0 (m fs db).1 (m fs db).2 (h.holds fs) }
    where
      go :
          (r : Outcome A) (gs : Faults) (db' : Db)
          → OnOutcome (λ a db'. Ensures (k a) Q E db') E r db'
          → OnOutcome Q E (next r k gs db').0 (next r k gs db').2
      go (ok a) gs db' h = h.holds gs
      go (err e) gs db' h = h

  -- Every failure of a transaction leaves the table that it began with.
  pub Ensures-tx :
      (m : M B) → E db_error db → Ensures m Q (λ e _. E e db) db → Ensures (with_tx m) Q E db
  unfolding with_tx
  Ensures-tx m k h = record { holds = go }
    where
      close :
          (r : Outcome B) (fs : Faults) (db' : Db)
          → OnOutcome Q (λ e _. E e db) r db'
          → OnOutcome Q E (finish db r fs db').0 (finish db r fs db').2
      close (err e) fs db' h = h
      close (ok a) [] db' h = h
      close (ok a) (true ∷ fs) db' h = k
      close (ok a) (false ∷ fs) db' h = h

      go : (fs : Faults) → OnOutcome Q E (with_tx m fs db).0 (with_tx m fs db).2
      go [] = close (m [] db).0 (m [] db).1 (m [] db).2 (h.holds [])
      go (true ∷ gs) = k
      go (false ∷ gs) = close (m gs db).0 (m gs db).1 (m gs db).2 (h.holds gs)

  -- What follows from both ends holds at the end.
  pub ensures_end :
      {m : M B} (P : Db → Type 0)
      → Ensures m Q E db
      → ((b : B) (db' : Db) → Q b db' → P db')
      → ((e : StoreError) (db' : Db) → E e db' → P db')
      → (fs : Faults) → P (m fs db).2
  ensures_end {m} P h q e fs = go (m fs db).0 (m fs db).2 (h.holds fs)
    where
      go : (r : Outcome B) (db' : Db) → OnOutcome Q E r db' → P db'
      go (ok a) db' h = q a db' h
      go (err x) db' h = e x db' h

module _ {Q : Unit {0} → Db → Type 0} {E : StoreError → Db → Type 0} {db : Db} where
  pub Ensures-guard :
      (b : Bool) (e : StoreError)
      → (b ≡ true → Q tt db)
      → (b ≡ false → E e db)
      → Ensures (guard b e) Q E db
  Ensures-guard true e h k = record { holds = λ fs. h refl }
  Ensures-guard false e h k = record { holds = λ fs. k refl }

-- What holds on success may be weakened.
pub Ensures-weaken {ℓ} :
    {A : Type ℓ} {m : M A} {Q R : A → Db → Type 0} {E : StoreError → Db → Type 0} {db : Db}
    → ((a : A) (db' : Db) → Q a db' → R a db')
    → Ensures m Q E db
    → Ensures m R E db
Ensures-weaken {A = A} {m = m} {Q = Q} {R = R} {E = E} {db = db} weaker e = record {
  holds = λ fs. go (m fs db).0 (m fs db).2 (e.holds fs);
}
  where
    go : (o : Outcome A) (db' : Db) → OnOutcome Q E o db' → OnOutcome R E o db'
    go (ok a) db' h = weaker a db' h
    go (err x) db' h = h
