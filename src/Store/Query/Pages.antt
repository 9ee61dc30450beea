-- ===== src/Store/Query/Pages.antt =====
-- internal/store/store.go and internal/server/server.go: List in pages, and Count.
use worker_lightweight.Base.{
  ◌≡◌, refl, ◌∙◌, ap, sym, ℕ, zero, suc, ◌+◌, ◌*◌, ◌%◌, ◌≤◌, ◌<◌, Bool, List, [], ◌∷◌, ◌++◌, pos,
  ◌≤ℤ◌, leb_ℤ, Text, length, take, drop, Bool-cases, inl, inr, arith,
}
use mathlib.Core.List.{Perm}
use mathlib.Core.List.Perm
use native.Mathlib.Omega.{div_any}
use mathlib.Core.Path.{◌≡⟨◌⟩◌, ◌∎}
use worker_lightweight.Model.{Task}
use worker_lightweight.Store.Db.{Db, Outcome, ok, err}
use worker_lightweight.Server.Handlers.{total_pages}
use worker_lightweight.Store.Query.{
  ListFilter, insert_desc, newest_first, clamp_limit, matches, list_tasks, count_tasks,
}

-- Ids do not rise along the list.
abbrev pub Descending : List Task → Type 0
Descending [] = Unit
Descending (t ∷ []) = Unit
Descending (t ∷ u ∷ us) = (u.id ≤ℤ t.id) × Descending (u ∷ us)

insert_desc-Descending : (t : Task) (us : List Task) → Descending us → Descending (insert_desc t us)
unfolding insert_desc
insert_desc-Descending t [] d = tt
insert_desc-Descending t (u ∷ []) d = elim (Bool-cases (leb_ℤ u.id t.id)) [
  | inl e ↦ rw e (ground arith, tt)
  | inr e ↦ rw e (ground arith, tt)
]
insert_desc-Descending t (u ∷ v ∷ vs) d = elim (Bool-cases (leb_ℤ u.id t.id)) [
  | inl e ↦ rw e (ground arith, d)
  | inr e ↦ rw e (elim (Bool-cases (leb_ℤ v.id t.id)) [
    | inl f ↦ rw f (ground arith, rw f at (insert_desc-Descending t (v ∷ vs) d.1))
    | inr f ↦ rw f (d.0, rw f at (insert_desc-Descending t (v ∷ vs) d.1))
  ])
]

newest_first-Descending : (ts : List Task) → Descending (newest_first ts)
unfolding newest_first
newest_first-Descending [] = tt
newest_first-Descending (t ∷ ts) =
    insert_desc-Descending t (newest_first ts) (newest_first-Descending ts)

insert_desc-perm : (t : Task) (us : List Task) → Perm (insert_desc t us) (t ∷ us)
unfolding insert_desc
insert_desc-perm t [] = Perm.refl _
insert_desc-perm t (u ∷ us) = elim (Bool-cases (leb_ℤ u.id t.id)) [
  | inl e ↦ rw e (Perm.refl _)
  | inr e ↦ rw e (Perm.trans (Perm.cons u (insert_desc-perm t us)) (Perm.swap t u us))
]

newest_first-perm : (ts : List Task) → Perm (newest_first ts) ts
unfolding newest_first
newest_first-perm [] = Perm.refl _
newest_first-perm (t ∷ ts) =
    Perm.trans (insert_desc-perm t (newest_first ts)) (Perm.cons t (newest_first-perm ts))

length-insert_desc : (t : Task) (us : List Task) → length (insert_desc t us) ≡ suc (length us)
unfolding insert_desc
length-insert_desc t [] = refl
length-insert_desc t (u ∷ us) = ground (arith, length-insert_desc t us)

length-newest_first : (ts : List Task) → length (newest_first ts) ≡ length ts
unfolding newest_first
length-newest_first [] = refl
length-newest_first (t ∷ ts) =
    length-insert_desc t (newest_first ts) ∙ ap suc (length-newest_first ts)

drop-nil : (n : ℕ) → drop {A = Task} n [] ≡ []
drop-nil zero = refl
drop-nil (suc n) = refl

take-nil : (n : ℕ) → take {A = Task} n [] ≡ []
take-nil zero = refl
take-nil (suc n) = refl

drop-drop : (m n : ℕ) (ts : List Task) → drop m (drop n ts) ≡ drop (n + m) ts
drop-drop m zero ts = ap (λ k. drop k ts) (omega arith)
drop-drop m (suc n) [] = drop-nil m ∙ sym (drop-nil (suc n + m))
drop-drop m (suc n) (t ∷ ts) = drop-drop m n ts ∙ ap (λ k. drop k (t ∷ ts)) suc_first
  where
    suc_first : suc (n + m) ≡ suc n + m
    suc_first = omega arith

take-append : (n m : ℕ) (ts : List Task) → take n ts ++ take m (drop n ts) ≡ take (n + m) ts
take-append zero m ts = ap (λ k. take k ts) (omega arith)
take-append (suc n) m [] = take-nil m ∙ sym (take-nil (suc n + m))
take-append (suc n) m (t ∷ ts) =
    ap (◌∷◌ t) (take-append n m ts) ∙ ap (λ k. take k (t ∷ ts)) suc_first
  where
    suc_first : suc (n + m) ≡ suc n + m
    suc_first = omega arith

take-all : (n : ℕ) (ts : List Task) → length ts ≤ n → take n ts ≡ ts
take-all zero [] h = refl
take-all zero (t ∷ ts) h = absurd (omega arith)
take-all (suc n) [] h = refl
take-all (suc n) (t ∷ ts) h = ap (◌∷◌ t) (take-all n ts (omega arith))

pub total_pages_cover : (total n : ℕ) → 0 < n → total ≤ total_pages total n * n
unfolding total_pages
total_pages_cover total n h = grind (arith, div_any total n, below)
  where
    below : total % n < n
    below = omega arith

clamp_lem : (n : ℕ) → 0 < n → n ≤ 500 → clamp_limit (pos n) ≡ n
clamp_lem n h b = ground arith

abbrev pub rows_of : Outcome (List Task) → List Task
rows_of (ok rows) = rows
rows_of (err e) = []

module _ (like : Text → Text → Bool) (f : ListFilter) (n : ℕ) (db : Db) where
  abbrev page : ℕ → List Task
  page i = rows_of (list_tasks like f (pos (i * n)) (pos n) [] db).0

  -- `k` pages from page `i` on, one after the other, counting from 0.
  pub all_pages : ℕ → ℕ → List Task
  all_pages i zero = []
  all_pages i (suc k) = page i ++ all_pages (suc i) k

  page_lem :
      (i : ℕ)
      → 0 < n
      → n ≤ 500
      → page i ≡ take n (drop (i * n) (newest_first (matches like f db.tasks)))
  unfolding list_tasks
  page_lem i h k =
      ap (λ m. take m (drop (i * n) (newest_first (matches like f db.tasks)))) (clamp_lem n h k)

  all_pages-eq-take :
      (i k : ℕ)
      → 0 < n
      → n ≤ 500
      → all_pages i k ≡ take (k * n) (drop (i * n) (newest_first (matches like f db.tasks)))
  unfolding all_pages
  all_pages-eq-take i zero h b =
      ap (λ m. take m (drop (i * n) (newest_first (matches like f db.tasks)))) none_left
    where
      none_left : 0 ≡ 0 * n
      none_left = omega arith
  all_pages-eq-take i (suc k) h b =
      page i ++ all_pages (suc i) k
      ≡⟨ ap (◌++ all_pages (suc i) k) (page_lem i h b) ⟩
        take n (drop (i * n) all) ++ all_pages (suc i) k
      ≡⟨ ap (take n (drop (i * n) all) ++◌) (all_pages-eq-take (suc i) k h b) ⟩
        take n (drop (i * n) all) ++ take (k * n) (drop (suc i * n) all)
      ≡⟨ ap (λ us. take n (drop (i * n) all) ++ take (k * n) us)
          (sym (drop-drop n (i * n) all ∙ ap (λ m. drop m all) next)) ⟩
        take n (drop (i * n) all) ++ take (k * n) (drop n (drop (i * n) all))
      ≡⟨ take-append n (k * n) (drop (i * n) all) ⟩ take (n + k * n) (drop (i * n) all)
      ≡⟨ ap (λ m. take m (drop (i * n) all)) more ⟩ take (suc k * n) (drop (i * n) all) ∎
    where
      all : List Task
      all = newest_first (matches like f db.tasks)

      next : i * n + n ≡ suc i * n
      next = grind arith

      more : n + k * n ≡ suc k * n
      more = grind arith

  -- Where the database answers and a page has between 1 and 500 rows, the pages that the task list
  -- offers for the count of a filter, put one after the other, are all the rows that pass the
  -- filter, each once, by falling id; and their number is the count.
  pub list_pages :
      0 < n
      → n ≤ 500
      → let total = length (matches like f db.tasks) in
        let listed = all_pages 0 (total_pages total n) in
        (count_tasks like f [] db ≡ (ok total, [], db))
        × Perm listed (matches like f db.tasks)
        × Descending listed
  unfolding count_tasks
  list_pages h b = (
    refl,
    rw everything (newest_first-perm (matches like f db.tasks)),
    rw everything (newest_first-Descending (matches like f db.tasks)),
  )
    where
      from_first : 0 * n ≡ 0
      from_first = omega arith

      everything :
          all_pages 0 (total_pages (length (matches like f db.tasks)) n)
          ≡ newest_first (matches like f db.tasks)
      everything =
          all_pages-eq-take 0 (total_pages (length (matches like f db.tasks)) n) h b
          ∙ ap
              (λ m.
                take (total_pages (length (matches like f db.tasks)) n * n)
                  (drop m (newest_first (matches like f db.tasks))))
              from_first
          ∙ take-all _ (newest_first (matches like f db.tasks)) (
              omega (
                arith,
                length-newest_first (matches like f db.tasks),
                total_pages_cover (length (matches like f db.tasks)) n h,
              ))
