-- ===== src/Store/Life/Rows.antt =====
-- Tables as lists of rows whose ids ascend: their rows are told apart by their ids.
use worker_lightweight.Base.{
  ◌≡◌, refl, ◌⊎◌, inl, inr, Bool, true, false, List, [], ◌∷◌, ◌++◌, ℤ, pos, ◌<ℤ◌, ◌≤ℤ◌, some, find,
  select, In, head, tail, All, Bool-cases, if◌then◌else◌, arith,
}
use worker_lightweight.Model.{Task}
use worker_lightweight.Store.Db.{Db, update_rows}

-- The ids ascend from above `lo`.
abbrev pub Ascending : ℤ → List Task → Type 0
Ascending lo [] = Unit
Ascending lo (t ∷ ts) = (lo <ℤ t.id) × Ascending t.id ts

abbrev pub AtMost : ℤ → List Task → Type 0
AtMost hi = All (λ t. t.id ≤ℤ hi)

-- Ids are positive, ascend in the order of insertion and were given out by AUTOINCREMENT.
pub record IsValid (db : Db) : Type 0 where
  pub ascends : Ascending (pos 0) db.tasks
  pub given_out : AtMost (pos db.last_id) db.tasks

Ascending-mono : (lo hi : ℤ) (ts : List Task) → lo ≤ℤ hi → Ascending hi ts → Ascending lo ts
Ascending-mono lo hi [] h a = tt
Ascending-mono lo hi (t ∷ ts) h a = (omega arith, a.1)

module _ (p : Task → Bool) (f : Task → Task) (same_id : (t : Task) → (f t).id ≡ t.id) where
  updated-id : (t : Task) → (if p t then f t else t).id ≡ t.id
  updated-id t = elim (Bool-cases (p t)) [ inl e ↦ rw e (same_id t) | inr e ↦ rw e ]

  pub Ascending-update :
      (lo : ℤ) (ts : List Task) → Ascending lo ts → Ascending lo (update_rows p f ts)
  Ascending-update lo [] a = tt
  Ascending-update lo (t ∷ ts) a = rw (updated-id t) (a.0, Ascending-update t.id ts a.1)

  pub AtMost-update : (hi : ℤ) (ts : List Task) → AtMost hi ts → AtMost hi (update_rows p f ts)
  AtMost-update hi [] a = tt
  AtMost-update hi (t ∷ ts) a = (rw (updated-id t) a.0, AtMost-update hi ts a.1)

  pub IsValid-update :
      (db : Db) → IsValid db → IsValid (record db { tasks = update_rows p f db.tasks })
  IsValid-update db v = record {
    ascends = Ascending-update (pos 0) db.tasks v.ascends;
    given_out = AtMost-update (pos db.last_id) db.tasks v.given_out;
  }

-- A row after an UPDATE is a row that it left alone, or one that it changed.
pub In-update :
    (p : Task → Bool) (f : Task → Task) (u : Task) (ts : List Task)
    → In u (update_rows p f ts)
    → (t : Task) × In t ts × ((p t ≡ false) × (u ≡ t) ⊎ (p t ≡ true) × (u ≡ f t))
In-update p f u [] i = elim i [ ]
In-update p f u (t ∷ ts) (head e) = elim (Bool-cases (p t)) [
  | inl h ↦ (t, head refl, inr (h, ground arith))
  | inr h ↦ (t, head refl, inl (h, ground arith))
]
In-update p f u (t ∷ ts) (tail i) = let (t', j, e) = In-update p f u ts i in (t', tail j, e)

module _ (p : Task → Bool) where
  pub Ascending-select : (lo : ℤ) (ts : List Task) → Ascending lo ts → Ascending lo (select p ts)
  Ascending-select lo [] a = tt
  Ascending-select lo (t ∷ ts) a = elim (Bool-cases (p t)) [
    | inl e ↦ rw e (a.0, Ascending-select t.id ts a.1)
    | inr e ↦
        rw e (Ascending-mono lo t.id (select p ts) (omega arith) (Ascending-select t.id ts a.1))
  ]

  pub AtMost-select : (hi : ℤ) (ts : List Task) → AtMost hi ts → AtMost hi (select p ts)
  AtMost-select hi [] a = tt
  AtMost-select hi (t ∷ ts) a = elim (Bool-cases (p t)) [
    | inl e ↦ rw e (a.0, AtMost-select hi ts a.1)
    | inr e ↦ rw e (AtMost-select hi ts a.1)
  ]

  pub find-In : (ts : List Task) (t : Task) → find p ts ≡ some t → In t ts × (p t ≡ true)
  find-In [] t e = cc
  find-In (x ∷ xs) t e = elim (Bool-cases (p x)) [
    | inl h ↦ (head (ground arith), ground arith)
    | inr h ↦ let rest = find-In xs t (ground arith) in (tail rest.0, rest.1)
  ]

pub Ascending-snoc :
    (lo hi : ℤ) (ts : List Task) (t : Task)
    → Ascending lo ts
    → AtMost hi ts
    → lo ≤ℤ hi
    → hi <ℤ t.id
    → Ascending lo (ts ++ t ∷ [])
Ascending-snoc lo hi [] t a b l h = (omega arith, tt)
Ascending-snoc lo hi (x ∷ xs) t a b l h = (a.0, Ascending-snoc x.id hi xs t a.1 b.1 b.0 h)

pub AtMost-snoc :
    (lo hi : ℤ) (ts : List Task) (t : Task)
    → AtMost lo ts
    → lo ≤ℤ hi
    → t.id ≤ℤ hi
    → AtMost hi (ts ++ t ∷ [])
AtMost-snoc lo hi [] t a l h = (h, tt)
AtMost-snoc lo hi (x ∷ xs) t a l h = (omega arith, AtMost-snoc lo hi xs t a.1 l h)

pub In-snoc : (u t : Task) (ts : List Task) → In u (ts ++ t ∷ []) → In u ts ⊎ (u ≡ t)
In-snoc u t [] (head e) = inr e
In-snoc u t [] (tail i) = elim i [ ]
In-snoc u t (x ∷ xs) (head e) = inl (head e)
In-snoc u t (x ∷ xs) (tail i) = elim (In-snoc u t xs i) [ inl j ↦ inl (tail j) | inr e ↦ inr e ]

pub In-above : (lo : ℤ) (t : Task) (ts : List Task) → Ascending lo ts → In t ts → lo <ℤ t.id
In-above lo t [] a i = elim i [ ]
In-above lo t (x ∷ xs) a (head e) = rw e a.0
In-above lo t (x ∷ xs) a (tail i) = let h = In-above x.id t xs a.1 i in omega arith

pub In-AtMost : (hi : ℤ) (t : Task) (ts : List Task) → AtMost hi ts → In t ts → t.id ≤ℤ hi
In-AtMost hi t [] a i = elim i [ ]
In-AtMost hi t (x ∷ xs) a (head e) = rw e a.0
In-AtMost hi t (x ∷ xs) a (tail i) = In-AtMost hi t xs a.1 i

-- One row to an id.
pub In-unique :
    (lo : ℤ) (t u : Task) (ts : List Task)
    → Ascending lo ts
    → In t ts
    → In u ts
    → t.id ≡ u.id
    → t ≡ u
In-unique lo t u [] a i j e = elim i [ ]
In-unique lo t u (x ∷ xs) a (head h) (head k) e = cc
In-unique lo t u (x ∷ xs) a (head h) (tail j) e =
    let above : x.id <ℤ u.id = In-above x.id u xs a.1 j in
    let same : x.id ≡ u.id = cc in absurd (ground arith)
In-unique lo t u (x ∷ xs) a (tail i) (head k) e =
    let above : x.id <ℤ t.id = In-above x.id t xs a.1 i in
    let same : x.id ≡ t.id = cc in absurd (ground arith)
In-unique lo t u (x ∷ xs) a (tail i) (tail j) e = In-unique x.id t u xs a.1 i j e
