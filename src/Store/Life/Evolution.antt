-- ===== src/Store/Life/Evolution.antt =====
-- internal/store/store.go: how the task table comes from an earlier one, by any operations and by one.
use worker_lightweight.Base.{
  refl, ℕ, pos, ◌<ℤ◌, List, Text, ◌≡◌, ◌≤◌, ◌⊎◌, inl, inr, Bool, true, false, In, int_eq, text_eq,
  arith,
}
use worker_lightweight.Model.{Task, status_eq}
use worker_lightweight.Store.Db.{Db, update_rows}
use worker_lightweight.Store.Control.{in_flight, toggled, halted}
use worker_lightweight.Store.Life.{
  Edit, toggle, halt, Edits, here, next, IsNew, Origin, old, new, Edits-trans,
}
use worker_lightweight.Store.Life.Rows.{IsValid, IsValid-update, In-update}

-- A later table is valid, gave out no id again, and each of its rows has an origin in the earlier.
pub record Evolves (db db' : Db) : Type 0 where
  pub valid : IsValid db'
  pub grows : db.last_id ≤ db'.last_id
  pub origin : (u : Task) → In u db'.tasks → Origin db.last_id db.tasks u

pub Evolves-refl : (db : Db) → IsValid db → Evolves db db
Evolves-refl db v = record { valid = v; grows = omega arith; origin = λ u i. old u i here }

pub Evolves-trans : (a b c : Db) → Evolves a b → Evolves b c → Evolves a c
Evolves-trans a b c e f = record {
  valid = f.valid;
  grows = omega arith;
  origin = λ u i. join u (f.origin u i);
}
  where
    extend : (u v : Task) → Origin a.last_id a.tasks u → Edits u v → Origin a.last_id a.tasks v
    extend u v (old t i s) s' = old t i (Edits-trans s s')
    extend u v (new t n h s) s' = new t n h (Edits-trans s s')

    join : (u : Task) → Origin b.last_id b.tasks u → Origin a.last_id a.tasks u
    join u (old t i s) = extend t u (e.origin t i) s
    join u (new t n h s) = new t n (omega (arith, e.grows)) s

-- What one operation does to a row: nothing, one change, or a switch and then a stop.
pub data Change (t u : Task) : Type 0 where
  kept : u ≡ t → Change t u
  edited : Edit t u → Change t u
  switched_halted :
      (v : Task) (enabled : Bool) (now : ℕ) (reason : Text) (now' : ℕ)
      → v ≡ toggled enabled now t
      → in_flight v ≡ true
      → u ≡ halted reason now' v
      → Change t u

-- Where a row comes from by one operation.
pub data Source (last_id : ℕ) (ts : List Task) (u : Task) : Type 0 where
  before : (t : Task) → In t ts → Change t u → Source last_id ts u
  inserted : IsNew u → pos last_id <ℤ u.id → Source last_id ts u

-- A table after one operation.
pub record Moves (db db' : Db) : Type 0 where
  pub valid : IsValid db'
  pub grows : db.last_id ≤ db'.last_id
  pub source : (u : Task) → In u db'.tasks → Source db.last_id db.tasks u

pub Change-Edits : (t u : Task) → Change t u → Edits t u
Change-Edits t u (kept e) = rw e here
Change-Edits t u (edited e) = next here e
Change-Edits t u (switched_halted v enabled now reason now' e h f) =
    next (next here (toggle enabled now e)) (halt reason now' h f)

pub Moves-Evolves : (a b : Db) → Moves a b → Evolves a b
Moves-Evolves a b m = record {
  valid = m.valid;
  grows = m.grows;
  origin = λ u i. from u (m.source u i);
}
  where
    from : (u : Task) → Source a.last_id a.tasks u → Origin a.last_id a.tasks u
    from u (before t i c) = old t i (Change-Edits t u c)
    from u (inserted n h) = new u n h here

pub Moves-refl : (db : Db) → IsValid db → Moves db db
Moves-refl db v = record { valid = v; grows = omega arith; source = λ u i. before u i (kept refl) }

pub Moves-update :
    (p : Task → Bool) (f : Task → Task) (db : Db)
    → ((t : Task) → (f t).id ≡ t.id)
    → ((t : Task) → In t db.tasks → p t ≡ true → Edit t (f t))
    → IsValid db
    → Moves db (record db { tasks = update_rows p f db.tasks })
Moves-update p f db same_id edit v = record {
  valid = IsValid-update p f same_id db v;
  grows = omega arith;
  source = λ u i. from u (In-update p f u db.tasks i);
}
  where
    from :
        (u : Task)
        → (t : Task) × In t db.tasks × ((p t ≡ false) × (u ≡ t) ⊎ (p t ≡ true) × (u ≡ f t))
        → Source db.last_id db.tasks u
    from u (t, i, inl (_, e)) = before t i (kept e)
    from u (t, i, inr (h, e)) = before t i (rw e (edited (edit t i h)))

-- Rows are switched, and then those that `p` selects, which wait or run, are halted.
module _ (p q : Task → Bool) (enabled : Bool) (reason : Text) (now now' : ℕ) (db : Db)
    (live : (t : Task) → p t ≡ true → in_flight t ≡ true) where
  abbrev switched_rows : List Task
  switched_rows = update_rows q (toggled enabled now) db.tasks

  pub Moves-toggle_halt :
      IsValid db → Moves db (record db { tasks = update_rows p (halted reason now') switched_rows })
  Moves-toggle_halt v = record {
    valid =
        IsValid-update p (halted reason now') (λ t. refl) (record db { tasks = switched_rows })
          (IsValid-update q (toggled enabled now) (λ t. refl) db v);
    grows = omega arith;
    source = λ u i. from u (In-update p (halted reason now') u switched_rows i);
  }
    where
      switch :
          (w : Task)
          → (t : Task) × In t db.tasks
            × ((q t ≡ false) × (w ≡ t) ⊎ (q t ≡ true) × (w ≡ toggled enabled now t))
          → Source db.last_id db.tasks w
      switch w (t, i, inl (_, e)) = before t i (kept e)
      switch w (t, i, inr (_, e)) = before t i (edited (toggle enabled now e))

      stop :
          (u w : Task)
          → p w ≡ true
          → u ≡ halted reason now' w
          → (t : Task) × In t db.tasks
            × ((q t ≡ false) × (w ≡ t) ⊎ (q t ≡ true) × (w ≡ toggled enabled now t))
          → Source db.last_id db.tasks u
      stop u w h e (t, i, inl (_, k)) =
          before t i (edited (halt reason now' (rw k at (live w h)) (rw k at e)))
      stop u w h e (t, i, inr (_, k)) =
          before t i (switched_halted w enabled now reason now' k (live w h) e)

      from :
          (u : Task)
          → (w : Task) × In w switched_rows
            × ((p w ≡ false) × (u ≡ w) ⊎ (p w ≡ true) × (u ≡ halted reason now' w))
          → Source db.last_id db.tasks u
      from u (w, i, inl (_, e)) = rw e (switch w (In-update q (toggled enabled now) w db.tasks i))
      from u (w, i, inr (h, e)) = stop u w h e (In-update q (toggled enabled now) w db.tasks i)
