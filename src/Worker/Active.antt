-- ===== src/Worker/Active.antt =====
-- internal/worker/pool.go: the map of tasks in flight, as the set of their ids, and the stop list.
use worker_lightweight.Base.{
  ◌≡◌, refl, Bool, false, not, ◌&&◌, ◌||◌, List, [], ◌∷◌, ℤ, select, ◌==◌, int_eq, if◌then◌else◌,
  arith,
}

abbrev pub Active : Type 0
Active = List ℤ

abbrev pub has : ℤ → Active → Bool
has i [] = false
has i (j ∷ js) = j == i || has i js

unfoldable pub unregister_active : ℤ → Active → Active
unregister_active i a = select (λ j. not (j == i)) a

unfoldable pub register_active : ℤ → Active → Active
unfolding unregister_active
register_active i a = i ∷ unregister_active i a

-- cancelActive: whether the task was in flight, and the map without it.
unfoldable pub cancel_active : ℤ → Active → Bool × Active
unfolding unregister_active
cancel_active i a = (has i a, if has i a then unregister_active i a else a)

-- The loop of fetch over the stop list: the ids whose context it cancels, and the map after it.
unfoldable pub cancel_all : List ℤ → Active → List ℤ × Active
cancel_all [] a = ([], a)
cancel_all (i ∷ is) a =
    let c = cancel_active i a in
    let rest = cancel_all is c.1 in (if c.0 then i ∷ rest.0 else rest.0, rest.1)

has-unregister : (i j : ℤ) (a : Active) → has j (unregister_active i a) ≡ (has j a && not (i == j))
unfolding unregister_active
has-unregister i j [] = refl
has-unregister i j (k ∷ ks) =
    ground
      (arith, int_eq.beq_iff k i, int_eq.beq_iff k j, int_eq.beq_iff i j, has-unregister i j ks)

has-cancel : (i j : ℤ) (a : Active) → has j (cancel_active i a).1 ≡ (has j a && not (i == j))
unfolding cancel_active
has-cancel i j a = ground (arith, has-unregister i j a, int_eq.beq_iff i j)

cancel-first : (i : ℤ) (a : Active) → (cancel_active i a).0 ≡ has i a
unfolding cancel_active
cancel-first i a = refl

-- After a stop list was handled, a task is in flight exactly if it was before and is not on the
-- list; and a context was cancelled exactly if its task was in flight and is on the list.
pub cancel_all_lem :
    (is : List ℤ) (a : Active) (j : ℤ)
    → (has j (cancel_all is a).1 ≡ (has j a && not (has j is)))
      × (has j (cancel_all is a).0 ≡ (has j a && has j is))
unfolding cancel_all
cancel_all_lem [] a j = ground arith
cancel_all_lem (i ∷ is) a j = ground (
  arith,
  has-cancel i j a,
  cancel-first i a,
  cancel_all_lem is (cancel_active i a).1 j,
  int_eq.beq_iff i j,
)
