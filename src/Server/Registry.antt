-- ===== src/Server/Registry.antt =====
-- internal/server/server.go: workerRegistry, a map from worker ids to their latest snapshots.
use worker_lightweight.Base.{
  ℕ, ◌+◌, ◌-◌, ◌*◌, ◌^◌, ◌≤◌, ◌≡◌, refl, Bool, true, not, List, [], ◌∷◌, map, Option, none, some,
  Text, ◌==◌, text_eq, ltb, select, if◌then◌else◌, arith, All, Bool-cases, inl, inr, beq_self,
}
use worker_lightweight.Model.{WorkerInfo}

abbrev pub Registry : Type 0
Registry = List (Text × WorkerInfo)

unfoldable pub lookup : Text → Registry → Option WorkerInfo
lookup k [] = none
lookup k ((j, w) ∷ m) = if j == k then some w else lookup k m

unfoldable pub assign : Text → WorkerInfo → Registry → Registry
assign k w [] = (k, w) ∷ []
assign k w ((j, v) ∷ m) = if j == k then (k, w) ∷ m else (j, v) ∷ assign k w m

-- Heartbeat, at time `now`.
unfoldable pub heartbeat : WorkerInfo → ℕ → Registry → Registry
unfolding assign
heartbeat info now m = assign info.id (record info { last_heartbeat = now }) m

-- workerStaleAfter: 60 seconds, in nanoseconds.
abbrev pub stale_after : ℕ
stale_after = 60 * 10 ^ 9

-- Whether the snapshot is not older than the cutoff `now - stale_after`.
abbrev pub is_fresh : ℕ → Text × WorkerInfo → Bool
is_fresh now (k, w) = not (ltb w.last_heartbeat (now - stale_after))

-- List: the live workers, and the map without the stale ones. A map's order is not specified; here
-- it is that of the association list.
unfoldable pub list_workers : ℕ → Registry → List WorkerInfo × Registry
list_workers now m = (map (λ e. e.1) (select (is_fresh now) m), select (is_fresh now) m)

lookup-assign :
    (k j : Text) (w : WorkerInfo) (m : Registry)
    → lookup j (assign k w m) ≡ (if k == j then some w else lookup j m)
unfolding lookup assign
lookup-assign k j w [] = refl
lookup-assign k j w ((i, v) ∷ m) =
    ground
      (arith, text_eq.beq_iff k j, text_eq.beq_iff i k, text_eq.beq_iff i j, lookup-assign k j w m)

-- A worker's heartbeat replaces its own snapshot, stamped with the server's time, and no other's.
pub lookup-heartbeat :
    (info : WorkerInfo) (now : ℕ) (j : Text) (m : Registry)
    → lookup j (heartbeat info now m)
      ≡ (if info.id == j then some (record info { last_heartbeat = now }) else lookup j m)
unfolding heartbeat
lookup-heartbeat info now j m = lookup-assign info.id j (record info { last_heartbeat = now }) m

lookup-select :
    (now : ℕ) (j : Text) (m : Registry) (w : WorkerInfo)
    → lookup j m ≡ some w
    → is_fresh now (j, w) ≡ true
    → lookup j (select (is_fresh now) m) ≡ some w
unfolding lookup
lookup-select now j [] w e f = cc
lookup-select now j ((i, v) ∷ m) w e f =
    ground (arith, text_eq.beq_iff i j, lookup-select now j m w)

listed_fresh :
    (now : ℕ) (m : Registry)
    → All (λ w. now ≤ w.last_heartbeat + stale_after) (map (λ e. e.1) (select (is_fresh now) m))
listed_fresh now [] = tt
listed_fresh now ((k, w) ∷ m) = elim (Bool-cases (is_fresh now (k, w))) [
  | inl e ↦ rw e (ground arith, listed_fresh now m)
  | inr e ↦ rw e (listed_fresh now m)
]

-- The list shows only workers heard of in the last 60 seconds; and a worker that sent a heartbeat
-- at most 60 seconds ago is still known after a cleanup that the list makes.
pub list_workers_live :
    (info : WorkerInfo) (sent now : ℕ) (m : Registry)
    → sent ≤ now
    → now ≤ sent + stale_after
    → All (λ w. now ≤ w.last_heartbeat + stale_after) (list_workers now (heartbeat info sent m)).0
      × (lookup info.id (list_workers now (heartbeat info sent m)).1
          ≡ some (record info { last_heartbeat = sent }))
unfolding list_workers
list_workers_live info sent now m before fresh = (
  listed_fresh now (heartbeat info sent m),
  lookup-select now info.id (heartbeat info sent m) (record info { last_heartbeat = sent })
      (rw (lookup-heartbeat info sent info.id m) (rw (beq_self info.id) refl)) (ground arith),
)
