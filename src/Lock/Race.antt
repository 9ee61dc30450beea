-- ===== src/Lock/Race.antt =====
-- internal/lock/memory.go: Acquire is no critical section. The test of `e.exp` and the assignment of
-- `e.token` are separate steps of a goroutine, and there is no compare-and-swap between them.
use worker_lightweight.Base.{◌≡◌, refl, ℕ, ◌+◌, ◌<◌, Text, true, ltb, lt→ltb}
use worker_lightweight.Lock.{Entry, lease}

-- A goroutine in Acquire, at one key whose entry exists.
pub data Phase : Type 0 where
  called saw_expired won : Phase

-- The entry and two goroutines.
pub record Threads : Type 0 where
  pub entry : Entry
  pub first : Phase
  pub second : Phase

-- One step of either: it reads that the lease has run out, or it writes its own lease and returns
-- nil.
module _ (a b : Text) (ttl now : ℕ) where
  pub data Turn (s : Threads) : Threads → Type 0 where
    first_tests :
        s.first ≡ called → ltb s.entry.exp now ≡ true → Turn s (record s { first = saw_expired })
    second_tests :
        s.second ≡ called → ltb s.entry.exp now ≡ true → Turn s (record s { second = saw_expired })
    first_takes :
        s.first ≡ saw_expired → Turn s (record s { entry = lease a (now + ttl); first = won })
    second_takes :
        s.second ≡ saw_expired → Turn s (record s { entry = lease b (now + ttl); second = won })

  pub data Turns (s : Threads) : Threads → Type 0 where
    rest : Turns s s
    turn : {t u : Threads} → Turns s t → Turn t u → Turns s u

  -- From any entry whose lease has run out, two goroutines can both return nil from Acquire with
  -- fresh leases, whatever their tokens.
  pub two_winners :
      (e : Entry)
      → e.exp < now
      → Turns
          (record { entry = e; first = called; second = called })
          (record { entry = lease b (now + ttl); first = won; second = won })
  two_winners e h =
      turn
        (turn
          (turn (turn rest (first_tests refl (lt→ltb e.exp now h)))
            (second_tests refl (lt→ltb e.exp now h)))
          (first_takes refl))
        (second_takes refl)
