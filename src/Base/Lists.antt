-- ===== src/Base/Lists.antt =====
-- Lists measured by native numbers, and the list functions and predicates that the tables use.
use Prim.Native.Nat.{ℕ, zero, suc, ◌+◌, ◌<◌}
use mathlib.Core.Path.{◌≡◌, refl}
use mathlib.Core.Logic.{inl, inr}
use mathlib.Core.Bool.{Bool, true, false}
use mathlib.Core.List.{List, [], ◌∷◌, ◌++◌}
use mathlib.Core.Option.{Option, none, some}
use native.Mathlib.Omega.{arith}
use worker_lightweight.Base.Tests.{if◌then◌else◌, Bool-cases}

module _ {ℓ} {A : Type ℓ} where
  abbrev pub length : List A → ℕ
  length [] = 0
  length (x ∷ xs) = suc (length xs)

  abbrev pub take : ℕ → List A → List A
  take zero xs = []
  take (suc n) [] = []
  take (suc n) (x ∷ xs) = x ∷ take n xs

  abbrev pub drop : ℕ → List A → List A
  drop zero xs = xs
  drop (suc n) [] = []
  drop (suc n) (x ∷ xs) = drop n xs

  -- The rows that pass a test, in order.
  abbrev pub select : (A → Bool) → List A → List A
  select p [] = []
  select p (x ∷ xs) = if p x then x ∷ select p xs else select p xs

  abbrev pub find : (A → Bool) → List A → Option A
  find p [] = none
  find p (x ∷ xs) = if p x then some x else find p xs

  abbrev pub All {κ} : (A → Type κ) → List A → Type κ
  All P [] = Unit
  All P (x ∷ xs) = P x × All P xs

  -- `x` stands in the list.
  pub data In (x : A) : List A → Type ℓ where
    head : {y : A} {ys : List A} → x ≡ y → In x (y ∷ ys)
    tail : {y : A} {ys : List A} → In x ys → In x (y ∷ ys)

  pub length-append : (xs ys : List A) → length (xs ++ ys) ≡ length xs + length ys
  length-append [] ys = omega arith
  length-append (x ∷ xs) ys = omega (arith, length-append xs ys)

  pub In-length : {x : A} (xs : List A) → In x xs → 0 < length xs
  In-length [] i = elim i [ ]
  In-length (y ∷ ys) (head h) = omega arith
  In-length (y ∷ ys) (tail i) = omega arith

module _ {ℓ} {A : Type ℓ} (p : A → Bool) where
  pub In-select : (x : A) (xs : List A) → In x (select p xs) → In x xs × (p x ≡ true)
  In-select x [] i = elim i [ ]
  In-select x (y ∷ ys) i = go (p y) refl (In-select x ys) i
    where
      go :
          (b : Bool)
          → p y ≡ b
          → (In x (select p ys) → In x ys × (p x ≡ true))
          → In x (if b then y ∷ select p ys else select p ys)
          → In x (y ∷ ys) × (p x ≡ true)
      go true e ih (head h) = (head h, rw h e)
      go true e ih (tail i) = (tail (ih i).0, (ih i).1)
      go false e ih i = (tail (ih i).0, (ih i).1)

  pub select-In : (x : A) (xs : List A) → In x xs → p x ≡ true → In x (select p xs)
  select-In x [] i e = elim i [ ]
  select-In x (y ∷ ys) (head h) e = rw (← h, e) (head refl)
  select-In x (y ∷ ys) (tail i) e = elim (Bool-cases (p y)) [
    | inl q ↦ rw q (tail (select-In x ys i e))
    | inr q ↦ rw q (select-In x ys i e)
  ]
