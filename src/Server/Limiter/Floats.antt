-- ===== src/Server/Limiter/Floats.antt =====
-- What rateLimiter does with a float64, and what it relies on. No value is a NaN.
use worker_lightweight.Base.{◌≡◌, ℕ, suc, ◌*◌, ◌^◌, ◌≤◌, Bool, true, false, ℤ, pos, ltb}

pub record Float {ℓ} (F : Type ℓ) : Type ℓ where
  -- float64(n), and Duration.Minutes of a number of nanoseconds.
  pub of_int : ℤ → F
  pub minutes : ℕ → F
  pub add : F → F → F
  pub sub : F → F → F
  pub mul : F → F → F
  pub lt : F → F → Bool

abbrev pub zero {ℓ} : {F : Type ℓ} ⦃fl : Float F⦄ → F
zero ⦃fl⦄ = fl.of_int (pos 0)

abbrev pub one {ℓ} : {F : Type ℓ} ⦃fl : Float F⦄ → F
one ⦃fl⦄ = fl.of_int (pos 1)

infix 4 ◌≼◌
abbrev pub ◌≼◌ {ℓ} : {F : Type ℓ} ⦃fl : Float F⦄ → F → F → Type 0
◌≼◌ ⦃fl⦄ x y = fl.lt y x ≡ false

-- One minute, in nanoseconds.
abbrev pub minute : ℕ
minute = 60 * 10 ^ 9

-- The order is total, and rounding is monotone.
pub record IsRounding {ℓ} (F : Type ℓ) ⦃fl : Float F⦄ : Type ℓ where
  pub int_nonneg : (n : ℕ) → zero ≼ fl.of_int (pos n)
  pub le_refl : (x : F) → x ≼ x
  pub le_trans : (x y z : F) → x ≼ y → y ≼ z → x ≼ z
  pub le_antisym : (x y : F) → x ≼ y → y ≼ x → x ≡ y
  pub le_of_lt : (x y : F) → fl.lt x y ≡ true → x ≼ y
  pub minutes_mono : (d : ℕ) → minute ≤ d → one ≼ fl.minutes d
  pub minutes_nonneg : (d : ℕ) → zero ≼ fl.minutes d
  pub mul_nonneg : (x y : F) → zero ≼ x → zero ≼ y → zero ≼ fl.mul x y
  pub mul_grows : (x y : F) → one ≼ x → zero ≼ y → y ≼ fl.mul x y
  pub add_nonneg : (x y : F) → zero ≼ x → y ≼ fl.add x y
  pub sub_nonneg : (x : F) → one ≼ x → zero ≼ fl.sub x one
  pub sub_le : (x : F) → fl.sub x one ≼ x

-- Arithmetic on integers up to 2 ^ 53 is exact.
pub record IsExact {ℓ} (F : Type ℓ) ⦃fl : Float F⦄ : Type ℓ where
  pub no_time : (x y : F) → fl.add x (fl.mul (fl.minutes 0) y) ≡ x
  pub sub_one : (n : ℕ) → suc n ≤ 2 ^ 53 → fl.sub (fl.of_int (pos (suc n))) one ≡ fl.of_int (pos n)
  pub lt_int :
      (m n : ℕ) → m ≤ 2 ^ 53 → n ≤ 2 ^ 53 → fl.lt (fl.of_int (pos m)) (fl.of_int (pos n)) ≡ ltb m n
