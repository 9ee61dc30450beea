-- ===== src/Server/Dashboard/Itoa.antt =====
-- internal/server/ui.go: itoa prints an int64 as strconv.ParseInt reads it.
use native.Mathlib.Nat.{pow-suc}
use worker_lightweight.Base.{
  ◌≡◌, refl, ◌∙◌, ap, ℕ, zero, suc, ◌+◌, ◌-◌, ◌*◌, ◌/◌, ◌%◌, ◌^◌, ◌≤◌, ◌<◌, ◌⊎◌, inl, inr, true,
  false, [], ◌∷◌, some, ℤ, pos, negsuc, ◌<ℤ◌, ◌≤ℤ◌, ◌-ℤ◌, wrap-pos, Text, lit, length, digits_value,
  parse_int, arith,
}
use worker_lightweight.Server.Dashboard.Texts.{buffer, fill, signed, magnitude, itoa}

abbrev pub StartsDigit : Text → Type 0
StartsDigit [] = ⊥
StartsDigit (c ∷ s) = (b'0' ≤ c) × (c ≤ b'9')

read_digit :
    (n : ℕ) (out : Text) → digits_value (n / 10) ((b'0' + n % 10) ∷ out) ≡ digits_value n out
unfolding digits_value
read_digit n out = ground (arith, joined)
  where
    joined : n / 10 * 10 + (b'0' + n % 10 - b'0') ≡ n
    joined = omega arith

tenth : (n j : ℕ) → n < 10 ^ suc j → n / 10 < 10 ^ j
tenth n j h = let e : 10 ^ suc j ≡ 10 * 10 ^ j = omega (arith, pow-suc 10 j) in omega arith

-- What the loop leaves: the digits of `n` before `out`.
pub record Filled (j n : ℕ) (out : Text) (s : Text) : Type 0 where
  pub reads : digits_value 0 s ≡ digits_value n out
  pub fits : length s ≤ length out + j
  pub starts : (0 < n) ⊎ StartsDigit out → StartsDigit s

fill_done : (free : ℕ) (out : Text) → fill free 0 out ≡ some out
unfolding fill
fill_done zero out = refl
fill_done (suc free) out = refl

fill_round :
    (free n : ℕ) (out : Text)
    → fill (suc free) (suc n) out ≡ fill free (suc n / 10) ((b'0' + suc n % 10) ∷ out)
unfolding fill
fill_round free n out = ground arith

starts_here : (out : Text) → (0 < 0) ⊎ StartsDigit out → StartsDigit out
starts_here out (inl h) = absurd (omega arith)
starts_here out (inr h) = h

fill_lem :
    (j free n : ℕ) (out : Text)
    → n < 10 ^ j
    → j ≤ free
    → (s : Text) × (fill free n out ≡ some s) × Filled j n out s
fill_lem j free zero out small room =
    (out, fill_done free out, record { reads = refl; fits = omega arith; starts = starts_here out })
fill_lem zero free (suc n) out small room = absurd (omega arith)
fill_lem (suc j) zero (suc n) out small room = absurd (omega arith)
fill_lem (suc j) (suc free) (suc n) out small room =
    from (fill_lem j free m (d ∷ out) (tenth (suc n) j small) (omega arith))
  where
    m : ℕ
    m = suc n / 10

    d : ℕ
    d = b'0' + suc n % 10

    from :
        (s : Text) × (fill free m (d ∷ out) ≡ some s) × Filled j m (d ∷ out) s
        → (s : Text) × (fill (suc free) (suc n) out ≡ some s) × Filled (suc j) (suc n) out s
    from (s, e, f) = (
      s,
      fill_round free n out ∙ e,
      record {
        reads = f.reads ∙ read_digit (suc n) out;
        fits = omega (arith, f.fits);
        starts = λ _. f.starts (inr (omega arith));
      },
    )

parse_digits :
    (s : Text) (n : ℕ)
    → StartsDigit s
    → digits_value 0 s ≡ some n
    → n < 2 ^ 63
    → parse_int s ≡ (pos n, true)
unfolding parse_int
parse_digits [] n d e small = absurd d
parse_digits (c ∷ s) n d e small = ground arith

parse_negative :
    (s : Text) (n : ℕ)
    → StartsDigit s
    → digits_value 0 s ≡ some (suc n)
    → suc n ≤ 2 ^ 63
    → parse_int (b'-' ∷ s) ≡ (negsuc n, true)
unfolding parse_int
parse_negative [] n d e small = absurd d
parse_negative (c ∷ s) n d e small = ground arith

pub itoa_pos : (n : ℕ) → itoa (pos (suc n)) ≡ signed false (fill buffer (suc n) [])
unfolding itoa
itoa_pos n = ground arith

magnitude_neg : (n : ℕ) → suc n < 2 ^ 63 → magnitude (negsuc n) ≡ pos (suc n)
unfolding ◌-ℤ◌
magnitude_neg n small = ground (arith, wrap-pos (suc n) small)

pub itoa_neg : (n : ℕ) → suc n < 2 ^ 63 → itoa (negsuc n) ≡ signed true (fill buffer (suc n) [])
unfolding itoa
itoa_neg n small = let e = magnitude_neg n small in rw e (ground arith)

pub digits_of : (n : ℕ) → n < 2 ^ 63 → (s : Text) × (fill buffer n [] ≡ some s) × Filled 19 n [] s
digits_of n small = fill_lem 19 buffer n [] (omega arith) (omega arith)

pub signed_fits : (s : Text) → length s ≤ 0 + 19 → signed true (some s) ≡ some (b'-' ∷ s)
signed_fits s h = ground arith

-- The text of an int64 above the least one fits the buffer, and strconv.ParseInt reads it back.
pub parse_int-itoa :
    (i : ℤ)
    → negsuc (2 ^ 63 - 1) <ℤ i
    → i ≤ℤ pos (2 ^ 63 - 1)
    → (s : Text) × (itoa i ≡ some s) × (parse_int s ≡ (i, true))
unfolding itoa parse_int
parse_int-itoa (pos zero) low high = (lit "0", refl, refl)
parse_int-itoa (pos (suc n)) low high = from (digits_of (suc n) (omega arith))
  where
    from :
        (s : Text) × (fill buffer (suc n) [] ≡ some s) × Filled 19 (suc n) [] s
        → (s : Text) × (itoa (pos (suc n)) ≡ some s) × (parse_int s ≡ (pos (suc n), true))
    from (s, e, f) = (
      s,
      itoa_pos n ∙ ap (signed false) e,
      parse_digits s (suc n) (f.starts (inl (omega arith))) f.reads (omega arith),
    )
parse_int-itoa (negsuc n) low high = from (digits_of (suc n) (omega arith))
  where
    from :
        (s : Text) × (fill buffer (suc n) [] ≡ some s) × Filled 19 (suc n) [] s
        → (s : Text) × (itoa (negsuc n) ≡ some s) × (parse_int s ≡ (negsuc n, true))
    from (s, e, f) = (
      b'-' ∷ s,
      itoa_neg n (omega arith) ∙ ap (signed true) e ∙ signed_fits s f.fits,
      parse_negative s n (f.starts (inl (omega arith))) f.reads (omega arith),
    )

-- The least int64 is printed as a sign alone.
pub itoa_least : itoa (negsuc (2 ^ 63 - 1)) ≡ some (lit "-")
unfolding itoa fill
itoa_least = refl
