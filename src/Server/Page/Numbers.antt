-- ===== src/Server/Page/Numbers.antt =====
-- internal/server/ui_template.go: the decimal texts of numbers are those of itoa, and the server reads
-- them back.
use worker_lightweight.Base.{
  ◌≡◌, refl, ℕ, zero, suc, ◌/◌, ◌+◌, ◌%◌, ◌-◌, ◌^◌, true, [], ◌∷◌, some, ℤ, pos, negsuc, ◌<ℤ◌, ◌≤ℤ◌,
  Text, All, ◌≢◌, Bool-cases, inl, inr, ◌==◌, nat_eq, parse_int, arith,
}
use worker_lightweight.Server.Dashboard.Texts.{itoa, fill, buffer}
use worker_lightweight.Server.Dashboard.Itoa.{
  itoa_pos, itoa_neg, digits_of, signed_fits, Filled, parse_int-itoa,
}
use worker_lightweight.Server.Page.Html.{digits, number_text, shown_text}

digits-fill : (free n : ℕ) (out s : Text) → fill free n out ≡ some s → digits free n out ≡ s
unfolding fill digits
digits-fill zero n out s e = ground arith
digits-fill (suc free) n out s e =
    ground (arith, digits-fill free (n / 10) ((b'0' + n % 10) ∷ out) s)

number_text_pos : (n : ℕ) → number_text (pos (suc n)) ≡ digits buffer (suc n) []
unfolding number_text
number_text_pos n = ground arith

pub number_text-itoa :
    (i : ℤ) → negsuc (2 ^ 63 - 1) <ℤ i → i ≤ℤ pos (2 ^ 63 - 1) → itoa i ≡ some (number_text i)
unfolding number_text
number_text-itoa (pos zero) low high = unfold itoa in refl
number_text-itoa (pos (suc n)) low high = from (digits_of (suc n) (omega arith))
  where
    from :
        (s : Text) × (fill buffer (suc n) [] ≡ some s) × Filled 19 (suc n) [] s
        → itoa (pos (suc n)) ≡ some (number_text (pos (suc n)))
    from (s, e, f) = rw (itoa_pos n, number_text_pos n, e, digits-fill buffer (suc n) [] s e) refl
number_text-itoa (negsuc n) low high = from (digits_of (suc n) (omega arith))
  where
    from :
        (s : Text) × (fill buffer (suc n) [] ≡ some s) × Filled 19 (suc n) [] s
        → itoa (negsuc n) ≡ some (number_text (negsuc n))
    from (s, e, f) =
        rw (itoa_neg n (omega arith), e, digits-fill buffer (suc n) [] s e) (signed_fits s f.fits)

-- What the server reads of a number in a query or in a path.
pub parse_int-number_text :
    (i : ℤ)
    → negsuc (2 ^ 63 - 1) <ℤ i
    → i ≤ℤ pos (2 ^ 63 - 1)
    → parse_int (number_text i) ≡ (i, true)
parse_int-number_text i low high = from (parse_int-itoa i low high)
  where
    from :
        (s : Text) × (itoa i ≡ some s) × (parse_int s ≡ (i, true))
        → parse_int (number_text i) ≡ (i, true)
    from (s, e, p) =
        let written = number_text-itoa i low high in
        let same : s ≡ number_text i = cc in rw (← same) p

-- No ampersand and no slash: the text is shown as it stands, and is one part of a path.
abbrev pub IsWord : Text → Type 0
IsWord = All (λ c. (c ≢ b'&') × (c ≢ b'/'))

digits-IsWord : (rounds n : ℕ) (out : Text) → IsWord out → IsWord (digits rounds n out)
unfolding digits
digits-IsWord zero n out h = h
digits-IsWord (suc rounds) n out h = elim (Bool-cases (n == 0)) [
  | inl e ↦ rw e h
  | inr e ↦ rw e (
      digits-IsWord rounds (n / 10) ((b'0' + n % 10) ∷ out)
        ((λ p. omega arith, λ p. omega arith), h))
]

pub number_text-IsWord : (i : ℤ) → IsWord (number_text i)
number_text-IsWord (pos zero) = unfold number_text in ((λ p. omega arith, λ p. omega arith), tt)
number_text-IsWord (pos (suc n)) = rw (number_text_pos n) (digits-IsWord buffer (suc n) [] tt)
number_text-IsWord (negsuc n) =
    unfold number_text in ((λ p. omega arith, λ p. omega arith), digits-IsWord buffer (suc n) [] tt)

pub shown_text-IsWord : (s : Text) → IsWord s → shown_text 0 s ≡ s
unfolding shown_text
shown_text-IsWord [] h = refl
shown_text-IsWord (c ∷ s) h = ground (arith, shown_text-IsWord s)
