-- ===== src/Server/Dashboard/Window.antt =====
-- internal/server/ui.go: what the pagination bar shows.
use worker_lightweight.Base.{
  ◌≡◌, refl, subst, ℕ, zero, suc, ◌+◌, ◌-◌, ◌^◌, ◌≤◌, ◌<◌, ◌⊎◌, inl, inr, false, List, [], ◌∷◌,
  ◌++◌, ltb, ltb_ℤ, leb, pos, wrap-pos, ◌==◌, nat_eq, if◌then◌else◌, Bool-cases, arith,
}
use worker_lightweight.Server.Dashboard.Bar.{
  PageItem, page, ellipsis, low, high, item, window, before, after, build_page_items,
}

-- What may follow page `a`: nothing if it is the last, the next page, or an ellipsis and a page, if
-- at least one page lies between and all of these are more than two away from the current one.
abbrev pub Continues : (current total a : ℕ) → List PageItem → Type 0
Continues current total a [] = a ≡ total
Continues current total a (page n c ∷ xs) =
    (n ≡ a + 1) × (c ≡ (n == current)) × Continues current total n xs
Continues current total a (ellipsis ∷ []) = ⊥
Continues current total a (ellipsis ∷ ellipsis ∷ xs) = ⊥
Continues current total a (ellipsis ∷ page n c ∷ xs) =
    (a + 1 < n)
    × ((n + 2 ≤ current) ⊎ (current + 2 ≤ a))
    × (c ≡ (n == current))
    × Continues current total n xs

-- A whole bar starts with the first page.
abbrev pub Shows : (current total : ℕ) → List PageItem → Type 0
Shows current total [] = ⊥
Shows current total (ellipsis ∷ xs) = ⊥
Shows current total (page n c ∷ xs) = (n ≡ 1) × (c ≡ (n == current)) × Continues current total n xs

module _ (current total : ℕ) where
  window-Continues :
      (k a b : ℕ) (xs : List PageItem)
      → a + k ≡ b
      → Continues current total b xs
      → Continues current total a (window current (a + 1) k ++ xs)
  unfolding window
  window-Continues zero a b xs e h = subst (λ m. Continues current total m xs) same h
    where
      same : b ≡ a
      same = omega arith
  window-Continues (suc k) a b xs e h =
      (refl, refl, window-Continues k (a + 1) b xs (omega arith) h)

  -- `h` is the last page of the window, without wrap-around.
  record IsLast (h : ℕ) : Type 0 where
    within : h ≤ total
    reached : current ≤ h
    near : h ≤ current + 2
    full : h < total → h ≡ current + 2

  after-Continues : (h : ℕ) → IsLast h → Continues current total h (after current (pos h) total)
  after-Continues h l = elim (Bool-cases (ltb_ℤ (pos h) (pos total))) [
    | inr e ↦ rw e (ground (arith, l.within))
    | inl e ↦ elim (Bool-cases (ltb_ℤ (pos h) (pos (total - 1)))) [
      | inl f ↦ rw (e, f) (ground arith, inr (ground (arith, l.full)), refl, refl)
      | inr f ↦ rw (e, f) (ground arith, refl, refl)
    ]
  ]

  -- The bar from page `lo` on, and after its first button.
  abbrev from_low : ℕ → ℕ → List PageItem
  from_low lo h = window current lo (h + 1 - lo) ++ after current (pos h) total

  first_button :
      (lo h : ℕ)
      → lo ≤ h
      → from_low lo h
        ≡ item current lo ∷ window current (lo + 1) (h - lo) ++ after current (pos h) total
  unfolding window
  first_button lo h le = rw (rounds le) refl
    where
      rounds : lo ≤ h → h + 1 - lo ≡ suc (h - lo)
      rounds le = omega arith

  rest-Continues :
      (lo h : ℕ)
      → lo ≤ h
      → IsLast h
      → Continues current total lo (window current (lo + 1) (h - lo) ++ after current (pos h) total)
  rest-Continues lo h le l =
      window-Continues (h - lo) lo h (after current (pos h) total) (omega arith)
        (after-Continues h l)

  lows : 1 ≤ current → (low current ≡ 1) ⊎ ((low current + 2 ≡ current) × (1 < low current))
  lows one = ground arith

  bar-Shows :
      (lo h : ℕ)
      → (lo ≡ 1) ⊎ ((lo + 2 ≡ current) × (1 < lo))
      → lo ≤ h
      → IsLast h
      → Shows current total (before current lo ++ from_low lo h)
  bar-Shows lo h c le l = elim (Bool-cases (ltb 1 lo)) [
    | inr e ↦ rw (e, first_button lo h le) (ground arith, refl, rest-Continues lo h le l)
    | inl e ↦ elim (Bool-cases (ltb 2 lo)) [
      | inr f ↦
          rw (e, f, first_button lo h le)
            (refl, refl, (ground arith, refl, rest-Continues lo h le l))
      | inl f ↦
          rw (e, f, first_button lo h le)
            (refl, refl, (ground arith, inl (ground arith), refl, rest-Continues lo h le l))
    ]
  ]

  abbrev pub last : ℕ
  last = if ltb total (current + 2) then total else current + 2

  last-IsLast : 1 ≤ current → current ≤ total → IsLast last
  last-IsLast one inside = record {
    within = ground arith;
    reached = ground arith;
    near = ground arith;
    full = λ h. ground arith;
  }

  pub high_small : current + 2 < 2 ^ 63 → high current total ≡ pos last
  high_small small = rw (wrap-pos (current + 2) small) (ground arith)

  -- For a current page among at least two, the bar starts with the first page and ends with the last,
  -- its pages rise, and just the current one is marked; between neighbours stands an ellipsis
  -- exactly where pages are left out, and these are more than two away from the current page.
  pub build_page_items-Shows :
      1 ≤ current
      → current ≤ total
      → 2 ≤ total
      → current + 2 < 2 ^ 63
      → Shows current total (build_page_items current total)
  unfolding build_page_items
  build_page_items-Shows one inside two small =
      let many : leb total 1 ≡ false = ground arith in
      rw (many, high_small small)
        (bar-Shows (low current) last (lows one) (ground arith) (last-IsLast one inside))
