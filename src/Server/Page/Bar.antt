-- ===== src/Server/Page/Bar.antt =====
-- internal/server/ui_template.go: the page buttons of renderPagination, which mirror buildPageItems.
use mathlib.Core.Option
use worker_lightweight.Base.{
  ◌≡◌, refl, ap, ℕ, zero, suc, ◌+◌, ◌-◌, ◌^◌, ◌≤◌, ◌<◌, false, List, [], ◌∷◌, Option, ◌++◌, none,
  some, ltb, leb, pos, ◌==◌, nat_eq, if◌then◌else◌, Bool-cases, inl, inr, arith,
}
use worker_lightweight.Server.Dashboard.Bar.{
  PageItem, page, ellipsis, low, window, before, after, build_page_items,
}
use worker_lightweight.Server.Dashboard.Window.{last, high_small}
use worker_lightweight.Server.Page.Script.{Browser, IsBrowser}

module _ (js : Browser) where
  -- `for (var p = lo; p <= hi; p++)`; `none` where it has not ended after `fuel` tests.
  unfoldable pub page_buttons : (fuel current p hi : ℕ) → Option (List PageItem)
  page_buttons zero current p hi = none
  page_buttons (suc fuel) current p hi =
      let rest = page_buttons fuel current (js.plus p 1) hi in
      if leb p hi then Option.map (λ items. page p (p == current) ∷ items) rest else some []

  abbrev pub first_page : ℕ → ℕ
  first_page current = let lo = js.minus current 2 in if ltb lo 1 then 1 else lo

  abbrev pub last_page : ℕ → ℕ → ℕ
  last_page current total = let hi = js.plus current 2 in if ltb total hi then total else hi

  -- The buttons around the window, which are never marked.
  abbrev pub around : (lo hi total : ℕ) → List PageItem → List PageItem
  around lo hi total buttons =
      (if ltb 1 lo then page 1 false ∷ (if ltb 2 lo then ellipsis ∷ [] else []) else [])
      ++ (buttons
          ++ (if ltb hi total
              then (if ltb hi (js.minus total 1) then ellipsis ∷ [] else [])
                ++ page total false ∷ []
              else []))

  -- `none` where the loop does not end: p++ leaves a number above 2 ^ 53 as it is or goes on, and
  -- there are at most five numbers from lo to hi.
  unfoldable pub script_items : (current total : ℕ) → Option (List PageItem)
  script_items current total =
      let lo = first_page current in
      let hi = last_page current total in
      Option.map (around lo hi total) (page_buttons 6 current lo hi)

-- The ends of the window, computed exactly.
abbrev from_page : ℕ → ℕ
from_page current = if ltb (current - 2) 1 then 1 else current - 2

abbrev to_page : ℕ → ℕ → ℕ
to_page current total = if ltb total (current + 2) then total else current + 2

before_lem :
    (current : ℕ)
    → (if ltb 1 (from_page current)
        then page 1 false ∷ (if ltb 2 (from_page current) then ellipsis ∷ [] else [])
        else [])
      ≡ before current (low current)
before_lem current = ground arith

after_lem :
    (current total : ℕ)
    → let hi = to_page current total in
      (if ltb hi total
        then (if ltb hi (total - 1) then ellipsis ∷ [] else []) ++ page total false ∷ []
        else [])
      ≡ after current (pos (last current total)) total
after_lem current total = ground arith

module _ (js : Browser) (exact : IsBrowser js) where
  page_buttons-window :
      (fuel current p hi : ℕ)
      → hi < 2 ^ 53
      → hi + 1 - p < fuel
      → page_buttons js fuel current p hi ≡ some (window current p (hi + 1 - p))
  unfolding page_buttons window
  page_buttons-window zero current p hi small enough = elim enough [ ]
  page_buttons-window (suc fuel) current p hi small enough = elim (Bool-cases (leb p hi)) [
    | inl e ↦
        let below : p ≤ hi = ground arith in
        let one : js.plus p 1 ≡ p + 1 = exact.adds p 1 (omega arith) in
        let rounds : hi + 1 - p ≡ suc (hi + 1 - (p + 1)) = omega arith in
        rw (e, one, page_buttons-window fuel current (p + 1) hi small (omega arith), rounds) refl
    | inr e ↦ let none_left : hi + 1 - p ≡ 0 = ground arith in rw (e, none_left) refl
  ]

  around_lem :
      (current total : ℕ) (buttons : List PageItem)
      → 2 ≤ total
      → total ≤ 2 ^ 53
      → around js (from_page current) (to_page current total) total buttons
        ≡ before current (low current)
          ++ (buttons ++ after current (pos (last current total)) total)
  around_lem current total buttons two safe =
      let end : js.minus total 1 ≡ total - 1 = exact.subtracts total 1 safe (omega arith) in
      rw (end, before_lem current, after_lem current total) refl

  -- For at least two pages and at most 2 ^ 53, and a current page below 2 ^ 53 - 2 that may lie outside
  -- of them, the loop of the script ends, and the script builds the very page buttons that
  -- buildPageItems gives the template.
  pub script_items-Same :
      (current total : ℕ)
      → 2 ≤ total
      → total ≤ 2 ^ 53
      → current + 2 < 2 ^ 53
      → script_items js current total ≡ some (build_page_items current total)
  unfolding script_items build_page_items
  script_items-Same current total two safe small =
      let many : leb total 1 ≡ false = ground arith in
      let lo : js.minus current 2 ≡ current - 2 =
        exact.subtracts current 2 (omega arith) (omega arith) in
      let hi : js.plus current 2 ≡ current + 2 = exact.adds current 2 (omega arith) in
      let ended =
        page_buttons-window 6 current (from_page current) (to_page current total) (ground arith)
          (ground arith) in
      rw (many, lo, hi, high_small current total (omega arith), ended)
        (ap some (around_lem current total _ two safe))
