-- ===== src/Server/Dashboard/Bar.antt =====
-- internal/server/ui.go: buildPageItems.
use worker_lightweight.Base.{
  ℕ, zero, suc, ◌+◌, ◌-◌, Bool, List, [], ◌∷◌, ◌++◌, ltb, leb, ℤ, pos, pos_part, wrap, ltb_ℤ, ◌==◌,
  nat_eq, if◌then◌else◌,
}

-- A page that is an ellipsis has no number.
pub data PageItem : Type 0 where
  page : (number : ℕ) (current : Bool) → PageItem
  ellipsis : PageItem

-- The first and the last page of the window around the current one.
abbrev pub low : ℕ → ℕ
low current = if ltb (current - 2) 1 then 1 else current - 2

-- `current + 2` is an int.
abbrev pub high : ℕ → ℕ → ℤ
high current total =
    let h = wrap (pos (current + 2)) in if ltb_ℤ (pos total) h then pos total else h

abbrev pub item : ℕ → ℕ → PageItem
item current p = page p (p == current)

-- `for p := lo; p <= hi; p++`, by the rounds left.
unfoldable pub window : ℕ → ℕ → ℕ → List PageItem
window current p zero = []
window current p (suc rounds) = item current p ∷ window current (p + 1) rounds

abbrev pub before : ℕ → ℕ → List PageItem
before current lo =
    if ltb 1 lo then item current 1 ∷ (if ltb 2 lo then ellipsis ∷ [] else []) else []

abbrev pub after : ℕ → ℤ → ℕ → List PageItem
after current hi total =
    if ltb_ℤ hi (pos total)
    then (if ltb_ℤ hi (pos (total - 1)) then ellipsis ∷ [] else []) ++ item current total ∷ []
    else []

-- Both arguments are at least 1, as the callers make them.
unfoldable pub build_page_items : ℕ → ℕ → List PageItem
unfolding window wrap
build_page_items current total =
    let lo = low current in
    let hi = high current total in
    if leb total 1
    then []
    else before current lo ++ (window current lo (pos_part hi + 1 - lo) ++ after current hi total)
