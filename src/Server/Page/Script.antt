-- ===== src/Server/Page/Script.antt =====
-- internal/server/ui_template.go: what the script takes of JavaScript and of the browser. Its numbers
-- are doubles, and fetch refuses or trims what a header cannot carry; both are a parameter.
use worker_lightweight.Base.{
  ◌≡◌, ◌≢◌, ℕ, ◌+◌, ◌-◌, ◌^◌, ◌≤◌, true, [], ◌++◌, Option, some, ℤ, pos, negsuc, ◌≤ℤ◌, Text, lit,
}
use worker_lightweight.Exchange.{all_of, is_visible}
use worker_lightweight.Server.Page.Html.{number_text}

pub record Browser : Type 0 where
  -- The number that the digits of an integer are read as, and how a number is written (`''+n`).
  pub read : ℤ → ℤ
  pub write : ℤ → Text
  -- The sum of two numbers, and their difference, where one below 0 counts as 0.
  pub plus : ℕ → ℕ → ℕ
  pub minus : ℕ → ℕ → ℕ
  -- What encoding/json stores in an int, from what JSON.stringify writes of the number that parseInt
  -- makes of the digits of an integer; `none` where it refuses the number.
  pub stored : ℤ → Option ℤ
  -- The value of a header at the server, from the one that fetch is given; `none` where fetch throws.
  pub carried : Text → Option Text

-- An integer that a double holds, with all between it and 0.
abbrev pub IsSafe : ℤ → Type 0
IsSafe z = (negsuc (2 ^ 53 - 1) ≤ℤ z) × (z ≤ℤ pos (2 ^ 53))

-- What ECMAScript, encoding/json and the Fetch standard document.
pub record IsBrowser (js : Browser) : Type 0 where
  pub reads : (z : ℤ) → IsSafe z → js.read z ≡ z
  pub writes : (z : ℤ) → IsSafe z → js.write z ≡ number_text z
  pub adds : (a b : ℕ) → a + b ≤ 2 ^ 53 → js.plus a b ≡ a + b
  pub subtracts : (a b : ℕ) → a ≤ 2 ^ 53 → b ≤ 2 ^ 53 → js.minus a b ≡ a - b
  pub stores : (z : ℤ) → IsSafe z → js.stored z ≡ some z
  pub bearer :
      (token : Text)
      → all_of is_visible token ≡ true
      → token ≢ []
      → js.carried (lit "Bearer " ++ token) ≡ some (lit "Bearer " ++ token)
