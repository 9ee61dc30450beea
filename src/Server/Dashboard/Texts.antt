-- ===== src/Server/Dashboard/Texts.antt =====
-- internal/server/ui.go: itoa and truncate.
use worker_lightweight.Base.{
  ℕ, zero, suc, ◌+◌, ◌/◌, ◌%◌, Bool, true, false, [], ◌∷◌, ◌++◌, Option, none, some, ℤ, pos,
  pos_part, ◌-ℤ◌, wrap, Text, lit, length, take, leb, ltb_ℤ, ◌==◌, nat_eq, int_eq, if◌then◌else◌,
}

-- The size of the buffer `b`.
abbrev pub buffer : ℕ
buffer = 20

-- The loop over the digits, with the places of the buffer that are left in front of `out`; `none`
-- is an index out of range.
unfoldable pub fill : ℕ → ℕ → Text → Option Text
fill zero n out = if n == 0 then some out else none
fill (suc free) n out =
    let rest = fill free (n / 10) ((b'0' + n % 10) ∷ out) in if n == 0 then some out else rest

-- The sign takes one more place.
abbrev pub signed : Bool → Option Text → Option Text
signed negative none = none
signed false (some s) = some s
signed true (some s) = if leb buffer (length s) then none else some (b'-' ∷ s)

-- `-i` is an int64, so it may be negative again, and then the loop makes no round.
abbrev pub magnitude : ℤ → ℤ
magnitude i = if ltb_ℤ i (pos 0) then wrap (pos 0 -ℤ i) else i

unfoldable pub itoa : ℤ → Option Text
unfolding wrap ◌-ℤ◌
itoa i =
    if i == pos 0
    then some (lit "0")
    else signed (ltb_ℤ i (pos 0)) (fill buffer (pos_part (magnitude i)) [])

unfoldable pub truncate : Text → ℕ → Text
truncate s n = if leb (length s) n then s else take n s ++ lit "..."
