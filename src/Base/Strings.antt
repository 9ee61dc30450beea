-- ===== src/Base/Strings.antt =====
-- What the program takes of the packages strings and strconv, over the bytes of a string.
use Prim.Native.Nat.{ℕ, ◌+◌, ◌-◌, ◌*◌, ◌^◌}
use mathlib.Core.Bool.{Bool, true, false, ◌&&◌, ◌||◌}
use mathlib.Core.Option.{Option, none, some}
use mathlib.Core.List.{List, [], ◌∷◌, ◌++◌, reverse}
use worker_lightweight.Base.Tests.{ltb, leb, nat_beq, if◌then◌else◌}
use worker_lightweight.Base.Int.{ℤ, pos, negsuc, sub_ℕ}
use worker_lightweight.Base.Texts.{Text}

-- Puts a byte in front of the first part.
abbrev cons_first : ℕ → List Text → List Text
cons_first c [] = (c ∷ []) ∷ []
cons_first c (p ∷ ps) = (c ∷ p) ∷ ps

-- strings.Split at a separator of one byte.
unfoldable pub split : ℕ → Text → List Text
split sep [] = [] ∷ []
split sep (c ∷ s) = let rest = split sep s in if nat_beq c sep then [] ∷ rest else cons_first c rest

abbrev is_space : ℕ → Bool
is_space c = nat_beq c 32 || (leb 9 c && leb c 13)

trim_left : Text → Text
trim_left [] = []
trim_left (c ∷ s) = let rest = trim_left s in if is_space c then rest else c ∷ s

-- strings.TrimSpace, for ASCII.
unfoldable pub trim_space : Text → Text
unfolding trim_left
trim_space s = reverse (trim_left (reverse (trim_left s)))

-- strings.CutPrefix: what follows the prefix.
unfoldable pub after_prefix : Text → Text → Option Text
after_prefix [] s = some s
after_prefix (p ∷ ps) [] = none
after_prefix (p ∷ ps) (c ∷ s) = let rest = after_prefix ps s in if nat_beq p c then rest else none

-- strings.Join.
unfoldable pub join : Text → List Text → Text
join sep [] = []
join sep (p ∷ []) = p
join sep (p ∷ q ∷ ps) = p ++ (sep ++ join sep (q ∷ ps))

-- The value of a run of digits after `acc`, if there is nothing else.
unfoldable pub digits_value : ℕ → Text → Option ℕ
digits_value acc [] = some acc
digits_value acc (c ∷ s) =
    let rest = digits_value (acc * 10 + (c - b'0')) s in
    if leb b'0' c && leb c b'9' then rest else none

-- What strconv.ParseInt(s, 10, 64) and strconv.Atoi return: the value, and whether there was no
-- error. A malformed text gives 0, and one out of range the nearest int64.
abbrev pub Parsed : Type 0
Parsed = ℤ × Bool

abbrev parsed_pos : Option ℕ → Parsed
parsed_pos none = (pos 0, false)
parsed_pos (some n) = if ltb n (2 ^ 63) then (pos n, true) else (pos (2 ^ 63 - 1), false)

abbrev parsed_neg : Option ℕ → Parsed
parsed_neg none = (pos 0, false)
parsed_neg (some n) = if leb n (2 ^ 63) then (sub_ℕ 0 n, true) else (negsuc (2 ^ 63 - 1), false)

unfoldable pub unsigned : Text → Option ℕ
unfolding digits_value
unsigned [] = none
unsigned (c ∷ s) = digits_value 0 (c ∷ s)

unfoldable pub parse_int : Text → Parsed
unfolding unsigned
parse_int [] = (pos 0, false)
parse_int (c ∷ s) =
    if nat_beq c b'-'
    then parsed_neg (unsigned s)
    else if nat_beq c b'+'
    then parsed_pos (unsigned s)
    else parsed_pos (unsigned (c ∷ s))
