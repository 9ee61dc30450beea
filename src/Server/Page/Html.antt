-- ===== src/Server/Page/Html.antt =====
-- internal/server/ui_template.go: escapeHtml, and how html/template writes an int64.
use worker_lightweight.Base.{
  ◌∙◌, ap, ◌≡◌, ◌≢◌, refl, ℕ, zero, suc, ◌+◌, ◌/◌, ◌%◌, [], ◌∷◌, ◌++◌, none, some, ℤ, pos, negsuc,
  Text, lit, after_prefix, All, ◌==◌, nat_eq, if◌then◌else◌, arith,
}

-- The entity that stands for a character, and the characters that have one.
abbrev pub entity : ℕ → Text
entity c =
    if c == b'&'
    then lit "&amp;"
    else if c == b'<'
    then lit "&lt;"
    else if c == b'>'
    then lit "&gt;"
    else if c == b'"'
    then lit "&quot;"
    else if c == b'\''
    then lit "&#39;"
    else c ∷ []

unfoldable pub escape_html : Text → Text
escape_html [] = []
escape_html (c ∷ s) = entity c ++ escape_html s

-- The decimal digits of a number that is not 0, before `out`.
unfoldable pub digits : ℕ → ℕ → Text → Text
digits zero n out = out
digits (suc rounds) n out =
    let rest = digits rounds (n / 10) ((b'0' + n % 10) ∷ out) in if n == 0 then out else rest

-- What the template writes for `{{.ParentID}}`, an int64.
unfoldable pub number_text : ℤ → Text
unfolding digits
number_text (pos n) = if n == 0 then lit "0" else digits 20 n []
number_text (negsuc n) = b'-' ∷ digits 20 (suc n) []

-- What a browser reads at an ampersand: a character, and how much of the entity is left.
abbrev entity_at : Text → ℕ × ℕ
entity_at s = elim (after_prefix (lit "amp;") s) [
  | some _ ↦ (b'&', 4)
  | none ↦ elim (after_prefix (lit "lt;") s) [
    | some _ ↦ (b'<', 3)
    | none ↦ elim (after_prefix (lit "gt;") s) [
      | some _ ↦ (b'>', 3)
      | none ↦ elim (after_prefix (lit "quot;") s) [
        | some _ ↦ (b'"', 5)
        | none ↦ elim (after_prefix (lit "#39;") s) [ some _ ↦ (b'\'', 4) | none ↦ (b'&', 0) ]
      ]
    ]
  ]
]

-- The text that a browser shows for the text of a page, after `skip` characters.
unfoldable pub shown_text : (skip : ℕ) → Text → Text
unfolding after_prefix
shown_text skip [] = []
shown_text (suc skip) (c ∷ s) = shown_text skip s
shown_text zero (c ∷ s) =
    let e = entity_at s in if c == b'&' then e.0 ∷ shown_text e.1 s else c ∷ shown_text 0 s

-- No tag and no quote: the text stays in its cell and in its attribute.
abbrev pub IsInert : Text → Type 0
IsInert = All (λ c. (c ≢ b'<') × (c ≢ b'>') × (c ≢ b'"') × (c ≢ b'\''))

entity_shown : (c : ℕ) (s : Text) → shown_text 0 (entity c ++ s) ≡ c ∷ shown_text 0 s
unfolding shown_text after_prefix
entity_shown c s = ground arith

pub shown_text-escape_html : (s : Text) → shown_text 0 (escape_html s) ≡ s
unfolding escape_html shown_text
shown_text-escape_html [] = refl
shown_text-escape_html (c ∷ s) =
    entity_shown c (escape_html s) ∙ ap (◌∷◌ c) (shown_text-escape_html s)

pub escape_html-IsInert : (s : Text) → IsInert (escape_html s)
unfolding escape_html
escape_html-IsInert [] = tt
escape_html-IsInert (c ∷ s) = ground (arith, escape_html-IsInert s)

-- The browser shows of a text that escapeHtml has escaped the text itself, and the escaped text has
-- none of the characters that end an attribute or open or close a tag.
pub escape_html_lem : (s : Text) → (shown_text 0 (escape_html s) ≡ s) × IsInert (escape_html s)
escape_html_lem s = (shown_text-escape_html s, escape_html-IsInert s)
