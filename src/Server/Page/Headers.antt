-- ===== src/Server/Page/Headers.antt =====
-- internal/server/ui_template.go: the Authorization header of the script's requests at the server.
use worker_lightweight.Base.{
  ◌≡◌, refl, true, [], ◌++◌, some, Text, lit, ◌==◌, text_eq, if◌then◌else◌, Bool-cases, inl, inr,
  beq-ne,
}
use worker_lightweight.Exchange.{all_of, is_visible}
use worker_lightweight.Server.Page.Script.{Browser, IsBrowser}
use worker_lightweight.Server.Page.Browse.{sent_headers}

-- Of a token that is empty or visible ASCII.
abbrev pub header_of : Text → Text → Text
header_of token =
    if token == []
    then (λ key. [])
    else (λ key. if key == lit "Authorization" then lit "Bearer " ++ token else [])

pub sent_headers_lem :
    (js : Browser)
    → IsBrowser js
    → (token : Text) → all_of is_visible token ≡ true
    → sent_headers js token ≡ some (header_of token)
sent_headers_lem js exact token plain = elim (Bool-cases (token == [])) [
  | inl e ↦ rw e refl
  | inr e ↦ rw (e, exact.bearer token plain (beq-ne token [] e)) refl
]
