-- ===== src/Server/Auth.antt =====
-- internal/server/server.go: checkToken, authMiddleware, uiAuth, clientIP.
use worker_lightweight.Base.{
  ◌≡◌, ◌≢◌, ℕ, Bool, not, ◌&&◌, ◌||◌, List, [], ◌∷◌, none, some, Text, lit, text_beq, after_prefix,
  split, trim_space, ◌==◌, text_eq, if◌then◌else◌, arith, ◌++◌, ◌⊎◌, inl, inr, refl, sym, ◌∙◌,
  subst, Option-cases, Bool-cases, beq→eq, beq-ne,
}
use worker_lightweight.Server.Types.{Request, Response, State, error}

-- The token that the request gives: the bearer token, or else the X-Token header.
unfoldable pub given_token : Request → Text
unfolding after_prefix
given_token r = elim (after_prefix (lit "Bearer ") (r.header (lit "Authorization"))) [
  | some t ↦ t
  | none ↦ r.header (lit "X-Token")
]

unfoldable pub check_token : Text → Request → Bool
unfolding given_token text_beq
check_token token r = not (given_token r == []) && given_token r == token

abbrev pub write_err : ℕ → Text → Response
write_err status msg = record { status = status; payload = error msg }

abbrev pub Handler : Type 0
Handler = Request → State → Response × State

unfoldable pub auth : Handler → Handler
unfolding check_token
auth handler r s =
    if not (s.token == []) && not (check_token s.token r)
    then (write_err 401 (lit "unauthorized: missing or invalid token"), s)
    else handler r s

unfoldable pub ui_auth : Text → Request → Bool
unfolding check_token
ui_auth token r = token == [] || (check_token token r || r.query (lit "token") == token)

abbrev first_part : List Text → Text
first_part [] = []
first_part (p ∷ ps) = p

unfoldable pub client_ip : Request → Text
unfolding split trim_space text_beq
client_ip r =
    let forwarded = r.header (lit "X-Forwarded-For") in
    if forwarded == []
    then (if r.remote_host == [] then r.remote_addr else r.remote_host)
    else trim_space (first_part (split b',' forwarded))

-- What presents a token: the Authorization header is "Bearer " and the token; or it does not begin
-- with "Bearer ", and the X-Token header is the token.
pub data Presents (token : Text) (r : Request) : Type 0 where
  by_bearer : r.header (lit "Authorization") ≡ lit "Bearer " ++ token → Presents token r
  by_x_token :
      ((rest : Text) → r.header (lit "Authorization") ≢ lit "Bearer " ++ rest)
      → r.header (lit "X-Token") ≡ token
      → Presents token r

after_prefix-some : (p s rest : Text) → after_prefix p s ≡ some rest → s ≡ p ++ rest
unfolding after_prefix
after_prefix-some [] s rest h = cc
after_prefix-some (c ∷ p) [] rest h = cc
after_prefix-some (c ∷ p) (d ∷ s) rest h = ground (arith, after_prefix-some p s rest)

after_prefix-append : (p rest : Text) → after_prefix p (p ++ rest) ≡ some rest
unfolding after_prefix
after_prefix-append [] rest = refl
after_prefix-append (c ∷ p) rest = ground (arith, after_prefix-append p rest)

not_bearer : (s rest : Text) → after_prefix (lit "Bearer ") s ≡ none → s ≢ lit "Bearer " ++ rest
not_bearer s rest e p =
    let found : after_prefix (lit "Bearer ") s ≡ some rest =
      rw p (after_prefix-append (lit "Bearer ") rest) in
    cc

module _ (r : Request) where
  given_bearer :
      (rest : Text) → r.header (lit "Authorization") ≡ lit "Bearer " ++ rest → given_token r ≡ rest
  unfolding given_token after_prefix
  given_bearer rest e = rw e refl

  given_x_token :
      after_prefix (lit "Bearer ") (r.header (lit "Authorization")) ≡ none
      → given_token r ≡ r.header (lit "X-Token")
  unfolding given_token
  given_x_token e = rw e refl

  -- The token that the code finds is the one that the request presents.
  given_token-Presents : Presents (given_token r) r
  given_token-Presents =
      elim (Option-cases (after_prefix (lit "Bearer ") (r.header (lit "Authorization")))) [
        | inl e ↦
            by_x_token (λ rest. not_bearer (r.header (lit "Authorization")) rest e)
              (sym (given_x_token e))
        | inr (t, e) ↦
            let whole = after_prefix-some (lit "Bearer ") (r.header (lit "Authorization")) t e in
            by_bearer (rw (given_bearer t whole) whole)
      ]

  Presents-given : (token : Text) → Presents token r → given_token r ≡ token
  Presents-given token (by_bearer e) = given_bearer token e
  Presents-given token (by_x_token other e) =
      elim (Option-cases (after_prefix (lit "Bearer ") (r.header (lit "Authorization")))) [
        | inl n ↦ given_x_token n ∙ e
        | inr (t, n) ↦
            absurd
              (other t (after_prefix-some (lit "Bearer ") (r.header (lit "Authorization")) t n))
      ]

-- Where a token is configured, authMiddleware is a test of the token that was found.
pub auth-given :
    (handler : Handler) (r : Request) (s : State)
    → s.token ≢ []
    → auth handler r s ≡ (
        if given_token r == s.token
        then handler r s
        else (write_err 401 (lit "unauthorized: missing or invalid token"), s))
unfolding auth check_token
auth-given handler r s configured = ground (
  arith,
  text_eq.beq_iff s.token [],
  text_eq.beq_iff (given_token r) [],
  text_eq.beq_iff (given_token r) s.token,
)

-- Where a token is configured, a request that presents this token (its Authorization header is
-- "Bearer " and the token; or that header does not begin with "Bearer ", and the X-Token header is
-- the token) is answered by the handler, with the handler's effect; any other, also one with a wrong
-- bearer token beside the right X-Token, is answered with 401 and changes nothing, whatever the
-- handler does.
pub auth_lem :
    (handler : Handler) (r : Request) (s : State)
    → s.token ≢ []
    → (Presents s.token r × (auth handler r s ≡ handler r s))
      ⊎ (¬ Presents s.token r
          × (auth handler r s ≡ (write_err 401 (lit "unauthorized: missing or invalid token"), s)))
auth_lem handler r s configured = elim (Bool-cases (given_token r == s.token)) [
  | inl e ↦ inl (
    subst (λ t. Presents t r) (beq→eq (given_token r) s.token e) (given_token-Presents r),
    auth-given handler r s configured ∙ rw e refl,
  )
  | inr e ↦ inr (
    λ p. beq-ne (given_token r) s.token e (Presents-given r s.token p),
    auth-given handler r s configured ∙ rw e refl,
  )
]
