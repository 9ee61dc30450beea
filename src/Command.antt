-- ===== src/Command.antt =====
-- main.go and internal/logger/logger.go: the choice of a mode and what each mode does, as the list of
-- its actions. Package net's parsers and the outcomes of what the modes call are parameters.
pub mod Starts
use worker_lightweight.Base.{
  ◌≡◌, ℕ, Bool, true, false, not, ◌&&◌, ◌||◌, List, [], ◌∷◌, ◌++◌, Option, none, some, ℤ, pos, Text,
  lit, text_beq, trim_space, map, ◌==◌, text_eq, if◌then◌else◌,
}
use worker_lightweight.Server.Lifecycle.{
  Options, Listener, listener, ServeError, start_result, Resource, close_server,
}

pub data Level : Type 0 where
  info debug : Level

-- logger.Init.
unfoldable pub level_of : Text → Level
unfolding text_beq
level_of level = if level == lit "debug" then debug else info

pub data Mode : Type 0 where
  server worker usage : Mode

-- main, by os.Args without the program's name.
unfoldable pub mode_of : List Text → Mode
unfolding text_beq
mode_of [] = usage
mode_of (m ∷ args) =
    if m == lit "server" then server else if m == lit "worker" then worker else usage

pub data Warning : Type 0 where
  without_tls without_token insecure : Warning

pub data Action : Type 0 where
  warned : Warning → Action
  opened_audit : Action
  made : Action
  listened : Listener → Action
  failed_serving : Action
  shut_down : Action
  closed : Resource → Action
  started_pool : Action
  exited : (code : ℕ) → Action

-- How the server's life ends: the listener stops by itself, or a signal comes.
pub data Ending : Type 0 where
  stopped : ServeError → Ending
  signalled : Ending

-- Exactly one of the two TLS flags is set.
abbrev pub half_tls : Options → Bool
half_tls o = if not (o.tls_cert == []) then o.tls_key == [] else not (o.tls_key == [])

-- net.SplitHostPort, and net.ParseIP with IsLoopback: none where there is no host or no address.
module _ (split_host : Text → Option Text) (is_loopback : Text → Option Bool) where
  abbrev public_ip : Option Bool → Bool
  public_ip none = true
  public_ip (some loopback) = not loopback

  abbrev public_host : Option Text → Bool
  public_host none = true
  public_host (some host) =
      let h = trim_space host in if h == [] then true else public_ip (is_loopback h)

  unfoldable pub is_public_addr : Text → Bool
  unfolding text_beq trim_space
  is_public_addr addr = public_host (split_host addr)

  abbrev pub warnings : Options → List Action
  warnings o =
      if is_public_addr o.addr
      then (if o.tls_cert == [] || o.tls_key == [] then warned without_tls ∷ [] else [])
        ++ (if o.token == [] then warned without_token ∷ [] else [])
      else []

  abbrev pub serving : Ending → List Action
  serving signalled = shut_down ∷ []
  serving (stopped e) = elim (start_result e) [ none ↦ [] | some e' ↦ failed_serving ∷ [] ]

  -- From server.New on; `makes` says whether it succeeds. The errors of Close are only logged.
  abbrev pub from_new : Options → (audit makes : Bool) → Ending → List Action
  from_new o audit false e = exited 1 ∷ []
  from_new o audit true e =
      made ∷ listened (listener o) ∷ (serving e ++ map closed (close_server audit false false).0)

  -- From the audit log on; `opens` says whether its file can be opened.
  abbrev pub from_audit : Options → Text → (opens makes : Bool) → Ending → List Action
  from_audit o log opens makes e =
      if log == []
      then from_new o false makes e
      else if opens
      then opened_audit ∷ from_new o true makes e
      else exited 1 ∷ []

  unfoldable pub run_server : Options → Text → (opens makes : Bool) → Ending → List Action
  unfolding is_public_addr listener start_result close_server
  run_server o log opens makes e =
      if half_tls o then exited 1 ∷ [] else warnings o ++ from_audit o log opens makes e

-- runWorker; `makes` says whether NewPool succeeds.
abbrev from_pool : Bool → List Action
from_pool true = started_pool ∷ []
from_pool false = exited 1 ∷ []

unfoldable pub run_worker : (is_insecure makes : Bool) → List Action
run_worker true makes = warned insecure ∷ from_pool makes
run_worker false makes = from_pool makes
