-- ===== src/Store/Query.antt =====
-- internal/store/store.go: ListFilter, splitStatuses, buildWhere, List, Count.
pub mod Pages
pub mod Where
use worker_lightweight.Base.{
  ℕ, ◌+◌, ◌-◌, Bool, true, false, not, ◌&&◌, ◌||◌, List, [], ◌∷◌, ◌++◌, map, ℤ, pos, pos_part,
  ltb_ℤ, leb_ℤ, Text, text_beq, lit, split, trim_space, join, select, length, take, drop, ◌==◌,
  int_eq, text_eq, nat_eq, if◌then◌else◌,
}
use worker_lightweight.Model.{Task, success, failed, dead, status_text, type_text}
use worker_lightweight.Store.Db.{M, query}

pub record ListFilter : Type 0 where
  pub name : Text
  pub command : Text
  pub type : Text
  pub status : Text
  pub worker : Text
  pub enabled : Text
  pub parent_id : ℤ

abbrev pub is_empty : Text → Bool
is_empty s = s == []

unfoldable pub split_statuses : Text → List Text
unfolding split trim_space text_beq
split_statuses filter =
    if is_empty filter
    then []
    else select (λ p. not (is_empty p)) (map trim_space (split b',' filter))

-- An argument of a placeholder.
pub data Arg : Type 0 where
  text : Text → Arg
  int : ℤ → Arg

-- One condition of the WHERE clause.
pub data Cond : Type 0 where
  name_like command_like type_is worker_like : Text → Cond
  status_in : List Text → Cond
  enabled_is : Bool → Cond
  parent_is : ℤ → Cond
  top_level : Cond

-- "done" stands for the terminal states.
abbrev pub wanted_statuses : Text → List Text
wanted_statuses s =
    if s == lit "done"
    then status_text success ∷ status_text failed ∷ status_text dead ∷ []
    else split_statuses s

abbrev pub unless_empty : Text → (Text → Cond) → List Cond
unless_empty s c = if is_empty s then [] else c s ∷ []

abbrev pub status_conds : List Text → List Cond
status_conds [] = []
status_conds (s ∷ ss) = status_in (s ∷ ss) ∷ []

abbrev pub enabled_conds : Text → List Cond
enabled_conds e =
    if e == lit "true"
    then enabled_is true ∷ []
    else if e == lit "false"
    then enabled_is false ∷ []
    else []

abbrev pub parent_cond : ℤ → Cond
parent_cond n = if ltb_ℤ (pos 0) n then parent_is n else top_level

-- The conditions in the order in which buildWhere appends them.
unfoldable pub conditions : ListFilter → List Cond
unfolding split_statuses status_text
conditions f =
    unless_empty f.name name_like
    ++ (unless_empty f.command command_like
        ++ (unless_empty f.type type_is
            ++ (status_conds (wanted_statuses f.status)
                ++ (unless_empty f.worker worker_like
                    ++ (enabled_conds f.enabled ++ parent_cond f.parent_id ∷ [])))))

abbrev pub placeholders : List Text → Text
placeholders ss = lit "status IN (" ++ (join (lit ",") (map (λ _. lit "?") ss) ++ lit ")")

-- The text of a condition, and its arguments.
unfoldable pub cond_sql : Cond → Text
unfolding join
cond_sql (name_like s) = lit "name LIKE ?"
cond_sql (command_like s) = lit "command LIKE ?"
cond_sql (type_is s) = lit "type = ?"
cond_sql (worker_like s) = lit "worker_id LIKE ?"
cond_sql (status_in ss) = placeholders ss
cond_sql (enabled_is true) = lit "enabled = 1"
cond_sql (enabled_is false) = lit "enabled = 0"
cond_sql (parent_is n) = lit "parent_id = ?"
cond_sql top_level = lit "parent_id = 0"

abbrev pub pattern_of : Text → Arg
pattern_of s = text (lit "%" ++ (s ++ lit "%"))

unfoldable pub cond_args : Cond → List Arg
cond_args (name_like s) = pattern_of s ∷ []
cond_args (command_like s) = pattern_of s ∷ []
cond_args (type_is s) = text s ∷ []
cond_args (worker_like s) = pattern_of s ∷ []
cond_args (status_in ss) = map text ss
cond_args (enabled_is b) = []
cond_args (parent_is n) = int n ∷ []
cond_args top_level = []

abbrev pub all_args : List Cond → List Arg
all_args [] = []
all_args (c ∷ cs) = cond_args c ++ all_args cs

unfoldable pub build_where : ListFilter → Text × List Arg
unfolding conditions cond_sql cond_args join
build_where f = (join (lit " AND ") (map cond_sql (conditions f)), all_args (conditions f))

abbrev pub member : Text → List Text → Bool
member s [] = false
member s (t ∷ ts) = s == t || member s ts

-- Rows by descending id.
unfoldable pub insert_desc : Task → List Task → List Task
insert_desc t [] = t ∷ []
insert_desc t (u ∷ us) = if leb_ℤ u.id t.id then t ∷ u ∷ us else u ∷ insert_desc t us

unfoldable pub newest_first : List Task → List Task
unfolding insert_desc
newest_first [] = []
newest_first (t ∷ ts) = insert_desc t (newest_first ts)

abbrev pub clamp_limit : ℤ → ℕ
clamp_limit n = if leb_ℤ n (pos 0) || ltb_ℤ (pos 500) n then 100 else pos_part n

-- SQLite's LIKE, with the pattern first.
module _ (like : Text → Text → Bool) where
  -- What a condition says of a row.
  unfoldable pub cond_holds : Cond → Task → Bool
  unfolding status_text type_text
  cond_holds (name_like s) t = like (lit "%" ++ (s ++ lit "%")) t.name
  cond_holds (command_like s) t = like (lit "%" ++ (s ++ lit "%")) t.command
  cond_holds (type_is s) t = type_text t.type == s
  cond_holds (worker_like s) t = like (lit "%" ++ (s ++ lit "%")) t.worker_id
  cond_holds (status_in ss) t = member (status_text t.status) ss
  cond_holds (enabled_is b) t = if b then t.enabled else not t.enabled
  cond_holds (parent_is n) t = t.parent_id == n
  cond_holds top_level t = t.parent_id == pos 0

  abbrev pub all_hold : List Cond → Task → Bool
  all_hold [] t = true
  all_hold (c ∷ cs) t = cond_holds c t && all_hold cs t

  unfoldable pub matches : ListFilter → List Task → List Task
  unfolding conditions cond_holds
  matches f ts = select (all_hold (conditions f)) ts

  unfoldable pub list_tasks : ListFilter → ℤ → ℤ → M (List Task)
  unfolding query matches newest_first
  list_tasks f offset limit =
      query (λ ts. take (clamp_limit limit) (drop (pos_part offset) (newest_first (matches f ts))))

  unfoldable pub count_tasks : ListFilter → M ℕ
  unfolding query matches
  count_tasks f = query (λ ts. length (matches f ts))
