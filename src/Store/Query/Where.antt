-- ===== src/Store/Query/Where.antt =====
-- internal/store/store.go: the WHERE clause that buildWhere writes.
use worker_lightweight.Base.{
  ◌≡◌, refl, ◌∙◌, ℕ, ◌+◌, true, false, List, [], ◌∷◌, ◌++◌, map, Text, lit, join, length,
  length-append, nat_beq, if◌then◌else◌, arith,
}
use worker_lightweight.Store.Query.{
  ListFilter, Cond, name_like, command_like, type_is, worker_like, status_in, enabled_is, parent_is,
  top_level, text, conditions, cond_sql, cond_args, all_args, build_where,
}

-- How often a byte occurs.
abbrev pub count : ℕ → Text → ℕ
count b [] = 0
count b (c ∷ s) = (if nat_beq c b then 1 else 0) + count b s

count-append : (b : ℕ) (s t : Text) → count b (s ++ t) ≡ count b s + count b t
count-append b [] t = omega arith
count-append b (c ∷ s) t = omega (arith, count-append b s t)

abbrev counts : ℕ → List Text → ℕ
counts b [] = 0
counts b (p ∷ ps) = count b p + counts b ps

-- A separator without the byte adds none.
count-join :
    (b : ℕ) (sep : Text) (ps : List Text) → count b sep ≡ 0 → count b (join sep ps) ≡ counts b ps
unfolding join
count-join b sep [] h = refl
count-join b sep (p ∷ []) h = omega arith
count-join b sep (p ∷ q ∷ ps) h = omega (
  arith,
  count-append b p (sep ++ join sep (q ∷ ps)),
  count-append b sep (join sep (q ∷ ps)),
  count-join b sep (q ∷ ps) h,
)

counts_marks : (ss : List Text) → counts b'?' (map (λ _. lit "?") ss) ≡ length ss
counts_marks [] = refl
counts_marks (s ∷ ss) = omega (arith, counts_marks ss)

length-map_text : (ss : List Text) → length (map text ss) ≡ length ss
length-map_text [] = refl
length-map_text (s ∷ ss) = omega (arith, length-map_text ss)

-- Each condition has a question mark for each of its arguments.
cond_marks : (c : Cond) → count b'?' (cond_sql c) ≡ length (cond_args c)
unfolding cond_sql cond_args
cond_marks (name_like s) = refl
cond_marks (command_like s) = refl
cond_marks (type_is s) = refl
cond_marks (worker_like s) = refl
cond_marks (status_in ss) = omega (
  arith,
  count-append b'?' (lit "status IN (") (join (lit ",") (map (λ _. lit "?") ss) ++ lit ")"),
  count-append b'?' (join (lit ",") (map (λ _. lit "?") ss)) (lit ")"),
  count-join b'?' (lit ",") (map (λ _. lit "?") ss) refl,
  counts_marks ss,
  length-map_text ss,
)
cond_marks (enabled_is true) = refl
cond_marks (enabled_is false) = refl
cond_marks (parent_is n) = refl
cond_marks top_level = refl

conds_marks : (cs : List Cond) → counts b'?' (map cond_sql cs) ≡ length (all_args cs)
conds_marks [] = refl
conds_marks (c ∷ cs) =
    omega (arith, cond_marks c, conds_marks cs, length-append (cond_args c) (all_args cs))

-- For every filter the clause has exactly as many placeholders as there are arguments, whatever
-- text the filter holds: none of it gets into the clause.
pub build_where_placeholders :
    (f : ListFilter) → count b'?' (build_where f).0 ≡ length (build_where f).1
unfolding build_where
build_where_placeholders f =
    count-join b'?' (lit " AND ") (map cond_sql (conditions f)) refl ∙ conds_marks (conditions f)
