-- ===== src/Server/Page/Paths.antt =====
-- internal/server/ui_template.go and internal/server/server.go: the path of taskAction is the one that
-- handleTaskByID takes apart.
use worker_lightweight.Base.{
  ◌≡◌, refl, false, [], ◌∷◌, ◌++◌, Text, lit, split, after_prefix, ◌==◌, text_eq, nat_eq, arith,
}
use worker_lightweight.Server.Routes.{path_parts}
use worker_lightweight.Server.Page.Numbers.{IsWord}

split-IsWord : (s : Text) → IsWord s → split b'/' s ≡ s ∷ []
unfolding split
split-IsWord [] h = refl
split-IsWord (c ∷ s) h = ground (arith, split-IsWord s)

split-join : (s rest : Text) → IsWord s → split b'/' (s ++ b'/' ∷ rest) ≡ s ∷ split b'/' rest
unfolding split
split-join [] rest h = refl
split-join (c ∷ s) rest h = ground (arith, split-join s rest)

pub path_parts-id :
    (id : Text) → IsWord id → (id == []) ≡ false → path_parts (lit "/api/tasks/" ++ id) ≡ id ∷ []
unfolding path_parts after_prefix
path_parts-id id word full = rw (split-IsWord id word, full) refl

pub path_parts-action :
    (id action : Text)
    → IsWord id
    → (id == []) ≡ false
    → IsWord action
    → (action == []) ≡ false
    → path_parts (lit "/api/tasks/" ++ (id ++ (lit "/" ++ action))) ≡ id ∷ action ∷ []
unfolding path_parts after_prefix
path_parts-action id action word full word' full' =
    rw (split-join id action word, split-IsWord action word', full, full') refl
