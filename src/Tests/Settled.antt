-- ===== src/Tests/Settled.antt =====
-- internal/store/store.go: the theorems on polls at one time and old databases.
use worker_lightweight.Base.{
  ◌≡◌, refl, [], ◌∷◌, List, Text, lit, false, some, length, ltb, if◌then◌else◌, text_beq,
}
use worker_lightweight.Store.Claim.Exclusive.{Poll, claim_all}
use worker_lightweight.Store.Claim.Progress.{due_count, length-claim_all}
use worker_lightweight.Store.Schema.{Schema, contains, migrate}
use worker_lightweight.Store.Schema.Upgrades.{migrate_old}
use worker_lightweight.Tests.Oldest.{oldest_row, oldest_row-IsOldest}
use worker_lightweight.Tests.Runs.{created, created-IsValid}

abbrev two_polls : List Poll
two_polls =
    record { worker = lit "w1"; now = 60; now' = 61 }
    ∷ record { worker = lit "w2"; now = 60; now' = 62 }
    ∷ []

one_claimed : length (claim_all oldest_row two_polls [] created) ≡ (
    if ltb (length two_polls) (due_count 60 created)
    then length two_polls
    else due_count 60 created)
one_claimed =
    length-claim_all oldest_row oldest_row-IsOldest 60 two_polls created created-IsValid
      (refl, (refl, tt))

abbrev old_columns : List Text
old_columns =
    lit "id" ∷ lit "name" ∷ lit "command" ∷ lit "type" ∷ lit "status" ∷ lit "next_run_at" ∷ []

abbrev old_schema : Schema
old_schema = record { columns = some old_columns; indexes = [] }

no_parent_id : contains (lit "parent_id") old_columns ≡ false
unfolding text_beq
no_parent_id = refl

refuses_old :
    ((migrate [] old_schema).0 ≡ false) × ((migrate [] old_schema).2.columns ≡ some old_columns)
refuses_old = migrate_old old_columns [] old_schema refl no_parent_id refl
