-- ===== src/Store/Schema/Opening.antt =====
-- internal/store/store.go: New, secureDB and Close, over the modes of the files.
use worker_lightweight.Base.{
  ◌≡◌, refl, ◌∙◌, ℕ, Bool, true, false, not, ◌&&◌, ◌||◌, List, [], ◌∷◌, ◌++◌, Option, none, some,
  Text, lit, text_beq, ◌==◌, text_eq, if◌then◌else◌, Bool-cases, inl, inr, arith,
}
use worker_lightweight.Store.Db.{Faults}
use worker_lightweight.Store.Schema.{Schema, Run, migrate}

-- The mode of each path, none where there is no such file.
abbrev pub Modes : Type 0
Modes = Text → Option ℕ

-- 0600 and 0700.
abbrev pub owner_file : ℕ
owner_file = 384

abbrev pub owner_dir : ℕ
owner_dir = 448

-- Whether the system lets the program change the mode of a path.
module _ (works : Text → Bool) where
  abbrev moded : ℕ → Option ℕ → Option ℕ
  moded mode none = none
  moded mode (some old) = some mode

  -- os.Chmod, whose error is ignored; and, since it fails without a file, os.Stat in front of it.
  abbrev pub chmod : Text → ℕ → Modes → Modes
  chmod path mode fs p = if p == path && works p then moded mode (fs p) else fs p

  abbrev pub siblings : Text → List Text
  siblings path = path ∷ (path ++ lit "-wal") ∷ (path ++ lit "-shm") ∷ (path ++ lit "-journal") ∷ []

  -- The loop over the files.
  unfoldable pub chmod_all : List Text → Modes → Modes
  unfolding text_beq
  chmod_all [] fs = fs
  chmod_all (f ∷ files) fs = chmod_all files (chmod f owner_file fs)

  -- `dir` is filepath.Dir of the path.
  unfoldable pub secure_db : Text → Text → Modes → Modes
  unfolding chmod_all text_beq
  secure_db path dir fs =
      let files = chmod_all (siblings path) fs in
      if not (dir == lit ".") && not (dir == lit "/") then chmod dir owner_dir files else files

  abbrev migrated : Text → Text → Modes → Run → Bool × Schema × Modes
  migrated path dir fs (false, faults, s) = (false, s, fs)
  migrated path dir fs (true, faults, s) = (true, s, secure_db path dir fs)

  -- New, from the file's schema: whether it returns a store, and what it leaves. `opens` says whether
  -- sql.Open succeeds.
  unfoldable pub new_store : Bool → Text → Text → Faults → Schema → Modes → Bool × Schema × Modes
  unfolding migrate secure_db
  new_store false path dir faults s fs = (false, s, fs)
  new_store true path dir faults s fs = migrated path dir fs (migrate faults s)

  abbrev among : Text → List Text → Bool
  among p [] = false
  among p (f ∷ files) = p == f || among p files

  chmod_all_lem :
      (files : List Text) (fs : Modes) (p : Text)
      → chmod_all files fs p ≡ (if among p files && works p then moded owner_file (fs p) else fs p)
  unfolding chmod_all
  chmod_all_lem [] fs p = refl
  chmod_all_lem (f ∷ files) fs p =
      chmod_all_lem files (chmod f owner_file fs) p ∙ go (p == f) (among p files) (works p) (fs p)
    where
      go :
          (a b w : Bool) (m : Option ℕ)
          → (if b && w
              then moded owner_file (if a && w then moded owner_file m else m)
              else if a && w
              then moded owner_file m
              else m)
            ≡ (if (a || b) && w then moded owner_file m else m)
      go a b false m = ground arith
      go false b true m = refl
      go true false true m = refl
      go true true true none = refl
      go true true true (some mode) = refl

  -- Whether the directory is one that secureDB touches.
  abbrev pub own_dir : Text → Bool
  own_dir dir = not (dir == lit ".") && not (dir == lit "/")

  -- Whatever files there are and whatever modes the system lets the program change: the directory of
  -- the database, unless it is `.` or `/`, becomes its owner's alone; so do the database and its three
  -- siblings; a path whose mode cannot be changed, and every other path, keeps its mode; and no file
  -- appears or goes.
  pub secure_db_lem :
      (path dir : Text) (fs : Modes) (p : Text)
      → secure_db path dir fs p ≡ (
          if own_dir dir && (p == dir && works p)
          then moded owner_dir (fs p)
          else if among p (siblings path) && works p
          then moded owner_file (fs p)
          else fs p)
  unfolding secure_db
  secure_db_lem path dir fs p = elim (Bool-cases (own_dir dir)) [
    | inr e ↦ rw e (chmod_all_lem (siblings path) fs p)
    | inl e ↦
        rw (e, chmod_all_lem (siblings path) fs p)
          (go (p == dir) (among p (siblings path)) (works p) (fs p))
  ]
    where
      go :
          (a b w : Bool) (m : Option ℕ)
          → (if a && w
              then moded owner_dir (if b && w then moded owner_file m else m)
              else if b && w
              then moded owner_file m
              else m)
            ≡ (if a && w then moded owner_dir m else if b && w then moded owner_file m else m)
      go a b false m = ground arith
      go false b true m = refl
      go true false true m = refl
      go true true true none = refl
      go true true true (some mode) = refl
