-- ===== src/Platform/Staging/Runs.antt =====
-- Runs of the staged commit.
use cp.Common.{
  ℕ, ◌≡◌, ◌≢◌, refl, ◌+◌, ◌<◌, arith, List, [], ◌∷◌, none, some, Bool, true, false, bytes_eq, codes,
}
use cp.Platform.Staging.{file, Entries, Naming, StagedFile, update, commit, backup_of, sibling}
use cp.Platform.Staging.Rules.{disk, Post}
use cp.Platform.Staging.Commit.{Committed, commit-Committed}

abbrev names : Naming
names = record { decimal = λ n. codes "7"; pid = 7 }

abbrev staged : StagedFile
staged = record { final_path = codes "a"; staged_path = codes ".a.cp2.7.7.tmp"; committed = false }

abbrev start : Entries
start =
    update (update (λ name. none) (codes "a") (some (file (1 ∷ [])))) (codes ".a.cp2.7.7.tmp")
      (some (file (2 ∷ [])))

staged-ne-final : staged.staged_path ≢ staged.final_path
staged-ne-final h = cc h

staged-ne-backup : staged.staged_path ≢ backup_of staged.final_path
staged-ne-backup h = cc h

start-staged : start staged.staged_path ≡ some (file (2 ∷ []))
unfolding update bytes_eq
start-staged = refl

room :
    (c : ℕ)
    → (i : ℕ) × (i < 1)
      × (start (sibling names staged.final_path (some (codes "backup")) (c + i)) ≡ none)
unfolding update bytes_eq
room c = (0, omega arith, refl)

commit-Committed_example :
    Post (commit names 1 staged true true) start (Committed staged (2 ∷ []) true start)
commit-Committed_example =
    commit-Committed names 1 staged (2 ∷ []) true true start refl staged-ne-final staged-ne-backup
      start-staged room

-- With a backup, a refused rename leaves no file at the destination.
abbrev refused : List Bool
refused = false ∷ false ∷ false ∷ true ∷ []

gone_run : (commit names 1 staged false true (disk start refused 0)).1.entries (codes "a") ≡ none
unfolding commit update bytes_eq
gone_run = refl
