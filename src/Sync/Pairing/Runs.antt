-- ===== src/Sync/Pairing/Runs.antt =====
-- Runs of the pairing of files as bases of one another.
use mathlib.Core.List.{Memᴰ}
use mathlib.Core.List.Memᴰ
use cp.Common.{
  ℕ, ◌<◌, ◌^◌, ◌≡◌, refl, sym, subst, inl, inr, List, [], ◌∷◌, none, some, false, Bytes, codes,
  arith,
}
use cp.Sync.Entry.{symlink}
use cp.Sync.Planner.{SyncTask, create}
use cp.Sync.Pairing.{StemEntry, no_basis, indexed_candidate}
use cp.Sync.Pairing.Nearest.{Sized}
use cp.Sync.Pairing.Index.{register_all}
use cp.Sync.Pairing.Candidate.{IsClosest, indexed_candidate-IsClosest}
use cp.Sync.Pairing.Tasks.{no_pairing, pair_tasks}
use cp.Sync.Pairing.Tasks.Paired.{Waits, entries, pair_tasks-Waits}

abbrev entry_of : Bytes → ℕ → StemEntry
entry_of rel size = record { size = size; rel = rel }

-- The files of the source's own tests
abbrev siblings : List StemEntry
siblings =
    entry_of (codes "a/1.iso") 1000000
    ∷ entry_of (codes "a/2.bin") 1000000
    ∷ entry_of (codes "b/1.iso") 1000000
    ∷ []

sibling-found :
    indexed_candidate (register_all siblings no_basis) (codes "a/1.1.iso") 1100000
    ≡ some (codes "a/1.iso", 1000000)
unfolding indexed_candidate register_all
sibling-found = refl

dotted-found :
    indexed_candidate
      (register_all (entry_of (codes "a/1.1.iso") 1200000 ∷ []) no_basis)
      (codes "a/1.iso")
      1000000
    ≡ some (codes "a/1.1.iso", 1200000)
unfolding indexed_candidate register_all
dotted-found = refl

other_directory-none :
    indexed_candidate (register_all siblings no_basis) (codes "c/1.1.iso") 1100000 ≡ none
unfolding indexed_candidate register_all
other_directory-none = refl

-- Two siblings at one distance: the earlier one in the plan is not the one found.
tie-later :
    indexed_candidate
      (register_all
        (entry_of (codes "a/1.1.1.iso") 1200000 ∷ entry_of (codes "a/1.iso") 1000000 ∷ [])
        no_basis)
      (codes "a/1.1.iso")
      1100000
    ≡ some (codes "a/1.iso", 1000000)
unfolding indexed_candidate register_all
tie-later = refl

Sized-nil : Sized []
Sized-nil o m = absurd (Memᴰ.not-nil m)

Sized-cons : (e : StemEntry) (es : List StemEntry) → e.size < 2 ^ 64 → Sized es → Sized (e ∷ es)
Sized-cons e es h all o m = elim (Memᴰ.cases_cons m) [
  | inl is ↦ subst (λ (x : StemEntry). x.size < 2 ^ 64) (sym is) h
  | inr later ↦ all o later
]

siblings-Sized : Sized siblings
siblings-Sized =
    Sized-cons _ _ (omega arith)
      (Sized-cons _ _ (omega arith) (Sized-cons _ _ (omega arith) Sized-nil))

indexed_candidate-IsClosest_example :
    IsClosest siblings
      (codes "a/1.1.iso")
      1100000
      (indexed_candidate (register_all siblings no_basis) (codes "a/1.1.iso") 1100000)
indexed_candidate-IsClosest_example =
    indexed_candidate-IsClosest siblings (codes "a/1.1.iso") 1100000 (omega arith) (omega arith)
      siblings-Sized

abbrev task_of : Bytes → ℕ → SyncTask
task_of rel size = record {
  relative_path = rel;
  action = create;
  source_size = size;
  is_dir = false;
  link_target = none;
  link_kind = symlink;
  link_to = none;
  special = none;
  source_path = none;
  dereferenced = false;
}

abbrev two_images : List SyncTask
two_images = task_of (codes "a/1.1.iso") 1200000 ∷ task_of (codes "a/1.iso") 1100000 ∷ []

two_images-Sized : Sized (entries two_images)
two_images-Sized = Sized-cons _ _ (omega arith) (Sized-cons _ _ (omega arith) Sized-nil)

second-waits : (pair_tasks two_images no_pairing).deps (codes "a/1.iso") ≡ some (codes "a/1.1.iso")
unfolding pair_tasks
second-waits = refl

pair_tasks-Waits_example :
    Waits two_images (codes "a/1.iso") (codes "a/1.1.iso")
    × Memᴰ (codes "a/1.iso") ((pair_tasks two_images no_pairing).refs (codes "a/1.1.iso"))
pair_tasks-Waits_example =
    pair_tasks-Waits two_images (codes "a/1.iso") (codes "a/1.1.iso") two_images-Sized second-waits
