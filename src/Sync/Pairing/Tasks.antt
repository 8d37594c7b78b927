-- ===== src/Sync/Pairing/Tasks.antt =====
-- src/sync/sender.rs, the loop of `apply_plan` that pairs the files of a plan before anything is sent.
-- A channel for a signature is named by the file that waits at its end; a Unix path is its own wire
-- form.
pub mod Paired
use cp.Common.{
  ℕ, List, [], ◌∷◌, ◌++◌, Option, none, some, Bool, true, false, ◌&&◌, ◌||◌, leb, is_some,
  if◌then◌else◌, Bytes, bytes_eq,
}
use cp.Sync.Strategy.{TransferStrategy, copy, delta, determine_strategy}
use cp.Sync.Planner.{SyncTask, SyncAction, update}
use cp.Sync.Pairing.{BasisIndex, no_basis, cross_basis_min, register_basis_entry, indexed_candidate}

-- The channels of a reference, the reference of a dependent, and the index
pub record Pairing : Type 0 where
  pub refs : Bytes → List Bytes
  pub deps : Bytes → Option Bytes
  pub index : BasisIndex

abbrev pub no_pairing : Pairing
no_pairing = record { refs = λ r. []; deps = λ r. none; index = no_basis }

abbrev pub is_copy : TransferStrategy → Bool
is_copy copy = true
is_copy delta = false

abbrev pub is_update : SyncAction → Bool
is_update update = true
is_update _ = false

-- A directory, a link or a special file has no content to pair.
abbrev pub is_contentless : SyncTask → Bool
is_contentless task =
    task.is_dir || is_some task.link_target || is_some task.link_to || is_some task.special

unfoldable pub candidate_of : SyncTask → BasisIndex → Option (Bytes × ℕ)
unfolding indexed_candidate
candidate_of task index =
    if is_copy (determine_strategy task.source_size (is_update task.action))
      && leb cross_basis_min task.source_size
    then indexed_candidate index task.relative_path task.source_size
    else none

abbrev pub wait_for : Bytes → Option (Bytes × ℕ) → Pairing → Pairing
wait_for rel none s = s
wait_for rel (some (ref_rel, ref_size)) s = record s {
  refs = λ r. if bytes_eq ref_rel r then s.refs r ++ (rel ∷ []) else s.refs r;
  deps = λ r. if bytes_eq rel r then some ref_rel else s.deps r;
}

unfoldable pub register : SyncTask → Pairing → Pairing
unfolding register_basis_entry
register task s = record s {
  index = register_basis_entry task.relative_path task.source_size s.index;
}

unfoldable pub pair_task : SyncTask → Pairing → Pairing
unfolding candidate_of register
pair_task task s =
    if is_contentless task
    then s
    else register task (wait_for task.relative_path (candidate_of task s.index) s)

unfoldable pub pair_tasks : List SyncTask → Pairing → Pairing
unfolding pair_task
pair_tasks [] s = s
pair_tasks (task ∷ tasks) s = pair_tasks tasks (pair_task task s)
