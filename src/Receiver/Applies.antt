-- ===== src/Receiver/Applies.antt =====
-- src/sync/receiver.rs: the applies in flight and the end of a session. The result of an apply is a
-- parameter; the order in which finished applies are folded in is that of the queues.
pub mod Count
pub mod Queue
pub mod Untouched
use cp.Common.{
  ◌-◌, bytes_eq, ℕ, zero, suc, ◌+◌, Bytes, List, [], ◌∷◌, ◌++◌, Option, none, some, Bool, length,
  ltb, if◌then◌else◌,
}
use cp.Platform.Result.{Result, ok, err, ◌>>=◌}
use cp.Receiver.State.{Host, ApplyState, ApplyOutcome, applied, passed_over, ◌>>>◌}
use Prim.Native.String.{String}

abbrev pub batch_apply_slots : ℕ
batch_apply_slots = 2

-- What the sender is told at the end
pub record Ack : Type 0 where
  pub files : ℕ
  pub bytes : ℕ
  pub skipped : List (Bytes × String)
  pub hashes : List (Bytes × Bytes)

abbrev add_hash : Option (Bytes × Bytes) → List (Bytes × Bytes) → List (Bytes × Bytes)
add_hash none hashes = hashes
add_hash (some hash) hashes = hash ∷ hashes

unfoldable pub fold_outcome : ApplyState → ApplyOutcome → ApplyState
fold_outcome state (applied sent parent hash) = record state {
  bytes_transferred = state.bytes_transferred + sent;
  files_received = state.files_received + 1;
  renamed_dirs = parent ∷ state.renamed_dirs;
  hashes = add_hash hash state.hashes;
}
fold_outcome state (passed_over path reason) = record state {
  skipped = state.skipped ++ (path, reason) ∷ [];
}

unfoldable pub fold_outcomes : ApplyState → List ApplyOutcome → ApplyState
unfolding fold_outcome
fold_outcomes state [] = state
fold_outcomes state (o ∷ outcomes) = fold_outcomes (fold_outcome state o) outcomes

-- The oldest batches, until the queue is empty or a task has failed
unfoldable pub drain_batches :
    List (Result (List ApplyOutcome)) → ApplyState → ApplyState × Result (Unit {0})
unfolding fold_outcomes
drain_batches [] state = (record state { batch_applies = [] }, ok tt)
drain_batches (err e ∷ queue) state = (record state { batch_applies = queue }, err e)
drain_batches (ok outcomes ∷ queue) state = drain_batches queue (fold_outcomes state outcomes)

unfoldable pub drain_handles :
    List (Bytes × Result ApplyOutcome) → ApplyState → ApplyState × Result (Unit {0})
unfolding fold_outcome
drain_handles [] state = (state, ok tt)
drain_handles ((path, err e) ∷ handles) state = (state, err e)
drain_handles ((path, ok outcome) ∷ handles) state =
    drain_handles handles (fold_outcome state outcome)

unfoldable pub drain_applies : ApplyState → ApplyState × Result (Unit {0})
unfolding drain_batches drain_handles
drain_applies state = drain_batches state.batch_applies state >>> λ state.
    drain_handles state.applied_this_run (record state { applied_this_run = [] })

-- The queue of batches after a push, the oldest folded in while it is too long
unfoldable pub shorten :
    ℕ → List (Result (List ApplyOutcome)) → ApplyState → ApplyState × Result (Unit {0})
unfolding fold_outcomes
shorten fuel [] state = (record state { batch_applies = [] }, ok tt)
shorten zero (task ∷ queue) state = (record state { batch_applies = task ∷ queue }, ok tt)
shorten (suc excess) (err e ∷ queue) state = (record state { batch_applies = queue }, err e)
shorten (suc excess) (ok outcomes ∷ queue) state =
    shorten excess queue (fold_outcomes state outcomes)

unfoldable pub push_batch : ApplyState → Result (List ApplyOutcome) → ApplyState × Result (Unit {0})
unfolding shorten
push_batch state task =
    let queue = state.batch_applies ++ task ∷ [] in
    shorten (length queue - batch_apply_slots) queue state

abbrev pub get_task : Bytes → List (Bytes × Result ApplyOutcome) → Option (Result ApplyOutcome)
get_task path [] = none
get_task path ((p, task) ∷ tasks) = if bytes_eq p path then some task else get_task path tasks

-- The map has a path once.
abbrev pub remove_task :
    Bytes → List (Bytes × Result ApplyOutcome) → List (Bytes × Result ApplyOutcome)
remove_task path [] = []
remove_task path ((p, task) ∷ tasks) =
    if bytes_eq p path then tasks else (p, task) ∷ remove_task path tasks

-- The apply of a basis is waited for, and leaves the map.
unfoldable pub join_found :
    ApplyState → Bytes → Option (Result ApplyOutcome) → ApplyState × Result (Unit {0})
join_found state basis none = (state, ok tt)
join_found state basis (some (err e)) =
    (record state { applied_this_run = remove_task basis state.applied_this_run }, err e)
join_found state basis (some (ok outcome)) =
    (record state { applied_this_run = remove_task basis state.applied_this_run }, ok tt)

unfoldable pub join_basis : ApplyState → Option Bytes → ApplyState × Result (Unit {0})
unfolding join_found
join_basis state none = (state, ok tt)
join_basis state (some basis) = join_found state basis (get_task basis state.applied_this_run)

abbrev pub join_optional : Host → Option Bytes → Result (Option Bytes)
join_optional host none = ok none
join_optional host (some basis) = host.resolve_path basis >>= λ path. ok (some path)

unfoldable pub spawn_at :
    ApplyState
    → Bytes
    → Result Bytes
    → Result (Option Bytes)
    → Result ApplyOutcome
    → ApplyState × Result (Unit {0})
spawn_at state file_path (err e) basis task = (state, err e)
spawn_at state file_path (ok path) (err e) task = (state, err e)
spawn_at state file_path (ok path) (ok basis) task = (
  record state {
    applied_this_run = (file_path, task) ∷ remove_task file_path state.applied_this_run;
  },
  ok tt,
)

unfoldable pub spawn_apply :
    Host → ApplyState → Bytes → Option Bytes → Result ApplyOutcome → ApplyState × Result (Unit {0})
unfolding spawn_at
spawn_apply host state file_path basis_path task =
    spawn_at state file_path (host.resolve_path file_path) (join_optional host basis_path) task

unfoldable pub handle_delta_recipe :
    Host → ApplyState → Bytes → Option Bytes → Result ApplyOutcome → ApplyState × Result (Unit {0})
unfolding join_basis spawn_apply
handle_delta_recipe host state file_path basis_path task =
    join_basis state basis_path >>> λ state. spawn_apply host state file_path basis_path task

-- The acknowledgement takes the hashes.
abbrev pub acknowledge : ApplyState → ApplyState × Result Ack
acknowledge state = (
  record state { hashes = [] },
  ok (record {
    files = state.files_received;
    bytes = state.bytes_transferred;
    skipped = state.skipped;
    hashes = state.hashes;
  }),
)

unfoldable pub handle_done : ApplyState → ApplyState × Result Ack
unfolding drain_applies
handle_done state = drain_applies state >>> acknowledge
