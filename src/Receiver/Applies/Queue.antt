-- ===== src/Receiver/Applies/Queue.antt =====
-- The applies that are queued while a session runs.
use cp.Common.{
  ◌-◌, ℕ, zero, suc, ◌≤◌, ◌≡◌, refl, ap, ◌∙◌, arith, Bytes, List, [], ◌∷◌, ◌++◌, length, Option,
  none, some, Bool, true, false, bytes_eq, if◌then◌else◌,
}
use cp.Platform.Result.{Result, ok, err}
use cp.Receiver.State.{Host, ApplyState, ApplyOutcome, >>>-eq-ok}
use cp.Receiver.Applies.{
  fold_outcomes, shorten, push_batch, get_task, remove_task, join_optional, join_found, join_basis,
  spawn_at, spawn_apply, handle_delta_recipe,
}
use cp.Receiver.Applies.Count.{
  Tally, nothing, ◌⊕◌, ◌≈◌, batch_tally, queue_tally, task_tally, handles_tally, counted, settled,
  tally_same, fold_outcomes-counted,
}

queue_tally-snoc :
    (queue : List (Result (List ApplyOutcome))) (task : Result (List ApplyOutcome))
    → queue_tally (queue ++ task ∷ []) ≈ queue_tally queue ⊕ batch_tally task
queue_tally-snoc [] task = omega arith
queue_tally-snoc (t ∷ queue) task = omega (arith, queue_tally-snoc queue task)

shorten-counted :
    (excess : ℕ) (queue : List (Result (List ApplyOutcome))) (state : ApplyState)
    → (shorten excess queue state).1 ≡ ok tt
    → (counted (shorten excess queue state).0
          ⊕ queue_tally (shorten excess queue state).0.batch_applies
        ≈ counted state ⊕ queue_tally queue)
      × ((shorten excess queue state).0.applied_this_run ≡ state.applied_this_run)
      × (length (shorten excess queue state).0.batch_applies ≤ length queue - excess)
unfolding shorten
shorten-counted zero [] state h = (omega arith, refl, omega arith)
shorten-counted (suc excess) [] state h = (omega arith, refl, omega arith)
shorten-counted zero (task ∷ queue) state h = (omega arith, refl, omega arith)
shorten-counted (suc excess) (err e ∷ queue) state h = cc
shorten-counted (suc excess) (ok outcomes ∷ queue) state h =
    let (c, same) = fold_outcomes-counted state outcomes in
    let (d, kept, short) = shorten-counted excess queue (fold_outcomes state outcomes) h in
    (omega (arith, c, d), kept ∙ same, omega arith)

-- A batch that is accepted is added to what will be counted, whether or not it pushes the oldest
-- batches out of the queue into the counters, and at most two batches are left in flight.
push_batch-settled :
    (state : ApplyState) (task : Result (List ApplyOutcome))
    → (push_batch state task).1 ≡ ok tt
    → (settled (push_batch state task).0 ≈ settled state ⊕ batch_tally task)
      × (length (push_batch state task).0.batch_applies ≤ 2)
unfolding push_batch
push_batch-settled state task h =
    let queue = state.batch_applies ++ task ∷ [] in
    let (c, same, short) = shorten-counted (length queue - 2) queue state h in
    (omega (arith, c, tally_same same, queue_tally-snoc state.batch_applies task), omega arith)

abbrev pub found_tally : Option (Result ApplyOutcome) → Tally
found_tally none = nothing
found_tally (some task) = task_tally task

-- What leaves the map with a basis
abbrev pub joined_tally : Option Bytes → List (Bytes × Result ApplyOutcome) → Tally
joined_tally none tasks = nothing
joined_tally (some basis) tasks = found_tally (get_task basis tasks)

remove_task-tally :
    (path : Bytes) (tasks : List (Bytes × Result ApplyOutcome))
    → handles_tally (remove_task path tasks) ⊕ joined_tally (some path) tasks ≈ handles_tally tasks
remove_task-tally path [] = omega arith
remove_task-tally path ((p, task) ∷ tasks) =
    let ih = remove_task-tally path tasks in
    elim (bytes_eq p path)
      as (λ (b : Bool).
        handles_tally (if b then tasks else (p, task) ∷ remove_task path tasks)
          ⊕ found_tally (if b then some task else get_task path tasks)
        ≈ task_tally task ⊕ handles_tally tasks) [ true ↦ omega arith | false ↦ omega (arith, ih) ]

join_found-tally :
    (state : ApplyState) (basis : Bytes) (found : Option (Result ApplyOutcome))
    → get_task basis state.applied_this_run ≡ found
    → (join_found state basis found).1 ≡ ok tt
    → settled (join_found state basis found).0 ⊕ found_tally found ≈ settled state
unfolding join_found
join_found-tally state basis none e h = omega arith
join_found-tally state basis (some (err m)) e h = cc
join_found-tally state basis (some (ok outcome)) e h =
    let r = remove_task-tally basis state.applied_this_run in
    let t = found_tally in
    let f = ap (λ (l : Option (Result ApplyOutcome)). (t l).files) e in
    let b = ap (λ (l : Option (Result ApplyOutcome)). (t l).bytes) e in
    let k = ap (λ (l : Option (Result ApplyOutcome)). (t l).skips) e in omega (arith, r, f, b, k)

join_basis-tally :
    (state : ApplyState) (basis_path : Option Bytes)
    → (join_basis state basis_path).1 ≡ ok tt
    → settled (join_basis state basis_path).0 ⊕ joined_tally basis_path state.applied_this_run
      ≈ settled state
unfolding join_basis
join_basis-tally state none h = omega arith
join_basis-tally state (some basis) h =
    join_found-tally state basis (get_task basis state.applied_this_run) refl h

spawn_at-tally :
    (state : ApplyState) (path : Bytes) (dest : Result Bytes) (basis : Result (Option Bytes))
    (task : Result ApplyOutcome)
    → (spawn_at state path dest basis task).1 ≡ ok tt
    → settled (spawn_at state path dest basis task).0
        ⊕ joined_tally (some path) state.applied_this_run
      ≈ settled state ⊕ task_tally task
unfolding spawn_at
spawn_at-tally state path (err e) basis task h = cc
spawn_at-tally state path (ok dest) (err e) task h = cc
spawn_at-tally state path (ok dest) (ok basis) task h =
    omega (arith, remove_task-tally path state.applied_this_run)

settled_same : {s t : ApplyState} → s ≡ t → settled s ≈ settled t
settled_same e = (
  ap (λ (s : ApplyState). (settled s).files) e,
  ap (λ (s : ApplyState). (settled s).bytes) e,
  ap (λ (s : ApplyState). (settled s).skips) e,
)

-- A recipe that is accepted is added to what will be counted; what is taken out is the apply of the
-- basis that it waits for, if that was in flight, and an earlier apply of the same path: the files,
-- the bytes and the number of skipped files of neither will be in the count.
pub handle_delta_recipe-settled :
    (host : Host) (state : ApplyState) (path : Bytes) (basis_path : Option Bytes)
    (task : Result ApplyOutcome)
    → (handle_delta_recipe host state path basis_path task).1 ≡ ok tt
    → settled (handle_delta_recipe host state path basis_path task).0
        ⊕ joined_tally basis_path state.applied_this_run
        ⊕ joined_tally (some path) (join_basis state basis_path).0.applied_this_run
      ≈ settled state ⊕ task_tally task
unfolding handle_delta_recipe spawn_apply
handle_delta_recipe-settled host state path basis_path task h =
    let spawn = λ (s : ApplyState). spawn_apply host s path basis_path task in
    let (first, second, same) = >>>-eq-ok (join_basis state basis_path) spawn tt h in
    let a = join_basis-tally state basis_path first in
    let b =
      spawn_at-tally (join_basis state basis_path).0 path (host.resolve_path path)
        (join_optional host basis_path) task second in
    omega (arith, a, b, settled_same same)
