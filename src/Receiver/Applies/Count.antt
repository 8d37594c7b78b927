-- ===== src/Receiver/Applies/Count.antt =====
-- Every apply of a session is counted: what the sender is told at the end.
use cp.Common.{ℕ, ◌+◌, ◌≡◌, refl, ap, ◌∙◌, arith, Bytes, List, [], ◌∷◌, length, length-append}
use cp.Platform.Result.{Result, ok, err}
use cp.Receiver.State.{ApplyState, ApplyOutcome, applied, passed_over, >>>-eq-ok}
use cp.Receiver.Applies.{
  Ack, fold_outcome, fold_outcomes, drain_batches, drain_handles, drain_applies, acknowledge,
  handle_done,
}

-- Files, bytes and skipped files
pub record Tally : Type 0 where
  pub files : ℕ
  pub bytes : ℕ
  pub skips : ℕ

infixl 65 ◌⊕◌
abbrev pub ◌⊕◌ : Tally → Tally → Tally
a ⊕ b = record { files = a.files + b.files; bytes = a.bytes + b.bytes; skips = a.skips + b.skips }

infix 4 ◌≈◌
abbrev pub ◌≈◌ : Tally → Tally → Type 0
a ≈ b = (a.files ≡ b.files) × (a.bytes ≡ b.bytes) × (a.skips ≡ b.skips)

abbrev pub nothing : Tally
nothing = record { files = 0; bytes = 0; skips = 0 }

abbrev pub outcome_tally : ApplyOutcome → Tally
outcome_tally (applied sent parent hash) = record { files = 1; bytes = sent; skips = 0 }
outcome_tally (passed_over path reason) = record { files = 0; bytes = 0; skips = 1 }

abbrev pub outcomes_tally : List ApplyOutcome → Tally
outcomes_tally [] = nothing
outcomes_tally (o ∷ outcomes) = outcome_tally o ⊕ outcomes_tally outcomes

abbrev pub batch_tally : Result (List ApplyOutcome) → Tally
batch_tally (ok outcomes) = outcomes_tally outcomes
batch_tally (err e) = nothing

abbrev pub queue_tally : List (Result (List ApplyOutcome)) → Tally
queue_tally [] = nothing
queue_tally (task ∷ queue) = batch_tally task ⊕ queue_tally queue

abbrev pub task_tally : Result ApplyOutcome → Tally
task_tally (ok outcome) = outcome_tally outcome
task_tally (err e) = nothing

abbrev pub handles_tally : List (Bytes × Result ApplyOutcome) → Tally
handles_tally [] = nothing
handles_tally ((path, task) ∷ tasks) = task_tally task ⊕ handles_tally tasks

-- What a state has counted, and what it will have counted once its applies are folded in
abbrev pub counted : ApplyState → Tally
counted state = record {
  files = state.files_received;
  bytes = state.bytes_transferred;
  skips = length state.skipped;
}

abbrev pub settled : ApplyState → Tally
settled state =
    counted state ⊕ (queue_tally state.batch_applies ⊕ handles_tally state.applied_this_run)

pub tally_same :
    {a b : List (Bytes × Result ApplyOutcome)} → a ≡ b → handles_tally a ≈ handles_tally b
tally_same e =
    let t = handles_tally in
    (
      ap (λ (l : List (Bytes × Result ApplyOutcome)). (t l).files) e,
      ap (λ (l : List (Bytes × Result ApplyOutcome)). (t l).bytes) e,
      ap (λ (l : List (Bytes × Result ApplyOutcome)). (t l).skips) e,
    )

fold_outcome-counted :
    (state : ApplyState) (o : ApplyOutcome)
    → counted (fold_outcome state o) ≈ counted state ⊕ outcome_tally o
unfolding fold_outcome
fold_outcome-counted state (applied sent parent hash) = omega arith
fold_outcome-counted state (passed_over path reason) =
    omega (arith, length-append state.skipped ((path, reason) ∷ []))

fold_outcome-handles :
    (state : ApplyState) (o : ApplyOutcome)
    → (fold_outcome state o).applied_this_run ≡ state.applied_this_run
unfolding fold_outcome
fold_outcome-handles state (applied sent parent hash) = refl
fold_outcome-handles state (passed_over path reason) = refl

pub fold_outcomes-counted :
    (state : ApplyState) (outcomes : List ApplyOutcome)
    → (counted (fold_outcomes state outcomes) ≈ counted state ⊕ outcomes_tally outcomes)
      × ((fold_outcomes state outcomes).applied_this_run ≡ state.applied_this_run)
unfolding fold_outcomes
fold_outcomes-counted state [] = (omega arith, refl)
fold_outcomes-counted state (o ∷ outcomes) =
    let (c, h) = fold_outcomes-counted (fold_outcome state o) outcomes in
    (omega (arith, c, fold_outcome-counted state o), h ∙ fold_outcome-handles state o)

pub drain_batches-counted :
    (queue : List (Result (List ApplyOutcome))) (state : ApplyState)
    → (drain_batches queue state).1 ≡ ok tt
    → (counted (drain_batches queue state).0 ≈ counted state ⊕ queue_tally queue)
      × ((drain_batches queue state).0.applied_this_run ≡ state.applied_this_run)
unfolding drain_batches
drain_batches-counted [] state h = (omega arith, refl)
drain_batches-counted (err e ∷ queue) state h = cc
drain_batches-counted (ok outcomes ∷ queue) state h =
    let (c, k) = fold_outcomes-counted state outcomes in
    let (d, l) = drain_batches-counted queue (fold_outcomes state outcomes) h in
    (omega (arith, c, d), l ∙ k)

drain_handles-counted :
    (handles : List (Bytes × Result ApplyOutcome)) (state : ApplyState)
    → (drain_handles handles state).1 ≡ ok tt
    → counted (drain_handles handles state).0 ≈ counted state ⊕ handles_tally handles
unfolding drain_handles
drain_handles-counted [] state h = omega arith
drain_handles-counted ((path, err e) ∷ handles) state h = cc
drain_handles-counted ((path, ok outcome) ∷ handles) state h = omega (
  arith,
  drain_handles-counted handles (fold_outcome state outcome) h,
  fold_outcome-counted state outcome,
)

drain_applies-counted :
    (state : ApplyState)
    → (drain_applies state).1 ≡ ok tt
    → counted (drain_applies state).0 ≈ settled state
unfolding drain_applies
drain_applies-counted state h =
    let rest =
      λ (s : ApplyState). drain_handles s.applied_this_run (record s { applied_this_run = [] }) in
    let batches = drain_batches state.batch_applies state in
    let (first, second, same) = >>>-eq-ok batches rest tt h in
    let (c, handles) = drain_batches-counted state.batch_applies state first in
    let d =
      drain_handles-counted batches.0.applied_this_run (record batches.0 { applied_this_run = [] })
        second in
    let files = ap (λ (s : ApplyState). s.files_received) same in
    let bytes = ap (λ (s : ApplyState). s.bytes_transferred) same in
    let skips = ap (λ (s : ApplyState). length s.skipped) same in
    omega (arith, c, d, files, bytes, skips, tally_same handles)

-- A session that ends in order is acknowledged with every apply: the files and bytes that were
-- counted and those of each task that was still in flight, batches and recipes alike, and as many
-- skipped files as were reported by then and by those tasks.
pub handle_done-settled :
    (state : ApplyState) (ack : Ack)
    → (handle_done state).1 ≡ ok ack
    → record { files = ack.files; bytes = ack.bytes; skips = length ack.skipped } ≈ settled state
unfolding handle_done
handle_done-settled state ack h =
    let (fine, told, same) = >>>-eq-ok (drain_applies state) acknowledge ack h in
    ground (arith, drain_applies-counted state fine, told)
