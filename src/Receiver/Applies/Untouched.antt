-- ===== src/Receiver/Applies/Untouched.antt =====
-- What the folding in of applies leaves alone: the disk and the file in flight.
use cp.Common.{ℕ, zero, suc, ◌≡◌, refl, ◌∙◌, Bytes, List, [], ◌∷◌, Option, none, some}
use cp.Platform.Result.{Result, ok, err}
use cp.Receiver.State.{ApplyState, ApplyOutcome, applied, passed_over}
use cp.Receiver.Applies.{
  fold_outcome, fold_outcomes, drain_batches, drain_handles, shorten, get_task, join_found,
  join_basis, spawn_at,
}

-- An apply that is folded in touches neither what is on the disk nor the file in flight.
abbrev pub Untouched : ApplyState → ApplyState → Type 0
Untouched s t = (t.disk ≡ s.disk) × (t.in_flight ≡ s.in_flight)

pub fold_outcome-Untouched : (s : ApplyState) (o : ApplyOutcome) → Untouched s (fold_outcome s o)
unfolding fold_outcome
fold_outcome-Untouched s (applied sent parent hash) = (refl, refl)
fold_outcome-Untouched s (passed_over path reason) = (refl, refl)

pub fold_outcomes-Untouched :
    (s : ApplyState) (os : List ApplyOutcome) → Untouched s (fold_outcomes s os)
unfolding fold_outcomes
fold_outcomes-Untouched s [] = (refl, refl)
fold_outcomes-Untouched s (o ∷ os) =
    let (d, f) = fold_outcomes-Untouched (fold_outcome s o) os in
    let (d', f') = fold_outcome-Untouched s o in (d ∙ d', f ∙ f')

pub shorten-Untouched :
    (n : ℕ) (queue : List (Result (List ApplyOutcome))) (s : ApplyState)
    → Untouched s (shorten n queue s).0
unfolding shorten
shorten-Untouched zero [] s = (refl, refl)
shorten-Untouched (suc n) [] s = (refl, refl)
shorten-Untouched zero (task ∷ queue) s = (refl, refl)
shorten-Untouched (suc n) (err e ∷ queue) s = (refl, refl)
shorten-Untouched (suc n) (ok os ∷ queue) s =
    let (d, f) = shorten-Untouched n queue (fold_outcomes s os) in
    let (d', f') = fold_outcomes-Untouched s os in (d ∙ d', f ∙ f')

pub drain_batches-Untouched :
    (queue : List (Result (List ApplyOutcome))) (s : ApplyState)
    → Untouched s (drain_batches queue s).0
unfolding drain_batches
drain_batches-Untouched [] s = (refl, refl)
drain_batches-Untouched (err e ∷ queue) s = (refl, refl)
drain_batches-Untouched (ok os ∷ queue) s =
    let (d, f) = drain_batches-Untouched queue (fold_outcomes s os) in
    let (d', f') = fold_outcomes-Untouched s os in (d ∙ d', f ∙ f')

pub drain_handles-Untouched :
    (tasks : List (Bytes × Result ApplyOutcome)) (s : ApplyState)
    → Untouched s (drain_handles tasks s).0
unfolding drain_handles
drain_handles-Untouched [] s = (refl, refl)
drain_handles-Untouched ((path, err e) ∷ tasks) s = (refl, refl)
drain_handles-Untouched ((path, ok o) ∷ tasks) s =
    let (d, f) = drain_handles-Untouched tasks (fold_outcome s o) in
    let (d', f') = fold_outcome-Untouched s o in (d ∙ d', f ∙ f')

pub join_found-Untouched :
    (s : ApplyState) (basis : Bytes) (found : Option (Result ApplyOutcome))
    → Untouched s (join_found s basis found).0
unfolding join_found
join_found-Untouched s basis none = (refl, refl)
join_found-Untouched s basis (some (err e)) = (refl, refl)
join_found-Untouched s basis (some (ok o)) = (refl, refl)

pub spawn_at-Untouched :
    (s : ApplyState) (path : Bytes) (dest : Result Bytes) (basis : Result (Option Bytes))
    (task : Result ApplyOutcome)
    → Untouched s (spawn_at s path dest basis task).0
unfolding spawn_at
spawn_at-Untouched s path (err e) basis task = (refl, refl)
spawn_at-Untouched s path (ok dest) (err e) task = (refl, refl)
spawn_at-Untouched s path (ok dest) (ok basis) task = (refl, refl)

pub join_basis-Untouched :
    (s : ApplyState) (basis : Option Bytes) → Untouched s (join_basis s basis).0
unfolding join_basis
join_basis-Untouched s none = (refl, refl)
join_basis-Untouched s (some basis) =
    join_found-Untouched s basis (get_task basis s.applied_this_run)
