-- ===== src/Commands/Watch/Runs.antt =====
-- Runs of a watch session.
use cp.Common.{◌≡◌, ◌≢◌, refl, List, [], ◌∷◌, some, true, false}
use cp.Commands.Watch.{
  stopped, syncing, Watch, Move, change, close, recv, quiet, sync_ok, sync_err, slept, run, start,
}
use cp.Commands.Watch.Covered.{run-idle}
use cp.Commands.Watch.Settles.{catch_up, settled, run-catch_up}

-- A change during the initial sync, another during the sync for it
abbrev busy : List Move
busy = change ∷ sync_ok ∷ recv ∷ quiet ∷ change ∷ sync_ok ∷ sync_err ∷ slept ∷ []

abbrev resyncing : Watch
resyncing = record {
  phase = syncing;
  pending = 0;
  closed = false;
  unsynced = false;
  covering = true;
}

busy-run : run start busy ≡ some resyncing
unfolding run
busy-run = refl

rest_run : run start (change ∷ sync_ok ∷ recv ∷ quiet ∷ sync_ok ∷ []) ≡ some settled
unfolding run
rest_run = refl

run-idle_example : (settled.unsynced ≡ false) × (settled.covering ≡ false)
run-idle_example =
    run-idle (change ∷ sync_ok ∷ recv ∷ quiet ∷ sync_ok ∷ []) settled rest_run refl refl

syncing-live : resyncing.phase ≢ stopped
syncing-live h = cc h

run-catch_up_example : run resyncing (catch_up syncing 0) ≡ some settled
run-catch_up_example = run-catch_up busy resyncing busy-run syncing-live refl

-- Changes that a drain finds in a closed channel are given up.
abbrev given_up : Watch
given_up = record { phase = stopped; pending = 0; closed = true; unsynced = true; covering = false }

given_up-run :
    run start (sync_ok ∷ change ∷ recv ∷ quiet ∷ change ∷ close ∷ sync_ok ∷ []) ≡ some given_up
unfolding run
given_up-run = refl
