-- ===== src/Commands/Watch/Settles.antt =====
-- A watch session of src/commands/watch.rs catches up.
use cp.Common.{
  ℕ, zero, suc, ◌≡◌, ◌≢◌, refl, sym, subst, arith, List, [], ◌∷◌, some, Bool, true, false,
}
use cp.Commands.Watch.{
  Phase, initial_syncing, initial_waiting, idle, debouncing, syncing, backing_off, stopped, Watch,
  Move, recv, quiet, sync_ok, slept, run, start,
}
use cp.Commands.Watch.Covered.{Waiting, IsCovered, OnSome, run-IsCovered, start-IsCovered}

abbrev sync_moves : ℕ → List Move
sync_moves zero = sync_ok ∷ []
sync_moves (suc n) = sync_ok ∷ sync_ok ∷ []

abbrev idle_moves : ℕ → List Move
idle_moves zero = []
idle_moves (suc n) = recv ∷ quiet ∷ sync_moves n

-- What is left to do in a phase with so many changes pending: timers that fire and syncs that succeed
abbrev pub catch_up : Phase → ℕ → List Move
catch_up initial_syncing n = sync_ok ∷ idle_moves n
catch_up initial_waiting n = slept ∷ sync_ok ∷ idle_moves n
catch_up idle n = idle_moves n
catch_up debouncing n = quiet ∷ sync_moves n
catch_up syncing n = sync_moves n
catch_up backing_off n = slept ∷ sync_moves n
catch_up stopped n = []

abbrev at : Phase → ℕ → Bool → Bool → Watch
at p n u c = record { phase = p; pending = n; closed = false; unsynced = u; covering = c }

-- Nothing to do and nothing unsynced
abbrev pub settled : Watch
settled = at idle 0 false false

caught_up :
    (p : Phase) (n : ℕ) (u c : Bool)
    → p ≢ stopped
    → Waiting p (at p n u c)
    → run (at p n u c) (catch_up p n) ≡ some settled
unfolding run
caught_up initial_syncing zero true c h w = absurd (omega (arith, w refl))
caught_up initial_syncing zero false c h w = refl
caught_up initial_syncing (suc zero) u c h w = refl
caught_up initial_syncing (suc (suc n)) u c h w = refl
caught_up initial_waiting zero u c h w = refl
caught_up initial_waiting (suc zero) u c h w = refl
caught_up initial_waiting (suc (suc n)) u c h w = refl
caught_up idle zero true c h w = absurd (omega (arith, w.0 refl))
caught_up idle zero false true h w = cc (w.1)
caught_up idle zero false false h w = refl
caught_up idle (suc zero) u c h w = refl
caught_up idle (suc (suc n)) u c h w = refl
caught_up debouncing zero u c h w = refl
caught_up debouncing (suc n) u c h w = refl
caught_up syncing zero true c h w = absurd (omega (arith, w refl))
caught_up syncing zero false c h w = refl
caught_up syncing (suc n) u c h w = refl
caught_up backing_off zero u c h w = refl
caught_up backing_off (suc n) u c h w = refl
caught_up stopped n u c h w = absurd (h refl)

-- From wherever a watch session is that has not stopped and whose watcher runs, the timers firing and at
-- most three syncs succeeding with no further change bring it to rest with every change synced.
pub run-catch_up :
    (moves : List Move) (s : Watch)
    → run start moves ≡ some s
    → s.phase ≢ stopped
    → s.closed ≡ false
    → run s (catch_up s.phase s.pending) ≡ some settled
run-catch_up moves s e live open_still =
    let covered : OnSome IsCovered (some s) =
      subst (OnSome IsCovered) e (run-IsCovered start moves start-IsCovered) in
    subst (λ b. run (record s { closed = b }) (catch_up s.phase s.pending) ≡ some settled)
      (sym open_still)
      (caught_up s.phase s.pending s.unsynced s.covering live
        (subst (λ b. Waiting s.phase (record s { closed = b })) open_still covered))
