-- ===== src/Commands/Watch.antt =====
-- The watch session of src/commands/watch.rs (`initial_sync`, `watch_loop`) with `wait_debounce` of
-- src/sync/watcher.rs, as a state machine: a move is one thing that an await gives, in any order that
-- the environment likes. A sync covers the changes that were made before it started.
pub mod Covered
pub mod Settles
mod Runs
use cp.Common.{
  ℕ, zero, suc, List, [], ◌∷◌, Option, none, some, Bool, true, false, ◌||◌, if◌then◌else◌,
}

pub data Phase : Type 0 where
  initial_syncing : Phase
  initial_waiting : Phase
  idle : Phase
  debouncing : Phase
  syncing : Phase
  backing_off : Phase
  stopped : Phase

-- `pending` and `closed` are the channel of changes. `unsynced` and `covering` are read by no test:
-- whether a change was made that no sync has started after, and whether the sync that runs covers one.
pub record Watch : Type 0 where
  pub phase : Phase
  pub pending : ℕ
  pub closed : Bool
  pub unsynced : Bool
  pub covering : Bool

pub data Move : Type 0 where
  change : Move
  close : Move
  recv : Move
  quiet : Move
  cap : Move
  interrupt : Move
  sync_ok : Move
  sync_err : Move
  slept : Move

-- The watcher's side of the channel
abbrev pub made : Watch → Watch
made s = record s { pending = suc s.pending; unsynced = true }

abbrev pub shut : Watch → Watch
shut s = record s { closed = true }

abbrev pub to : Phase → Watch → Watch
to p s = record s { phase = p }

abbrev pub start_sync : Phase → Watch → Watch
start_sync p s = record s { phase = p; covering = s.unsynced; unsynced = false }

-- The sync failed: what it covered is not synced.
abbrev pub failed : Phase → Watch → Watch
failed p s = record s { phase = p; unsynced = s.unsynced || s.covering; covering = false }

-- `recv` on the channel: a change, or the end of it; an open and empty channel waits.
abbrev pub receive : (Watch → Watch) → (Watch → Watch) → Watch → Option Watch
receive got ended s = elim s.pending [
  | suc n ↦ some (got (record s { pending = n }))
  | zero ↦ if s.closed then some (ended s) else none
]

abbrev pub initial_step : Watch → Move → Option Watch
initial_step s sync_ok = some (record s { phase = idle; covering = false })
initial_step s sync_err = some (failed initial_waiting s)
initial_step s _ = none

abbrev pub initial_wait_step : Watch → Move → Option Watch
initial_wait_step s slept = some (start_sync initial_syncing s)
initial_wait_step s interrupt = some (to stopped s)
initial_wait_step s _ = none

abbrev pub idle_step : Watch → Move → Option Watch
idle_step s recv = receive (to debouncing) (to stopped) s
idle_step s interrupt = some (to stopped s)
idle_step s _ = none

-- `wait_debounce`, and what `watch_loop` makes of its outcome
abbrev pub debounce_step : Watch → Move → Option Watch
debounce_step s recv = receive (to debouncing) (start_sync syncing) s
debounce_step s quiet = some (start_sync syncing s)
debounce_step s cap = some (start_sync syncing s)
debounce_step s interrupt = some (to stopped s)
debounce_step s _ = none

-- The drain behind a sync: every pending change is taken; a closed channel ends the loop.
abbrev pub drain : Watch → Watch
drain s = if s.closed then record s { phase = stopped; pending = 0 } else elim s.pending [
  | zero ↦ record s { phase = idle }
  | suc n ↦ start_sync syncing (record s { pending = 0 })
]

abbrev pub sync_step : Watch → Move → Option Watch
sync_step s sync_ok = some (drain (record s { covering = false }))
sync_step s sync_err = some (failed backing_off s)
sync_step s _ = none

abbrev pub backoff_step : Watch → Move → Option Watch
backoff_step s slept = some (start_sync syncing s)
backoff_step s interrupt = some (to stopped s)
backoff_step s _ = none

-- What the session does with a move of its own
abbrev pub session_step : Phase → Watch → Move → Option Watch
session_step initial_syncing s m = initial_step s m
session_step initial_waiting s m = initial_wait_step s m
session_step idle s m = idle_step s m
session_step debouncing s m = debounce_step s m
session_step syncing s m = sync_step s m
session_step backing_off s m = backoff_step s m
session_step stopped s m = none

unfoldable pub step : Watch → Move → Option Watch
step s change = if s.closed then none else some (made s)
step s close = some (shut s)
step s recv = session_step s.phase s recv
step s quiet = session_step s.phase s quiet
step s cap = session_step s.phase s cap
step s interrupt = session_step s.phase s interrupt
step s sync_ok = session_step s.phase s sync_ok
step s sync_err = session_step s.phase s sync_err
step s slept = session_step s.phase s slept

unfoldable pub run : Watch → List Move → Option Watch
unfolding step
run s [] = some s
run s (m ∷ moves) = elim (step s m) [ none ↦ none | some t ↦ run t moves ]

-- The watcher runs before the initial sync, which is to cover the tree as it is.
abbrev pub start : Watch
start = record {
  phase = initial_syncing;
  pending = 0;
  closed = false;
  unsynced = false;
  covering = true;
}
