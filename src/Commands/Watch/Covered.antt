-- ===== src/Commands/Watch/Covered.antt =====
-- No change is forgotten by a watch session of src/commands/watch.rs.
use cp.Common.{
  ℕ, zero, suc, ◌<◌, ◌≡◌, refl, subst, arith, inl, inr, List, [], ◌∷◌, Option, none, some, Bool,
  true, false, Bool-cases, if◌then◌else◌,
}
use cp.Commands.Watch.{
  Phase, initial_syncing, initial_waiting, idle, debouncing, syncing, backing_off, stopped, Watch,
  Move, change, close, recv, quiet, cap, interrupt, sync_ok, sync_err, slept, receive, made, to,
  start_sync, drain, session_step, step, run, start,
}

-- In a phase that would not sync by itself, a change that no sync covers is in the channel.
abbrev pub Waiting : Phase → Watch → Type 0
Waiting idle s = (s.unsynced ≡ true → 0 < s.pending) × (s.covering ≡ false)
Waiting syncing s = s.unsynced ≡ true → 0 < s.pending
Waiting initial_syncing s = s.unsynced ≡ true → 0 < s.pending
Waiting _ s = Unit {0}

abbrev pub IsCovered : Watch → Type 0
IsCovered s = Waiting s.phase s

pub start-IsCovered : IsCovered start
start-IsCovered h = cc h

made_keeps :
    (p : Phase) (s : Watch)
    → Waiting p s
    → Waiting p (record s { pending = suc s.pending; unsynced = true })
made_keeps idle s h = (λ k. omega arith, h.1)
made_keeps syncing s h = λ k. omega arith
made_keeps initial_syncing s h = λ k. omega arith
made_keeps initial_waiting s h = tt
made_keeps debouncing s h = tt
made_keeps backing_off s h = tt
made_keeps stopped s h = tt

shut_keeps : (p : Phase) (s : Watch) → Waiting p s → Waiting p (record s { closed = true })
shut_keeps idle s h = h
shut_keeps syncing s h = h
shut_keeps initial_syncing s h = h
shut_keeps initial_waiting s h = tt
shut_keeps debouncing s h = tt
shut_keeps backing_off s h = tt
shut_keeps stopped s h = tt

abbrev pub OnSome {ℓ κ} : {A : Type ℓ} → (A → Type κ) → Option A → Type κ
OnSome P none = Unit
OnSome P (some a) = P a

OnSome-bind :
    (o : Option Watch) (k : Watch → Option Watch)
    → OnSome IsCovered o
    → ((t : Watch) → IsCovered t → OnSome IsCovered (k t))
    → OnSome IsCovered (elim o [ none ↦ none | some t ↦ k t ])
OnSome-bind none k h g = tt
OnSome-bind (some t) k h g = g t h

if-both {ℓ κ} :
    {A : Type ℓ} (P : A → Type κ) (b : Bool) (x y : A) → P x → P y → P (if b then x else y)
if-both P true x y h k = h
if-both P false x y h k = k

receive-OnSome :
    (P : Watch → Type 0) (got ended : Watch → Watch) (s : Watch)
    → ((n : ℕ) → P (got (record s { pending = n })))
    → P (ended s)
    → OnSome P (receive got ended s)
receive-OnSome P got ended s g e =
    elim s.pending
      as (λ n. OnSome P (elim n [
        | suc k ↦ some (got (record s { pending = k }))
        | zero ↦ if s.closed then some (ended s) else none
      ])) [ suc k ↦ g k | zero ↦ if-both (OnSome P) s.closed (some (ended s)) none e tt ]

start_sync-IsCovered : (s : Watch) → IsCovered (start_sync syncing s)
start_sync-IsCovered s h = cc h

drain-IsCovered : (s : Watch) → Waiting syncing s → s.covering ≡ false → IsCovered (drain s)
drain-IsCovered s h c =
    if-both IsCovered s.closed (record s { phase = stopped; pending = 0 }) _ tt
      (elim s.pending
        as (λ n. IsCovered (elim n [
          | zero ↦ record s { phase = idle }
          | suc k ↦ start_sync syncing (record s { pending = 0 })
        ])) [ zero ↦ (h, c) | suc k ↦ λ u. cc u ])

session_step-IsCovered :
    (p : Phase) (s : Watch) (m : Move) → Waiting p s → OnSome IsCovered (session_step p s m)
session_step-IsCovered initial_syncing s sync_ok h = (h, refl)
session_step-IsCovered initial_waiting s slept h = λ u. cc u
session_step-IsCovered idle s recv h =
    receive-OnSome IsCovered (to debouncing) (to stopped) s (λ n. tt) tt
session_step-IsCovered debouncing s recv h =
    receive-OnSome IsCovered (to debouncing) (start_sync syncing) s (λ n. tt)
      (start_sync-IsCovered s)
session_step-IsCovered debouncing s quiet h = λ u. cc u
session_step-IsCovered debouncing s cap h = λ u. cc u
session_step-IsCovered syncing s sync_ok h = drain-IsCovered (record s { covering = false }) h refl
session_step-IsCovered backing_off s slept h = λ u. cc u
session_step-IsCovered p s m h = tt

step-IsCovered : (s : Watch) (m : Move) → IsCovered s → OnSome IsCovered (step s m)
unfolding step
step-IsCovered s change h =
    if-both (OnSome IsCovered) s.closed none (some (made s)) tt (made_keeps s.phase s h)
step-IsCovered s close h = shut_keeps s.phase s h
step-IsCovered s recv h = session_step-IsCovered s.phase s recv h
step-IsCovered s quiet h = session_step-IsCovered s.phase s quiet h
step-IsCovered s cap h = session_step-IsCovered s.phase s cap h
step-IsCovered s interrupt h = session_step-IsCovered s.phase s interrupt h
step-IsCovered s sync_ok h = session_step-IsCovered s.phase s sync_ok h
step-IsCovered s sync_err h = session_step-IsCovered s.phase s sync_err h
step-IsCovered s slept h = session_step-IsCovered s.phase s slept h

pub run-IsCovered : (s : Watch) (moves : List Move) → IsCovered s → OnSome IsCovered (run s moves)
unfolding run
run-IsCovered s [] h = h
run-IsCovered s (m ∷ moves) h =
    OnSome-bind (step s m) (λ t. run t moves) (step-IsCovered s m h)
      (λ t k. run-IsCovered t moves k)

-- In every run of a watch session: where it waits for a change and its channel is empty, every change
-- that was made has been followed by the start of a sync that succeeded.
pub run-idle :
    (moves : List Move) (s : Watch)
    → run start moves ≡ some s
    → s.phase ≡ idle
    → s.pending ≡ 0
    → (s.unsynced ≡ false) × (s.covering ≡ false)
run-idle moves s e waits empty =
    let covered : OnSome IsCovered (some s) =
      subst (OnSome IsCovered) e (run-IsCovered start moves start-IsCovered) in
    let (held, c) : (s.unsynced ≡ true → 0 < s.pending) × (s.covering ≡ false) =
      subst (λ p. Waiting p s) waits covered in
    (elim (Bool-cases s.unsynced) [ inl u ↦ absurd (omega (arith, held u, empty)) | inr u ↦ u ], c)
