-- ===== src/Delta/Error.antt =====
-- src/delta/error.rs, and the result of a computation that may also panic.
-- A message keeps its fixed text; the text of the underlying I/O error is left out.
use cp.Common.{ℕ, Bytes}
use Prim.Native.String.{String}

pub data DeltaError : Type 0 where
  chunking : String → DeltaError
  invalid_copy_bounds : ℕ → ℕ → ℕ → DeltaError
  checksum_mismatch : Bytes → Bytes → DeltaError
  patch : String → DeltaError
  literal_budget_exceeded : ℕ → DeltaError

-- `panic` is a slice or an index out of range; `stuck` is no behaviour of the program: a loop of
-- the model ran out of fuel.
pub data DeltaResult {ℓ} (A : Type ℓ) : Type ℓ where
  ok : A → DeltaResult A
  err : DeltaError → DeltaResult A
  panic : DeltaResult A
  stuck : DeltaResult A

infixl 5 ◌>>=◌
abbrev pub ◌>>=◌ {ℓ κ} :
    {A : Type ℓ} {B : Type κ} → DeltaResult A → (A → DeltaResult B) → DeltaResult B
ok a >>= f = f a
err e >>= f = err e
panic >>= f = panic
stuck >>= f = stuck

-- The result is a value of which `P` holds or an error of which `Q` holds: no panic, and no loop
-- of the model out of fuel.
abbrev pub Ends {ℓ} : {A : Type ℓ} → (A → Type 0) → (DeltaError → Type 0) → DeltaResult A → Type 0
Ends P Q (ok a) = P a
Ends P Q (err e) = Q e
Ends P Q panic = ⊥
Ends P Q stuck = ⊥

-- What follows a computation that ends, in the two ways that a chain is written.
pub then-Ends {ℓ κ} :
    {A : Type ℓ} {B : Type κ}
    → (P : A → Type 0) (P' : B → Type 0) (Q Q' : DeltaError → Type 0) (f : A → DeltaResult B)
      (r : DeltaResult A)
    → ((e : DeltaError) → Q e → Q' e)
    → ((a : A) → P a → Ends P' Q' (f a))
    → Ends P Q r
    → Ends P' Q' (r >>= f)
then-Ends P P' Q Q' f (ok a) q k h = k a h
then-Ends P P' Q Q' f (err e) q k h = q e h
then-Ends P P' Q Q' f panic q k h = absurd h
then-Ends P P' Q Q' f stuck q k h = absurd h

pub match-Ends {ℓ κ} :
    {A : Type ℓ} {B : Type κ}
    → (P : A → Type 0) (P' : B → Type 0) (Q Q' : DeltaError → Type 0) (f : A → DeltaResult B)
      (r : DeltaResult A)
    → ((e : DeltaError) → Q e → Q' e)
    → ((a : A) → P a → Ends P' Q' (f a))
    → Ends P Q r
    → Ends P' Q' (elim r [ err e ↦ err e | panic ↦ panic | stuck ↦ stuck | ok a ↦ f a ])
match-Ends P P' Q Q' f (ok a) q k h = k a h
match-Ends P P' Q Q' f (err e) q k h = q e h
match-Ends P P' Q Q' f panic q k h = absurd h
match-Ends P P' Q Q' f stuck q k h = absurd h
