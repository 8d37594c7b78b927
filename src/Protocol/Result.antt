-- ===== src/Protocol/Result.antt =====
-- src/protocol/error.rs: the result of an operation of the protocol. An error keeps the fixed part
-- of its message.
use Prim.Native.String.{String}

pub data ProtocolResult {ℓ} (A : Type ℓ) : Type ℓ where
  ok : A → ProtocolResult A
  err : String → ProtocolResult A

infixl 5 ◌>>=◌
abbrev pub ◌>>=◌ {ℓ κ} :
    {A : Type ℓ} {B : Type κ} → ProtocolResult A → (A → ProtocolResult B) → ProtocolResult B
ok a >>= f = f a
err e >>= f = err e
