-- ===== src/Sync/Sender.antt =====
-- src/sync/sender.rs: which deletes a skipped source path protects.
pub mod Skipped
mod Runs
use cp.Common.{
  ℕ, zero, suc, List, [], ◌∷◌, ◌++◌, Option, none, some, Bool, true, false, if◌then◌else◌, Bytes,
  bytes_eq, any, length, before_last_slash,
}

-- The `HashSet` of skipped paths
abbrev pub contains : List Bytes → Bytes → Bool
contains skipped path = any (λ s. bytes_eq s path) skipped

-- The loop, on the prefixes that end before a slash
unfoldable pub skipped_loop : ℕ → List Bytes → Bytes → Bool
unfolding bytes_eq before_last_slash
skipped_loop zero skipped cur = false
skipped_loop (suc fuel) skipped cur =
    let rest : Bool = elim (before_last_slash cur) [
      | some front ↦ skipped_loop fuel skipped front
      | none ↦ false
    ] in
    if contains skipped cur then true else rest

unfoldable pub is_under_skipped : Bytes → List Bytes → Bool
unfolding skipped_loop
is_under_skipped rel skipped = skipped_loop (suc (length rel)) skipped rel
