-- ===== src/Sync/Sender/Runs.antt =====
-- Runs of the sender's checks.
use cp.Common.{◌≡◌, ◌↔◌, refl, [], ◌∷◌, true, false, codes}
use cp.Sync.Sender.{is_under_skipped}
use cp.Sync.Sender.Skipped.{Protected, is_under_skipped_iff}

below_run : is_under_skipped (codes "a/b/c") (codes "x" ∷ codes "a/b" ∷ []) ≡ true
unfolding is_under_skipped
below_run = refl

beside_run : is_under_skipped (codes "a/bc") (codes "a/b" ∷ []) ≡ false
unfolding is_under_skipped
beside_run = refl

is_under_skipped_iff_example :
    (is_under_skipped (codes "a/b/c") (codes "a/b" ∷ []) ≡ true)
    ↔ Protected (codes "a/b/c") (codes "a/b" ∷ [])
is_under_skipped_iff_example = is_under_skipped_iff (codes "a/b/c") (codes "a/b" ∷ [])
