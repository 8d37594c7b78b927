-- ===== src/Receiver/Sparse/Whole.antt =====
-- A file written in any number of buffers.
use cp.Common.{
  ℕ, ◌+◌, ◌^◌, ◌<◌, ◌≡◌, refl, sym, ap, ◌∙◌, subst, Bytes, List, [], ◌∷◌, ◌++◌, append_assoc,
  append-nil, length, get_or, Bool, All, concat,
}
use cp.Platform.Result.{Result, ok, ◌>>=◌}
use cp.Platform.File.{resize}
use cp.Receiver.Sparse.{SparseWriter, new, finish, write}
use cp.Receiver.Sparse.Stream.{Holds, new-Holds, write-Holds, finish-content}

-- A buffer that a sender can send
abbrev pub Short : Bytes → Type 0
Short b = length b + 4096 < 2 ^ 63

pub writes : List Bytes → SparseWriter → Result SparseWriter
writes [] w = ok w
writes (b ∷ bufs) w = write b w >>= λ w. writes bufs w

writes-Holds :
    {total : ℕ} {enabled : Bool} (bufs : List Bytes) (logical : Bytes) (w : SparseWriter)
    → Holds total enabled logical w
    → All Short bufs
    → (w' : SparseWriter) × (writes bufs w ≡ ok w')
      × Holds total enabled (logical ++ concat bufs) w'
unfolding writes
writes-Holds {total} {enabled} [] logical w h short =
    (w, refl, subst (λ (t : Bytes). Holds total enabled t w) (sym (append-nil logical)) h)
writes-Holds {total} {enabled} (b ∷ bufs) logical w h (s, short) =
    let (w1, e1, h1) = write-Holds b logical w h s in
    let (w2, e2, h2) = writes-Holds bufs (logical ++ b) w1 h1 short in
    (
      w2,
      ap (λ (r : Result SparseWriter). r >>= λ w. writes bufs w) e1 ∙ e2,
      subst (λ (t : Bytes). Holds total enabled t w2) (append_assoc logical b (concat bufs)) h2,
    )

-- Whatever the buffers, and whether or not runs of zeros become holes, the writes succeed, and the
-- finished file holds the buffers' bytes in order, cut or filled with zeros to the announced size,
-- if the file held nothing but zeros before and no buffer comes near 2^63 bytes.
pub finish-writes :
    (content : Bytes) (total : ℕ) (enabled : Bool) (bufs : List Bytes)
    → ((i : ℕ) → get_or content i 0 ≡ 0)
    → All Short bufs
    → (writes bufs (new (record { content = content; at = 0 }) total enabled) >>= λ w.
        ok ((finish w).inner.content))
      ≡ ok (resize total (concat bufs))
finish-writes content total enabled bufs blank short =
    let (w, e, h) =
      writes-Holds bufs [] (new (record { content = content; at = 0 }) total enabled)
        (new-Holds content total enabled blank) short in
    ap (λ (r : Result SparseWriter). r >>= λ w. ok ((finish w).inner.content)) e
    ∙ ap (λ (c : Bytes). ok c) (finish-content (concat bufs) w h)
