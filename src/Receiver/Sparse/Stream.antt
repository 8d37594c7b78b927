-- ===== src/Receiver/Sparse/Stream.antt =====
-- What a sparse writer leaves in its file is the stream of bytes that was written to it.
use cp.Common.{
  ℕ, zero, suc, ◌+◌, ◌-◌, ◌^◌, ◌≤◌, ◌<◌, ◌≡◌, refl, sym, ap, ◌∙◌, subst, arith, inl, inr,
}
use cp.Common.{
  Bytes, [], ◌∷◌, ◌++◌, append_assoc, append-nil, length, length-append, get_or, replicate, Bool,
  true, false, ◌==◌, ltb, leb, if◌then◌else◌, Bool-cases, ==_iff,
}
use cp.Platform.Result.{Result, ok, ◌>>=◌}
use cp.Platform.File.{
  set_len, write_all, seek_current, resize, get_or-overwrite, get_or-append, get_or-replicate,
  get_or-beyond, resize-ext,
}
use cp.Receiver.Sparse.{
  SparseWriter, new, flush_zeros, finish, cut, buffer_zeros, zero_run, byte_run, write_runs, write,
}

-- The file holds the bytes written so far, as far as they are not zeros that it reads as anyway.
pub record Holds (total : ℕ) (enabled : Bool) (logical : Bytes) (w : SparseWriter) : Type 0 where
  pub same : (i : ℕ) → get_or w.inner.content i 0 ≡ get_or logical i 0
  pub reach : w.inner.at + w.zeros_pending ≡ length logical
  pub zeros : (i : ℕ) → w.inner.at ≤ i → get_or logical i 0 ≡ 0
  pub bounded : w.zeros_pending < 4096
  pub plain : enabled ≡ false → w.zeros_pending ≡ 0
  pub switch : w.enabled ≡ enabled
  pub size : w.total ≡ total

length-replicate : (n : ℕ) → length {A = ℕ} (replicate n 0) ≡ n
length-replicate zero = refl
length-replicate (suc n) = omega (arith, length-replicate n)

module _ {total : ℕ} {enabled : Bool} {logical : Bytes} {w : SparseWriter}
    (h : Holds total enabled logical w) where
  pub flush_zeros-Holds :
      Holds total enabled logical (flush_zeros w) × ((flush_zeros w).zeros_pending ≡ 0)
  unfolding flush_zeros
  flush_zeros-Holds = elim (Bool-cases (ltb 0 w.zeros_pending)) [
    | inl some_pending ↦ rw some_pending (
      record {
        same = λ i. ground (
          arith,
          get_or-overwrite w.inner.at (replicate w.zeros_pending 0) w.inner.content i,
          get_or-replicate w.zeros_pending (i - w.inner.at),
          h.same i,
          h.zeros i,
          length-replicate w.zeros_pending,
        );
        reach = omega (arith, h.reach, length-replicate w.zeros_pending);
        zeros = λ i le. h.zeros i (omega arith);
        bounded = omega arith;
        plain = λ e. refl;
        switch = h.switch;
        size = h.size;
      },
      refl,
    )
    | inr none_pending ↦ rw none_pending (h, ground arith)
  ]

  -- Bytes are written where the stream stands, once no zero is pending.
  pub write_all-Holds :
      (bytes : Bytes)
      → w.zeros_pending ≡ 0
      → Holds total enabled (logical ++ bytes) (record w { inner = write_all bytes w.inner })
  unfolding write_all
  write_all-Holds bytes e =
      let at : w.inner.at ≡ length logical = omega (arith, h.reach) in
      record {
        same = λ i. ground (
          arith,
          get_or-overwrite w.inner.at bytes w.inner.content i,
          get_or-append logical bytes i,
          h.same i,
          h.zeros i,
          get_or-beyond logical i,
          get_or-beyond bytes (i - w.inner.at),
          ap (λ (n : ℕ). get_or bytes (i - n) 0) at,
        );
        reach = omega (arith, h.reach, length-append logical bytes);
        zeros = λ i le.
            ground (arith, get_or-append logical bytes i, get_or-beyond bytes (i - length logical));
        bounded = h.bounded;
        plain = h.plain;
        switch = h.switch;
        size = h.size;
      }

  -- A run of zeros is counted, or skipped once the count is long.
  pub buffer_zeros-Holds :
      (n : ℕ)
      → n + 4096 < 2 ^ 63
      → enabled ≡ true
      → (w' : SparseWriter) × (buffer_zeros n w ≡ ok w')
        × Holds total enabled (logical ++ replicate n 0) w'
  unfolding buffer_zeros seek_current
  buffer_zeros-Holds n short on =
      let pending = w.zeros_pending + n in
      let logical' = logical ++ replicate n 0 in
      let same' : (i : ℕ) → get_or logical' i 0 ≡ get_or logical i 0 = λ i. ground (
        arith,
        get_or-append logical (replicate n 0) i,
        get_or-replicate n (i - length logical),
        get_or-beyond logical i,
      ) in
      let reach' : w.inner.at + pending ≡ length logical' =
        omega (arith, h.reach, length-append logical (replicate n 0), length-replicate n) in
      elim (Bool-cases (leb 4096 pending)) [
        | inl long ↦
            let fits : ltb pending (2 ^ 63) ≡ true = ground (arith, h.bounded) in
            (
              record w { inner = seek_current pending w.inner; zeros_pending = 0 },
              rw (long, fits) refl,
              record {
                same = λ i. h.same i ∙ sym (same' i);
                reach = omega (arith, reach');
                zeros = λ i le. same' i ∙ h.zeros i (omega arith);
                bounded = omega arith;
                plain = λ e. refl;
                switch = h.switch;
                size = h.size;
              },
            )
        | inr little ↦ (
          record w { zeros_pending = pending },
          rw little refl,
          record {
            same = λ i. h.same i ∙ sym (same' i);
            reach = reach';
            zeros = λ i le. same' i ∙ h.zeros i le;
            bounded = ground arith;
            plain = λ e. cc;
            switch = h.switch;
            size = h.size;
          },
        )
      ]

zero_run-split : (buf : Bytes) → replicate (zero_run buf).0 0 ++ (zero_run buf).1 ≡ buf
unfolding zero_run
zero_run-split [] = refl
zero_run-split (b ∷ buf) = elim (Bool-cases (b == 0)) [
  | inl zero_byte ↦ rw zero_byte (ground (arith, (==_iff b 0).0 zero_byte, zero_run-split buf))
  | inr other ↦ rw other refl
]

byte_run-split : (buf : Bytes) → (byte_run buf).0 ++ (byte_run buf).1 ≡ buf
unfolding byte_run
byte_run-split [] = refl
byte_run-split (b ∷ buf) = elim (Bool-cases (b == 0)) [
  | inl zero_byte ↦ rw zero_byte refl
  | inr other ↦ rw other (ap (◌∷◌ b) (byte_run-split buf))
]

zero_run_advances :
    (b : ℕ) (buf : Bytes) → (b == 0) ≡ true → length (zero_run (b ∷ buf)).1 ≤ length buf
unfolding zero_run
zero_run_advances b buf e = rw e (
    omega (
      arith,
      ap length (zero_run-split buf),
      length-append (replicate (zero_run buf).0 0) (zero_run buf).1,
    ))

byte_run_advances :
    (b : ℕ) (buf : Bytes) → (b == 0) ≡ false → length (byte_run (b ∷ buf)).1 ≤ length buf
unfolding byte_run
byte_run_advances b buf e =
    rw e (
      omega
        (arith, ap length (byte_run-split buf), length-append (byte_run buf).0 (byte_run buf).1))

write_runs-nil : (fuel : ℕ) (w : SparseWriter) → write_runs fuel [] w ≡ ok w
unfolding write_runs
write_runs-nil zero w = refl
write_runs-nil (suc fuel) w = refl

write_runs-zero :
    (fuel b : ℕ) (buf : Bytes) (w : SparseWriter)
    → (b == 0) ≡ true
    → write_runs (suc fuel) (b ∷ buf) w
      ≡ (buffer_zeros (zero_run (b ∷ buf)).0 w >>= λ w. write_runs fuel (zero_run (b ∷ buf)).1 w)
unfolding write_runs
write_runs-zero fuel b buf w e =
    ap
      (λ (c : Bool).
        if c
        then buffer_zeros (zero_run (b ∷ buf)).0 w
          >>= (λ w. write_runs fuel (zero_run (b ∷ buf)).1 w)
        else write_runs fuel (byte_run (b ∷ buf)).1 (record (flush_zeros w) {
          inner = write_all (byte_run (b ∷ buf)).0 (flush_zeros w).inner;
        }))
      e

write_runs-other :
    (fuel b : ℕ) (buf : Bytes) (w : SparseWriter)
    → (b == 0) ≡ false
    → write_runs (suc fuel) (b ∷ buf) w
      ≡ write_runs fuel (byte_run (b ∷ buf)).1 (record (flush_zeros w) {
        inner = write_all (byte_run (b ∷ buf)).0 (flush_zeros w).inner;
      })
unfolding write_runs
write_runs-other fuel b buf w e =
    ap
      (λ (c : Bool).
        if c
        then buffer_zeros (zero_run (b ∷ buf)).0 w
          >>= (λ w. write_runs fuel (zero_run (b ∷ buf)).1 w)
        else write_runs fuel (byte_run (b ∷ buf)).1 (record (flush_zeros w) {
          inner = write_all (byte_run (b ∷ buf)).0 (flush_zeros w).inner;
        }))
      e

-- Where the fuel covers the buffer the loop ends, and the file holds the buffer behind the rest.
write_runs-Holds :
    {total : ℕ} (fuel : ℕ) (buf logical : Bytes) (w : SparseWriter)
    → Holds total true logical w
    → length buf ≤ fuel
    → length buf + 4096 < 2 ^ 63
    → (w' : SparseWriter) × (write_runs fuel buf w ≡ ok w') × Holds total true (logical ++ buf) w'
write_runs-Holds {total} fuel [] logical w h enough short =
    (w, write_runs-nil fuel w, rw (append-nil logical) h)
write_runs-Holds {total} zero (b ∷ buf) logical w h enough short = absurd (omega arith)
write_runs-Holds {total} (suc fuel) (b ∷ buf) logical w h enough short =
    elim (Bool-cases (b == 0)) [
      | inl zero_byte ↦
          let n = (zero_run (b ∷ buf)).0 in
          let rest = (zero_run (b ∷ buf)).1 in
          let split = zero_run-split (b ∷ buf) in
          let sizes = ap length split in
          let less = zero_run_advances b buf zero_byte in
          let (w1, e1, h1) =
            buffer_zeros-Holds h n
              (omega (arith, sizes, length-append (replicate n 0) rest, length-replicate n)) refl in
          let (w2, e2, h2) =
            write_runs-Holds fuel rest (logical ++ replicate n 0) w1 h1 (omega arith)
              (omega arith) in
          let all =
            append_assoc logical (replicate n 0) rest ∙ ap (λ (t : Bytes). logical ++ t) split in
          (
            w2,
            write_runs-zero fuel b buf w zero_byte
                ∙ ap (λ (r : Result SparseWriter). r >>= λ w. write_runs fuel rest w) e1
                ∙ e2,
            subst (λ (t : Bytes). Holds total true t w2) all h2,
          )
      | inr other ↦
          let run = (byte_run (b ∷ buf)).0 in
          let rest = (byte_run (b ∷ buf)).1 in
          let less = byte_run_advances b buf other in
          let (flushed, none_pending) = flush_zeros-Holds h in
          let (w2, e2, h2) =
            write_runs-Holds fuel rest (logical ++ run)
              (record (flush_zeros w) { inner = write_all run (flush_zeros w).inner })
              (write_all-Holds flushed run none_pending) (omega arith) (omega arith) in
          let all =
            append_assoc logical run rest
            ∙ ap (λ (t : Bytes). logical ++ t) (byte_run-split (b ∷ buf)) in
          (
            w2,
            write_runs-other fuel b buf w other ∙ e2,
            subst (λ (t : Bytes). Holds total true t w2) all h2,
          )
    ]

-- One write, sparse or not, puts its buffer behind what the file holds.
pub write-Holds :
    {total : ℕ} {enabled : Bool} (buf logical : Bytes) (w : SparseWriter)
    → Holds total enabled logical w
    → length buf + 4096 < 2 ^ 63
    → (w' : SparseWriter) × (write buf w ≡ ok w') × Holds total enabled (logical ++ buf) w'
unfolding write
write-Holds {total} {enabled} buf logical w h short =
    let choice = λ (b : Bool).
      if b
      then write_runs (length buf) buf w
      else ok (record w { inner = write_all buf w.inner }) in
    elim (Bool-cases enabled) [
      | inl on ↦
          let (w', e, h') =
            write_runs-Holds (length buf) buf logical w
              (subst (λ (b : Bool). Holds total b logical w) on h) (omega arith) short in
          (
            w',
            ap choice (h.switch ∙ on) ∙ e,
            subst (λ (b : Bool). Holds total b (logical ++ buf) w') (sym on) h',
          )
      | inr off ↦ (
        record w { inner = write_all buf w.inner },
        ap choice (h.switch ∙ off),
        write_all-Holds h buf (h.plain off),
      )
    ]

-- A fresh writer over a file of zeros holds nothing yet.
pub new-Holds :
    (content : Bytes) (total : ℕ) (enabled : Bool)
    → ((i : ℕ) → get_or content i 0 ≡ 0)
    → Holds total enabled [] (new (record { content = content; at = 0 }) total enabled)
unfolding new
new-Holds content total enabled blank = record {
  same = blank;
  reach = refl;
  zeros = λ i le. refl;
  bounded = omega arith;
  plain = λ e. refl;
  switch = refl;
  size = refl;
}

-- The bytes of a finished file: the stream, at the announced length.
pub finish-content :
    {total : ℕ} {enabled : Bool} (logical : Bytes) (w : SparseWriter)
    → Holds total enabled logical w
    → (finish w).inner.content ≡ resize total logical
unfolding finish set_len
finish-content logical w h =
    let (flushed, none_pending) = flush_zeros-Holds h in
    rw flushed.size (resize-ext _ _ logical flushed.same)

pub cut-content :
    {total : ℕ} {enabled : Bool} (size : ℕ) (logical : Bytes) (w : SparseWriter)
    → Holds total enabled logical w
    → (cut size w).inner.content ≡ resize size logical
unfolding cut set_len
cut-content size logical w h = resize-ext size _ logical h.same
