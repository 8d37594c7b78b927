-- ===== src/Receiver/Chunks/Chain.antt =====
-- What the chain of writes of a file in flight comes to: the bytes that have arrived.
use cp.Common.{
  ℕ, zero, suc, leb, Bool-cases, inl, inr, ◌+◌, ◌^◌, ◌<◌, ◌≡◌, refl, ap, ◌∙◌, arith, Bytes, ◌++◌,
  [], Option, none, some, length, length-append, Bool, true, false, if◌then◌else◌, get_or,
}
use cp.Platform.Result.{Result, ok, err, ◌>>=◌}
use cp.Platform.File.{resize}
use cp.Receiver.Sparse.{SparseWriter, new, write}
use cp.Receiver.Sparse.Stream.{Holds, write-Holds, new-Holds}
use cp.Receiver.State.{Host, ReceiverFlags, ChunkWrite, first, after, ChunkedFile}
use cp.Sync.Wire.{FileMeta}
use cp.Receiver.Chunks.{
  hash_more, small_prealloc_max, prepared, open_writer, staged_file, join, joined, run_chain, defer,
  write_chunk,
}

-- The hash covers the bytes, if hashes are wanted.
abbrev pub seen_if : Bool → Bytes → Option Bytes
seen_if verify seen = if verify then some seen else none

abbrev pub pushed : ChunkedFile → Bytes → ChunkedFile
pushed f bytes = record f {
  file = none;
  hasher = none;
  offset = f.offset + length bytes;
  pending_write = some (defer f.pending_write f.file f.hasher bytes);
}

-- One write behind those that came before it
abbrev write_behind :
    Bytes → Option SparseWriter × Option Bytes → Result (Option SparseWriter × Option Bytes)
write_behind bytes (file, hasher) = elim file [
  | none ↦ err "FileChunk for unopenable staged file"
  | some w ↦ write_chunk bytes (w, hasher) >>= λ (w, hasher). ok (some w, hasher)
]

bind_chain :
    (r : Result (SparseWriter × Option Bytes)) (bytes : Bytes)
    → ((r >>= write_chunk bytes) >>= λ (w, hasher). ok (Option.some w, hasher))
      ≡ ((r >>= λ (w, hasher). ok (Option.some w, hasher)) >>= write_behind bytes)
bind_chain (ok (w, hasher)) bytes = refl
bind_chain (err e) bytes = refl

joined-first :
    (file : Option SparseWriter) (hasher : Option Bytes) (bytes : Bytes)
    → (join (first file hasher bytes) >>= λ (w, hasher). ok (Option.some w, hasher))
      ≡ write_behind bytes (file, hasher)
unfolding join
joined-first none hasher bytes = refl
joined-first (some w) hasher bytes = refl

bind_after :
    (chain : ChunkWrite) (bytes : Bytes)
    → (join (after chain bytes) >>= λ (w, hasher). ok (Option.some w, hasher))
      ≡ ((join chain >>= λ (w, hasher). ok (Option.some w, hasher)) >>= write_behind bytes)
unfolding join
bind_after chain bytes = bind_chain (join chain) bytes

-- A pushed chunk is written behind the chain that it joins.
run_chain-defer :
    (pending : Option ChunkWrite) (file : Option SparseWriter) (hasher : Option Bytes)
    (bytes : Bytes)
    → run_chain (some (defer pending file hasher bytes)) none none
      ≡ (run_chain pending file hasher >>= write_behind bytes)
unfolding run_chain defer
run_chain-defer none file hasher bytes = joined-first file hasher bytes
run_chain-defer (some chain) file hasher bytes = bind_after chain bytes

joined-pushed :
    (f : ChunkedFile) (bytes : Bytes) → joined (pushed f bytes) ≡ (joined f >>= write_behind bytes)
unfolding joined
joined-pushed f bytes = run_chain-defer f.pending_write f.file f.hasher bytes

-- The file in flight stands behind the bytes that have arrived.
pub record Arrived (flags : ReceiverFlags) (seen : Bytes) (f : ChunkedFile) : Type 0 where
  pub writer : SparseWriter
  pub runs : joined f ≡ ok (some writer, seen_if flags.verify seen)
  pub holds : Holds f.size flags.sparse seen writer
  pub counted : f.offset ≡ length seen

seen_if-append :
    (verify : Bool) (seen bytes : Bytes)
    → hash_more bytes (seen_if verify seen) ≡ seen_if verify (seen ++ bytes)
seen_if-append true seen bytes = refl
seen_if-append false seen bytes = refl

write_chunk-ok :
    (bytes : Bytes) (w w' : SparseWriter) (hasher : Option Bytes)
    → write bytes w ≡ ok w'
    → write_chunk bytes (w, hasher) ≡ ok (w', hash_more bytes hasher)
unfolding write_chunk
write_chunk-ok bytes w w' hasher e =
    ap (λ (r : Result SparseWriter). r >>= λ w. ok (w, hash_more bytes hasher)) e

pub pushed-Arrived :
    {flags : ReceiverFlags} {seen : Bytes} {f : ChunkedFile} (bytes : Bytes)
    → Arrived flags seen f
    → length bytes + 4096 < 2 ^ 63
    → Arrived flags (seen ++ bytes) (pushed f bytes)
pushed-Arrived {flags} {seen} {f} bytes a short =
    let (w', e, h') = write-Holds bytes seen a.writer a.holds short in
    record {
      writer = w';
      runs =
          joined-pushed f bytes
          ∙ ap (λ (r : Result (Option SparseWriter × Option Bytes)). r >>= write_behind bytes)
              a.runs
          ∙ ap
              (λ (r : Result (SparseWriter × Option Bytes)).
                r >>= λ (w, hasher). ok (Option.some w, hasher))
              (write_chunk-ok bytes a.writer w' (seen_if flags.verify seen) e)
          ∙ ap (λ (hasher : Option Bytes). ok (some w', hasher))
              (seen_if-append flags.verify seen bytes);
      holds = h';
      counted = omega (arith, a.counted, length-append seen bytes);
    }

get_or-blank : (n i : ℕ) → get_or (resize n []) i 0 ≡ 0
unfolding resize
get_or-blank zero i = refl
get_or-blank (suc n) zero = refl
get_or-blank (suc n) (suc i) = get_or-blank n i

get_or-prepared : (size : ℕ) (sparse : Bool) (i : ℕ) → get_or (prepared size sparse) i 0 ≡ 0
unfolding prepared
get_or-prepared size true i = get_or-blank size i
get_or-prepared size false i = elim (Bool-cases (leb size small_prealloc_max)) [
  | inl small ↦ rw small refl
  | inr large ↦ rw large (get_or-blank size i)
]

-- A file that was just started stands behind no byte.
pub staged_file-Arrived :
    (host : Host) (flags : ReceiverFlags) (file_id : ℕ) (path display : Bytes) (size : ℕ)
    (meta : Option FileMeta)
    → host.opens path ≡ true
    → Arrived flags [] (staged_file host flags file_id path display size meta)
unfolding staged_file open_writer joined run_chain
staged_file-Arrived host flags file_id path display size meta opens = record {
  writer = new (record { content = prepared size flags.sparse; at = 0 }) size flags.sparse;
  runs =
      ap
        (λ (b : Bool). ok (
          if b
              then some
                  (new (record { content = prepared size flags.sparse; at = 0 }) size flags.sparse)
              else none,
          seen_if flags.verify [],
        ))
        opens;
  holds =
      new-Holds (prepared size flags.sparse) size flags.sparse (get_or-prepared size flags.sparse);
  counted = refl;
}
