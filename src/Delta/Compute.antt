-- ===== src/Delta/Compute.antt =====
-- src/delta/compute.rs: the two engines that make a delta. `hash` is BLAKE3 of a byte string; a
-- hasher is the bytes that it was fed. The scan buffer is kept as its unconsumed part, `src[p..n]`:
-- the compaction only moves bytes.
pub mod Sound
pub mod Whole
pub mod Engines
pub mod Offline
use cp.Common.{ℕ, zero, suc, ◌+◌, ◌*◌, ◌-◌, ◌%◌, Bytes, List, [], ◌∷◌, ◌++◌, Option, none, some}
use cp.Common.{
  length, take, drop, get_elem?, Bool, true, false, not, ◌&&◌, ltb, ◌==◌, if◌then◌else◌,
}
use cp.Delta.Error.{DeltaResult, ok, err, panic, stuck, chunking, literal_budget_exceeded, ◌>>=◌}
use cp.Delta.Ops.{Delta, new, push_copy, push_literal}
use cp.Delta.Reader.{Reader, content, read_bound, read, fill}
use cp.Delta.Rollsum.{weak_init, weak_value, bucket_traditional}
use cp.Delta.Scan.{Scanned, scan_region, is_nil}
use cp.Delta.Signature.{ChunkSignature, Signature, SignatureTable, from_signature, find}
use cp.Delta.Table.{Index, build_index, tail_first, u64_max, probe_bucket}
use mathlib.Core.Option

abbrev pub rollsum_buf : ℕ
rollsum_buf = 16 * 1024 * 1024

-- A hasher that is there is fed.
abbrev pub feed : Option Bytes → Bytes → Option Bytes
feed none bytes = none
feed (some fed) bytes = some (fed ++ bytes)

-- `verify.then(Hasher::new)`
abbrev pub new_hasher : Bool → Option Bytes
new_hasher true = some []
new_hasher false = none

pub record Work : Type 0 where
  pub reader : Reader
  pub pending : Bytes
  pub eof : Bool
  pub hasher : Option Bytes
  pub source_size : ℕ
  pub literal : Bytes
  pub literal_bytes : ℕ
  pub delta : Delta

module _ (hash : Bytes → Bytes) where
  abbrev pub finalize : Option Bytes → Option Bytes
  finalize none = none
  finalize (some fed) = some (hash fed)

  module _ (buf_size max_literal : ℕ) where
    pub literal_loop : ℕ → Reader → Option Bytes → ℕ → Delta → DeltaResult Delta
    literal_loop zero r hasher literal_bytes delta = stuck
    literal_loop (suc fuel) r hasher literal_bytes delta = elim (read buf_size r) [
      | err e ↦ err e
      | panic ↦ panic
      | stuck ↦ stuck
      | ok ([], r') ↦ ok (record delta { source_size = literal_bytes; checksum = finalize hasher })
      | ok (b ∷ bytes, r') ↦ elim (ltb max_literal (literal_bytes + length (b ∷ bytes))) [
        | true ↦ err (literal_budget_exceeded max_literal)
        | false ↦
            literal_loop fuel r' (feed hasher (b ∷ bytes)) (literal_bytes + length (b ∷ bytes))
              (push_literal (b ∷ bytes) delta)
      ]
    ]

  unfoldable pub stream_all_literal : Reader → ℕ → ℕ → ℕ → Bool → DeltaResult Delta
  unfolding literal_loop
  stream_all_literal source buf_size dest_size max_literal verify =
      literal_loop buf_size max_literal (read_bound source) source (new_hasher verify) 0
        (new 0 dest_size)

  module _ (block : ℕ) where
    -- `while n - p < block && !eof`: each round but the last adds a byte.
    pub refill : ℕ → Work → DeltaResult Work
    refill zero w = if ltb (length w.pending) block && not w.eof then stuck else ok w
    refill (suc fuel) w = elim (ltb (length w.pending) block && not w.eof) [
      | false ↦ ok w
      | true ↦ elim (fill rollsum_buf rollsum_buf w.reader) [
        | err e ↦ err e
        | panic ↦ panic
        | stuck ↦ stuck
        | ok (bytes, r) ↦ refill fuel (record w {
          reader = r;
          pending = w.pending ++ bytes;
          eof = is_nil bytes;
          hasher = feed w.hasher bytes;
        })
      ]
    ]

    module _ (max_literal : ℕ) (chunks : List ChunkSignature) (x : Index) where
      -- A full window is there: flush the pending literal run and scan the buffered region.
      pub scan_buffered : Work → DeltaResult Work
      scan_buffered w = do
        s ← scan_region block max_literal hash chunks x w.pending (push_literal w.literal w.delta)
        ok (record w {
          pending = drop s.consumed w.pending;
          literal = s.literal;
          literal_bytes = w.literal_bytes + s.literal_bytes;
          source_size = w.source_size + (s.matched + s.literal_bytes);
          delta = s.delta;
        })

      pub main_loop : ℕ → Work → DeltaResult Work
      main_loop zero w = stuck
      main_loop (suc fuel) w = elim (refill (block + 1) w) [
        | err e ↦ err e
        | panic ↦ panic
        | stuck ↦ stuck
        | ok w' ↦ elim (ltb (length w'.pending) block) [
          | true ↦ ok w'
          | false ↦ elim (scan_buffered w') [
            | err e ↦ err e
            | panic ↦ panic
            | stuck ↦ stuck
            | ok w'' ↦ main_loop fuel w''
          ]
        ]
      ]

      pub last_len : List ChunkSignature → ℕ
      last_len [] = 0
      last_len (c ∷ []) = c.len
      last_len (c ∷ d ∷ cs) = last_len (d ∷ cs)

      -- The match of the EOF tail, which only the length of the last block can have.
      pub tail_match : Bytes → DeltaResult (Option ℕ)
      unfolding last_len
      tail_match tail =
          let (a, b) = weak_init tail in
          let sum = weak_value a b in
          let e =
            if x.big then x.head_vec (sum % x.tablesize) else x.head_arr (bucket_traditional a b) in
          if length tail == last_len chunks && ltb 0 (last_len chunks) && not (e == u64_max)
          then probe_bucket hash chunks (tail_first x.big e) x.chain sum (last_len chunks) tail
          else ok none

      pub literal_tail : Work → DeltaResult Work
      literal_tail w =
          let literal = w.literal ++ w.pending in
          let literal_bytes = w.literal_bytes + length w.pending in
          if ltb max_literal literal_bytes
          then err (literal_budget_exceeded max_literal)
          else ok (record w {
            literal = [];
            literal_bytes = literal_bytes;
            source_size = w.source_size + length w.pending;
            delta = push_literal literal w.delta;
          })

      pub copied_tail : ChunkSignature → Work → Work
      copied_tail c w = record w {
        literal = [];
        source_size = w.source_size + c.len;
        delta = push_copy c.offset c.len (push_literal w.literal w.delta);
      }

      pub finish_tail : Option ℕ → Work → DeltaResult Work
      unfolding literal_tail copied_tail
      finish_tail none w = literal_tail w
      finish_tail (some m) w = elim (get_elem? chunks m) [
        | none ↦ panic
        | some c ↦ ok (copied_tail c w)
      ]

  abbrev pub with_totals : Work → Delta
  with_totals w = record (w.delta) { source_size = w.source_size; checksum = finalize w.hasher }

  -- `find_map(|c| c.weak.map(|_| c.len))`
  unfoldable pub block_of : List ChunkSignature → Option ℕ
  block_of [] = none
  block_of (c ∷ cs) = elim c.weak [ none ↦ block_of cs | some w ↦ some c.len ]

  -- The engine at the block length that the signature gives.
  unfoldable pub rollsum_with : ℕ → Reader → Signature → ℕ → Bool → DeltaResult Delta
  unfolding main_loop refill scan_buffered tail_match finish_tail
  rollsum_with block source signature max_literal verify = do
    let x = build_index signature.chunks
    w ← main_loop block max_literal signature.chunks x (length (content source) + 1) (record {
      reader = source;
      pending = [];
      eof = false;
      hasher = new_hasher verify;
      source_size = 0;
      literal = [];
      literal_bytes = 0;
      delta = new 0 signature.file_size;
    })
    m ← tail_match block max_literal signature.chunks x w.pending
    w' ← finish_tail block max_literal signature.chunks x m w
    ok (with_totals w')

  unfoldable pub compute_delta_rollsum : Reader → Signature → ℕ → Bool → DeltaResult Delta
  unfolding block_of rollsum_with
  compute_delta_rollsum source signature max_literal verify = elim (block_of signature.chunks) [
    | none ↦ stream_all_literal source rollsum_buf signature.file_size max_literal verify
    | some block ↦ rollsum_with block source signature max_literal verify
  ]

-- `source.seek(SeekFrom::Start(offset))`, then `read_exact` of `len` bytes, of a file's bytes.
abbrev pub read_exact_at : Bytes → ℕ → ℕ → DeltaResult Bytes
read_exact_at file offset len =
    if length (take len (drop offset file)) == len
    then ok (take len (drop offset file))
    else err (chunking "read error")

module _ (max_literal : ℕ) (source : Bytes) (table : SignatureTable) where
  pub match_chunks : List ChunkSignature → ℕ → Delta → DeltaResult Delta
  match_chunks [] literal_bytes delta = ok delta
  match_chunks (c ∷ cs) literal_bytes delta = elim (find c.strong_hash table) [
    | some sig ↦ match_chunks cs literal_bytes (push_copy sig.offset sig.len delta)
    | none ↦ elim (ltb max_literal (literal_bytes + c.len)) [
      | true ↦ err (literal_budget_exceeded max_literal)
      | false ↦ elim (read_exact_at source c.offset c.len) [
        | err e ↦ err e
        | panic ↦ panic
        | stuck ↦ stuck
        | ok buf ↦ match_chunks cs (literal_bytes + c.len) (push_literal buf delta)
      ]
    ]
  ]

unfoldable pub compute_delta_from_signatures : Bytes → Signature → Signature → ℕ → DeltaResult Delta
unfolding match_chunks
compute_delta_from_signatures source basis source_sig max_literal = do
  delta ←
      match_chunks max_literal source (from_signature basis) source_sig.chunks 0
        (new 0 basis.file_size)
  ok (record delta { source_size = source_sig.file_size })
