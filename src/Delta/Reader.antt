-- ===== src/Delta/Reader.antt =====
-- `std::io::Read`: a reader is the script of what its calls will give, so every way of splitting
-- the stream into reads, and every failure, is a reader. At the end of the script it is at EOF.
pub mod Stream
use cp.Common.{
  ℕ, zero, suc, ◌+◌, ◌-◌, Bytes, List, [], ◌∷◌, ◌++◌, true, false, leb, ltb, if◌then◌else◌,
}
use cp.Common.{length, take, drop}
use cp.Delta.Error.{DeltaResult, ok, err, panic, stuck, chunking, ◌>>=◌}

pub data Event : Type 0 where
  available : Bytes → Event
  failure : Event

abbrev pub Reader : Type 0
Reader = List Event

-- All that a reader can give, and a bound on its reads into buffers that are not empty.
abbrev pub content : Reader → Bytes
content [] = []
content (available bytes ∷ r) = bytes ++ content r
content (failure ∷ r) = content r

abbrev pub read_bound : Reader → ℕ
read_bound r = length (content r) + length r + 1

-- One `read` into a buffer of `n` bytes.
unfoldable pub read : ℕ → Reader → DeltaResult (Bytes × Reader)
read n [] = ok ([], [])
read n (failure ∷ r) = err (chunking "read error")
read n (available bytes ∷ r) =
    if leb (length bytes) n then ok (bytes, r) else ok (take n bytes, available (drop n bytes) ∷ r)

-- `while filled < cap { n = read(..); if n == 0 { break } filled += n }`: what was read. Each round
-- but the last fills a byte at least, so `cap` rounds are enough.
unfoldable pub fill : ℕ → ℕ → Reader → DeltaResult (Bytes × Reader)
fill zero cap r = ok ([], r)
fill (suc fuel) cap r = elim (ltb 0 cap) [
  | false ↦ ok ([], r)
  | true ↦ elim (read cap r) [
    | err e ↦ err e
    | panic ↦ panic
    | stuck ↦ stuck
    | ok ([], r') ↦ ok ([], r')
    | ok (b ∷ bytes, r') ↦ do
      (more, r'') ← fill fuel (cap - length (b ∷ bytes)) r'
      ok ((b ∷ bytes) ++ more, r'')
  ]
]
