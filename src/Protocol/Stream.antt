-- ===== src/Protocol/Stream.antt =====
-- src/protocol/stream.rs: frames to wire bytes and back. A readable stream is the bytes that it
-- holds; an operation that reads gives what is left. Postcard, LZ4 and the UTF-8 check are
-- parameters; a writer is the bytes that were written, and does not fail.
pub mod Prefix
pub mod RoundTrip
pub mod Envelope
pub mod Batch
mod Runs
use cp.Common.{ℕ, zero, suc, ◌+◌, ◌*◌, ◌-◌, ◌/◌, ◌%◌, ◌^◌, bit_and, bit_or}
use cp.Common.{Bytes, List, [], ◌∷◌, ◌++◌, Option, none, some, is_some, length, take, drop}
use cp.Common.{Bool, true, false, not, ◌&&◌, ltb, leb, ◌==◌, if◌then◌else◌}
use cp.Delta.Ops.{Delta, new, push_literal}
use cp.Protocol.Result.{ProtocolResult, ok, err, ◌>>=◌}

abbrev pub max_len : ℕ
max_len = 0x3FFFFFFF

abbrev pub chunk_flag : ℕ
chunk_flag = 2 ^ 30

abbrev pub compressed_flag : ℕ
compressed_flag = 2 ^ 31

abbrev pub chunk_tag : ℕ
chunk_tag = 0

abbrev pub batch_tag : ℕ
batch_tag = 1

-- A file of a batch that is sent.
pub record BatchItem : Type 0 where
  pub file_id : ℕ
  pub file_path : Bytes
  pub content : Bytes
  pub checksum : Option Bytes

-- A file of a batch that was received.
pub record BatchFile : Type 0 where
  pub file_id : ℕ
  pub file_path : Bytes
  pub delta : Delta

-- The libraries that the codec calls: postcard, LZ4 and the UTF-8 check.
pub record Codec (F : Type 0) : Type 0 where
  pub to_allocvec : F → Option Bytes
  pub from_bytes : Bytes → Option F
  pub compress_prepend_size : Bytes → Bytes
  pub decompress_size_prepended : Bytes → Option Bytes
  pub is_utf8 : Bytes → Bool

-- The frames of the raw layouts, and those of postcard, whatever their variant.
pub data Frame (F : Type 0) : Type 0 where
  file_chunk : ℕ → Bytes → Frame F
  batch : List BatchFile → Frame F
  postcard : F → Frame F

-- `to_le_bytes` of a `k`-byte integer, and `from_le_bytes`
abbrev pub to_le : ℕ → ℕ → Bytes
to_le zero v = []
to_le (suc k) v = (v % 256) ∷ to_le k (v / 256)

abbrev pub from_le : Bytes → ℕ
from_le [] = 0
from_le (b ∷ bs) = b + 256 * from_le bs

-- `u32::to_be_bytes` and `u32::from_be_bytes`
abbrev pub to_be : ℕ → Bytes
to_be v = (v / 2 ^ 24 % 256) ∷ (v / 2 ^ 16 % 256) ∷ (v / 2 ^ 8 % 256) ∷ (v % 256) ∷ []

abbrev pub from_be : Bytes → ℕ
from_be [] = 0
from_be (b ∷ bs) = b * 256 ^ length bs + from_be bs

abbrev pub len_ok : ℕ → Bool
len_ok len = leb len max_len

-- `len as u32 | flag`
unfoldable pub frame_prefix : ℕ → ℕ → Bytes
frame_prefix len flag = to_be (bit_or (len % 2 ^ 32) flag)

unfoldable pub chunk_frame_wire : ℕ → Bytes → Bytes → ProtocolResult Bytes
unfolding frame_prefix
chunk_frame_wire file_id bytes out =
    let total = 1 + 8 + length bytes in
    if not (len_ok total)
    then err "Chunk frame exceeds maximum length"
    else ok (out ++ (frame_prefix total chunk_flag ++ (chunk_tag ∷ (to_le 8 file_id ++ bytes))))

abbrev record_total : BatchItem → ℕ
record_total item =
    8
    + 4
    + length item.file_path
    + 8
    + 1
    + length item.content
    + (if is_some item.checksum then 32 else 0)

unfoldable pub batch_total : List BatchItem → ℕ
batch_total [] = 1 + 4
batch_total (item ∷ items) = record_total item + batch_total items

abbrev pub checksum_bytes : Option Bytes → Bytes
checksum_bytes none = 0 ∷ []
checksum_bytes (some checksum) = 1 ∷ checksum

pub batch_headers : List BatchItem → Bytes
batch_headers [] = []
batch_headers (item ∷ items) =
    to_le 8 item.file_id
    ++ (to_le 4 (length item.file_path)
        ++ (item.file_path
            ++ (to_le 8 (length item.content)
                ++ (checksum_bytes item.checksum ++ batch_headers items))))

pub batch_data : List BatchItem → Bytes
batch_data [] = []
batch_data (item ∷ items) = item.content ++ batch_data items

-- What `send_batch_raw` writes: the head, all the record headers, and the data of each file.
unfoldable pub send_batch_raw : List BatchItem → ProtocolResult Bytes
unfolding batch_total batch_headers batch_data frame_prefix
send_batch_raw items =
    if ltb max_len (batch_total items)
    then err "Batch frame exceeds maximum length"
    else ok (
        frame_prefix (batch_total items % 2 ^ 32) chunk_flag
        ++ (batch_tag ∷ (to_le 4 (length items) ++ (batch_headers items ++ batch_data items))))

-- `read_exact` of `n` bytes
pub read_exact : ℕ → Bytes → ProtocolResult (Bytes × Bytes)
read_exact n stream =
    if length (take n stream) == n then ok (take n stream, drop n stream) else err "Failed to read"

pub record BatchHeader : Type 0 where
  pub file_id : ℕ
  pub file_path : Bytes
  pub data_len : ℕ
  pub checksum : Option Bytes

abbrev pub read_checksum : Bytes → ProtocolResult (Option Bytes × Bytes)
unfolding read_exact
read_checksum stream = do
  (flag, stream) ← read_exact 1 stream
  if from_le flag == 0
      then ok (none, stream)
      else if from_le flag == 1
      then read_exact 32 stream >>= (λ (checksum, stream). ok (some checksum, stream))
      else err "Invalid batch checksum flag"

-- The data of each file becomes its literal operation.
pub read_data : List BatchHeader → Bytes → ProtocolResult (List BatchFile × Bytes)
unfolding read_exact push_literal
read_data [] stream = ok ([], stream)
read_data (h ∷ hs) stream = do
  (bytes, stream) ← read_exact h.data_len stream
  (files, stream) ← read_data hs stream
  ok (
    record {
      file_id = h.file_id;
      file_path = h.file_path;
      delta = push_literal bytes (record (new h.data_len 0) { checksum = h.checksum });
    }
        ∷ files,
    stream,
  )

module _ (F : Type 0) (c : Codec F) where
  -- The record headers of a batch, with what is left of the frame's length.
  pub read_headers : ℕ → ℕ → Bytes → ProtocolResult (List BatchHeader × Bytes)
  unfolding read_exact read_checksum
  read_headers zero remaining stream = ok ([], stream)
  read_headers (suc count) remaining stream = do
    (id, stream) ← read_exact 8 stream
    (path_len, stream) ← read_exact 4 stream
    if ltb remaining (from_le path_len)
        then err "Batch record path exceeds the frame length"
        else do
          (path, stream) ← read_exact (from_le path_len) stream
          if not (c.is_utf8 path) then err "Invalid batch path" else do
            (data_len, stream) ← read_exact 8 stream
            if ltb (remaining - from_le path_len) (from_le data_len)
                then err "Batch record data exceeds the frame length"
                else do
                  (checksum, stream) ← read_checksum stream
                  (hs, stream) ←
                      read_headers count (remaining - from_le path_len - from_le data_len) stream
                  ok (
                    record {
                      file_id = from_le id;
                      file_path = path;
                      data_len = from_le data_len;
                      checksum = checksum;
                    }
                        ∷ hs,
                    stream,
                  )

  pub read_chunk : ℕ → Bytes → ProtocolResult (Frame F × Bytes)
  unfolding read_exact
  read_chunk size stream =
      if ltb size (1 + 8) then err "Chunk frame shorter than its header" else do
        (head, stream) ← read_exact 8 stream
        (bytes, stream) ← read_exact (size - (1 + 8)) stream
        ok (file_chunk (from_le head) bytes, stream)

  pub read_batch : ℕ → Bytes → ProtocolResult (Frame F × Bytes)
  unfolding read_exact read_headers read_data
  read_batch size stream = do
    (count, stream) ← read_exact 4 stream
    if ltb size (from_le count) then err "Batch frame count exceeds its payload length" else do
      (hs, stream) ← read_headers (from_le count) (size - (1 + 4)) stream
      (recipes, stream) ← read_data hs stream
      ok (batch recipes, stream)

  unfoldable pub encode : F → Bool → ℕ → ProtocolResult Bytes
  unfolding frame_prefix
  encode frame compress threshold = elim (c.to_allocvec frame) [
    | none ↦ err "Failed to serialize frame"
    | some bytes ↦
        let compressed = compress && ltb threshold (length bytes) in
        let payload = if compressed then c.compress_prepend_size bytes else bytes in
        if not (len_ok (length payload))
        then err "Frame exceeds maximum length"
        else ok
            (frame_prefix (length payload) (if compressed then compressed_flag else 0) ++ payload)
  ]

  pub deserialize : Option Bytes → ProtocolResult F
  deserialize none = err "Failed to decompress frame"
  deserialize (some bytes) = elim (c.from_bytes bytes) [
    | none ↦ err "Failed to deserialize frame"
    | some frame ↦ ok frame
  ]

  unfoldable pub decode : Bytes → Bytes → ProtocolResult F
  unfolding deserialize
  decode prefix payload =
      let len = from_be prefix in
      if not (bit_and len chunk_flag == 0)
      then err "chunk frame reached the postcard decode path"
      else if not (bit_and len compressed_flag == 0)
      then (if ltb (length payload) 4
          then err "Truncated lz4 size header"
          else if ltb max_len (from_le (take 4 payload))
          then err "Compressed frame claims more than the cap"
          else deserialize (c.decompress_size_prepended payload))
      else deserialize (some payload)

  -- The layout that the tag selects.
  pub read_raw : ℕ → ℕ → Bytes → ProtocolResult (Frame F × Bytes)
  unfolding read_chunk read_batch
  read_raw size tag stream =
      if tag == chunk_tag
      then read_chunk size stream
      else if tag == batch_tag
      then read_batch size stream
      else err "Unknown raw-layout frame tag"

  -- A frame that is not raw: its payload, decoded.
  pub read_postcard : Bytes → ℕ → Bytes → ProtocolResult (Frame F × Bytes)
  unfolding read_exact decode
  read_postcard len_buf size stream = do
    (bytes, stream) ← read_exact size stream
    frame ← decode len_buf bytes
    ok (postcard frame, stream)

  unfoldable pub receive_frame : Bytes → ProtocolResult (Frame F × Bytes)
  unfolding read_exact read_raw read_postcard
  receive_frame stream = do
    (len_buf, stream) ← read_exact 4 stream
    let len = from_be len_buf
    let size = bit_and len max_len
    if not (bit_and len chunk_flag == 0)
        then (read_exact 1 stream >>= λ (tag, stream). read_raw size (from_le tag) stream)
        else read_postcard len_buf size stream
