-- ===== src/Protocol/Stream/Batch.antt =====
-- The raw batch frame: `send_batch_raw`, read by `receive_frame`.
use cp.Common.{ℕ, suc, ◌+◌, ◌-◌, ◌%◌, ◌^◌, ◌≤◌, ◌<◌, ◌≡◌, refl, ap, ◌∙◌, arith, inl, inr}
use cp.Common.{
  Bytes, List, [], ◌∷◌, ◌++◌, append_assoc, Option, none, some, Bool, true, false, length, ltb,
  if◌then◌else◌, Bool-cases, All, pair_path,
}
use cp.Delta.Ops.{new, push_literal}
use cp.Protocol.Result.{ProtocolResult, ok, err, ◌>>=◌}
use cp.Protocol.Stream.{
  max_len, chunk_flag, batch_tag, Codec, batch, BatchItem, BatchFile, BatchHeader, to_le, from_le,
  frame_prefix, batch_total, batch_headers, batch_data, checksum_bytes, send_batch_raw, read_exact,
  read_checksum, read_headers, read_data, read_batch, read_raw, receive_frame,
}
use cp.Protocol.Stream.Prefix.{from_le-to_le, length-to_le, read_exact-append}
use cp.Protocol.Stream.RoundTrip.{receive, receive-raw}

-- What a sender puts in a batch: a file id in 64 bits, a path that is text, a digest of 32 bytes.
abbrev pub DigestFits : Option Bytes → Type 0
DigestFits none = Unit
DigestFits (some digest) = length digest ≡ 32

abbrev pub ItemFits : (Bytes → Bool) → BatchItem → Type 0
ItemFits is_utf8 item =
    (item.file_id < 2 ^ 64) × (is_utf8 item.file_path ≡ true) × DigestFits item.checksum

-- The recipe that an item stands for: its content as one literal.
abbrev pub recipe : BatchItem → BatchFile
recipe item = record {
  file_id = item.file_id;
  file_path = item.file_path;
  delta =
      push_literal item.content (record (new (length item.content) 0) { checksum = item.checksum });
}

abbrev pub recipes : List BatchItem → List BatchFile
recipes [] = []
recipes (item ∷ items) = recipe item ∷ recipes items

abbrev headers : List BatchItem → List BatchHeader
headers [] = []
headers (item ∷ items) =
    record {
      file_id = item.file_id;
      file_path = item.file_path;
      data_len = length item.content;
      checksum = item.checksum;
    }
    ∷ headers items

-- The bytes that the frame's length is charged for.
abbrev charged : List BatchItem → ℕ
charged [] = 0
charged (item ∷ items) = length item.file_path + length item.content + charged items

read_checksum-bytes :
    (o : Option Bytes) (rest : Bytes)
    → DigestFits o
    → read_checksum (checksum_bytes o ++ rest) ≡ ok (o, rest)
unfolding read_checksum read_exact
read_checksum-bytes none rest h = refl
read_checksum-bytes (some digest) rest h = rw (read_exact-append digest rest 32 h) refl

read_data-content :
    (items : List BatchItem) (rest : Bytes)
    → read_data (headers items) (batch_data items ++ rest) ≡ ok (recipes items, rest)
unfolding read_data batch_data
read_data-content [] rest = refl
read_data-content (item ∷ items) rest = rw (append_assoc item.content (batch_data items) rest) (
    rw (read_exact-append item.content (batch_data items ++ rest) (length item.content) refl)
      (rw (read_data-content items rest) refl))

batch_headers-cons :
    (item : BatchItem) (items : List BatchItem) (rest : Bytes)
    → batch_headers (item ∷ items) ++ rest
      ≡ to_le 8 item.file_id
        ++ (to_le 4 (length item.file_path)
            ++ (item.file_path
                ++ (to_le 8 (length item.content)
                    ++ (checksum_bytes item.checksum ++ (batch_headers items ++ rest)))))
unfolding batch_headers
batch_headers-cons item items rest =
    let hs = batch_headers items in
    let c = checksum_bytes item.checksum in
    let d = to_le 8 (length item.content) in
    ap (λ (t : Bytes). to_le 8 item.file_id ++ (to_le 4 (length item.file_path) ++ t))
      (append_assoc item.file_path (d ++ (c ++ hs)) rest
        ∙ ap (λ (t : Bytes). item.file_path ++ (d ++ t)) (append_assoc c hs rest))

-- A frame's length covers a count of its records, and what they are charged for.
batch_total-ge : (items : List BatchItem) → length items + 5 + charged items ≤ batch_total items
unfolding batch_total
batch_total-ge [] = omega arith
batch_total-ge (item ∷ items) = omega (arith, batch_total-ge items)

module _ (F : Type 0) (c : Codec F) where
  -- One record header, whatever its bytes: what it is read as, before the headers behind it.
  read_headers-cons :
      (ids ps path ds : Bytes) (checksum : Option Bytes) (count remaining : ℕ) (tail : Bytes)
      → length ids ≡ 8
      → length ps ≡ 4
      → from_le ps ≡ length path
      → length ds ≡ 8
      → c.is_utf8 path ≡ true
      → DigestFits checksum
      → length path + from_le ds ≤ remaining
      → read_headers F c
          (suc count)
          remaining
          (ids ++ (ps ++ (path ++ (ds ++ (checksum_bytes checksum ++ tail)))))
        ≡ (read_headers F c count (remaining - length path - from_le ds) tail >>= λ (hs, stream).
            ok (
              record {
                file_id = from_le ids;
                file_path = path;
                data_len = from_le ds;
                checksum = checksum;
              }
                  ∷ hs,
              stream,
            ))
  unfolding read_headers
  read_headers-cons ids ps path ds checksum count remaining tail li lp ep ld text digest enough =
      let behind = checksum_bytes checksum ++ tail in
      let short : ltb remaining (length path) ≡ false = ground arith in
      let fits : ltb (remaining - length path) (from_le ds) ≡ false = ground arith in
      rw (read_exact-append ids (ps ++ (path ++ (ds ++ behind))) 8 li) (
        rw (read_exact-append ps (path ++ (ds ++ behind)) 4 lp) (
          rw ep (
            rw short (
              rw (read_exact-append path (ds ++ behind) (length path) refl) (
                rw text (
                  rw (read_exact-append ds behind 8 ld)
                    (rw fits (rw (read_checksum-bytes checksum tail digest) refl))))))))

  read_headers-batch_headers :
      (items : List BatchItem) (remaining : ℕ) (rest : Bytes)
      → All (ItemFits c.is_utf8) items
      → charged items ≤ remaining
      → remaining < 2 ^ 30
      → read_headers F c (length items) remaining (batch_headers items ++ rest)
        ≡ ok (headers items, rest)
  unfolding read_headers batch_headers
  read_headers-batch_headers [] remaining rest h enough small = refl
  read_headers-batch_headers (item ∷ items) remaining rest ((id, text, digest), h) enough small =
      let path_len = length item.file_path in
      let data_len = length item.content in
      let tail = batch_headers items ++ rest in
      let read_id : from_le (to_le 8 item.file_id) ≡ item.file_id =
        from_le-to_le 8 item.file_id (omega arith) in
      let read_len : from_le (to_le 8 data_len) ≡ data_len =
        from_le-to_le 8 data_len (omega arith) in
      ap (read_headers F c (suc (length items)) remaining) (batch_headers-cons item items rest)
      ∙ read_headers-cons (to_le 8 item.file_id) (to_le 4 path_len) item.file_path
          (to_le 8 data_len) item.checksum (length items) remaining tail
          (length-to_le 8 item.file_id) (length-to_le 4 path_len)
          (from_le-to_le 4 path_len (omega arith)) (length-to_le 8 data_len) text digest
          (omega (arith, read_len))
      ∙ ap
          (λ (n : ℕ × ℕ).
            read_headers F c (length items) (remaining - path_len - n.1) tail >>= λ (hs, stream).
            ok (
              record {
                file_id = n.0;
                file_path = item.file_path;
                data_len = n.1;
                checksum = item.checksum;
              }
                  ∷ hs,
              stream,
            ))
          (pair_path read_id read_len)
      ∙ ap
          (λ (r : ProtocolResult (List BatchHeader × Bytes)). r >>= λ (hs, stream). ok (
            record {
              file_id = item.file_id;
              file_path = item.file_path;
              data_len = data_len;
              checksum = item.checksum;
            }
                ∷ hs,
            stream,
          ))
          (read_headers-batch_headers items (remaining - path_len - data_len) rest h (omega arith)
            (omega arith))

  read_batch-wire :
      (counted : Bytes) (items : List BatchItem) (rest : Bytes)
      → length counted ≡ 4
      → from_le counted ≡ length items
      → All (ItemFits c.is_utf8) items
      → batch_total items < 2 ^ 30
      → read_batch F c
          (batch_total items)
          (counted ++ (batch_headers items ++ (batch_data items ++ rest)))
        ≡ ok (batch (recipes items), rest)
  unfolding read_batch
  read_batch-wire counted items rest four count h fits =
      let size = batch_total-ge items in
      let behind = batch_data items ++ rest in
      let enough : ltb (batch_total items) (length items) ≡ false = ground (arith, size) in
      rw (read_exact-append counted (batch_headers items ++ behind) 4 four) (
        rw count (
          rw enough (
            rw
              (read_headers-batch_headers items (batch_total items - (1 + 4)) behind h
                (omega (arith, size)) (omega arith))
              (rw (read_data-content items rest) refl))))

  raw_path :
      (items : List BatchItem) (rest : Bytes)
      → All (ItemFits c.is_utf8) items
      → batch_total items < 2 ^ 30
      → receive F c (
          (frame_prefix (batch_total items % 2 ^ 32) chunk_flag
            ++ (batch_tag ∷ (to_le 4 (length items) ++ (batch_headers items ++ batch_data items))))
          ++ rest)
        ≡ ok (batch (recipes items), rest)
  unfolding read_raw
  raw_path items rest h fits =
      let total = batch_total items in
      let p = frame_prefix total chunk_flag in
      let hs = batch_headers items in
      let count = to_le 4 (length items) in
      ap
        (λ (n : ℕ). receive F c (
          (frame_prefix n chunk_flag ++ (batch_tag ∷ (count ++ (hs ++ batch_data items)))) ++ rest))
        (omega arith)
      ∙ ap (receive F c) (
          append_assoc p (batch_tag ∷ (count ++ (hs ++ batch_data items))) rest
          ∙ ap (λ (t : Bytes). p ++ (batch_tag ∷ t))
              (append_assoc count (hs ++ batch_data items) rest
                ∙ ap (λ (t : Bytes). count ++ t) (append_assoc hs (batch_data items) rest)))
      ∙ receive-raw F c total batch_tag (count ++ (hs ++ (batch_data items ++ rest))) fits
      ∙ read_batch-wire count items rest (length-to_le 4 (length items))
          (from_le-to_le 4 (length items) (omega (arith, batch_total-ge items))) h fits

-- A raw batch, written and read with anything behind it, gives for every file its id, path, digest
-- and a recipe that is its content as one literal, in order, and leaves what is behind, where the
-- ids fit 64 bits, the paths are text and the digests have 32 bytes; a batch that the 30 bits of
-- the length do not hold is an error of the writer.
pub receive_frame-send_batch_raw :
    (F : Type 0) (c : Codec F) (items : List BatchItem) (rest : Bytes)
    → All (ItemFits c.is_utf8) items
    → (send_batch_raw items >>= λ wire. receive_frame F c (wire ++ rest)) ≡ (
        if ltb (batch_total items) (2 ^ 30)
        then ok (batch (recipes items), rest)
        else err "Batch frame exceeds maximum length")
unfolding send_batch_raw
receive_frame-send_batch_raw F c items rest h =
    elim (Bool-cases (ltb (batch_total items) (2 ^ 30))) [
      | inl fits ↦
          let e : ltb max_len (batch_total items) ≡ false = ground arith in
          rw (e, fits) (raw_path F c items rest h (ground arith))
      | inr long ↦
          let e : ltb max_len (batch_total items) ≡ true = ground arith in rw (e, long) refl
    ]
