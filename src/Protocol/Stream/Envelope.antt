-- ===== src/Protocol/Stream/Envelope.antt =====
-- The postcard frames: `encode`, and `receive_frame` with `decode`.
use cp.Common.{ℕ, ◌*◌, ◌^◌, ◌≤◌, ◌<◌, ◌≡◌, refl, sym, ap, ◌∙◌, arith, bit_and, inl, inr}
use cp.Common.{
  Bytes, [], ◌++◌, append_assoc, append-nil, some, Bool, true, false, ◌&&◌, length, take, ◌==◌, ltb,
  leb, if◌then◌else◌, Bool-cases,
}
use cp.Protocol.Result.{ProtocolResult, ok, err, ◌>>=◌}
use cp.Protocol.Stream.{
  max_len, chunk_flag, compressed_flag, Codec, Frame, postcard, to_le, from_le, from_be,
  frame_prefix, encode, decode, deserialize, receive_frame,
}
use cp.Protocol.Stream.Prefix.{flagged, chunk_bit, compressed_bit, from_le-to_le}
use cp.Protocol.Stream.RoundTrip.{receive, receive-plain}

module _ (F : Type 0) (c : Codec F) where
  abbrev decode_at : ℕ → Bytes → ProtocolResult F
  decode_at q payload = decode F c (frame_prefix (length payload) (q * 2 ^ 30)) payload

  decode-plain :
      (frame : F) (bytes : Bytes)
      → length bytes < 2 ^ 30
      → c.from_bytes bytes ≡ some frame
      → decode_at 0 bytes ≡ ok frame
  unfolding decode deserialize
  decode-plain frame bytes h d =
      let p = flagged (length bytes) 0 h (omega arith) in
      let raw : (bit_and (from_be (frame_prefix (length bytes) (0 * 2 ^ 30))) chunk_flag == 0)
          ≡ true =
        rw p (rw (chunk_bit (length bytes) 0 h) refl) in
      let plain : (bit_and (from_be (frame_prefix (length bytes) (0 * 2 ^ 30))) compressed_flag
            == 0)
          ≡ true =
        rw p (rw (compressed_bit (length bytes) 0 h) refl) in
      rw raw (rw plain (rw (d, deserialize) refl))

  module _ (payload : Bytes) (fits : length payload < 2 ^ 30) (header : 4 ≤ length payload) where
    compressed_raw :
        (bit_and (from_be (frame_prefix (length payload) (2 * 2 ^ 30))) chunk_flag == 0) ≡ true
    compressed_raw =
        rw (flagged (length payload) 2 fits (omega arith))
          (rw (chunk_bit (length payload) 2 fits) refl)

    compressed_set :
        (bit_and (from_be (frame_prefix (length payload) (2 * 2 ^ 30))) compressed_flag == 0)
        ≡ false
    compressed_set =
        rw (flagged (length payload) 2 fits (omega arith))
          (rw (compressed_bit (length payload) 2 fits) refl)

    enough : ltb (length payload) 4 ≡ false
    enough = ground arith

    decode-compressed : decode_at 2 payload ≡ (
        if ltb max_len (from_le (take 4 payload))
        then err "Compressed frame claims more than the cap"
        else deserialize F c (c.decompress_size_prepended payload))
    unfolding decode
    decode-compressed = rw compressed_raw (rw compressed_set (rw enough refl))

-- A postcard frame that serializes to more bytes than the cap but compresses to fewer is encoded,
-- and the receiver refuses what was encoded, when LZ4 prepends the length.
pub receive_frame_refuses_compressed :
    (F : Type 0) (c : Codec F) (frame : F) (bytes : Bytes) (threshold : ℕ)
    → c.to_allocvec frame ≡ some bytes
    → take 4 (c.compress_prepend_size bytes) ≡ to_le 4 (length bytes)
    → 4 ≤ length (c.compress_prepend_size bytes)
    → length (c.compress_prepend_size bytes) < 2 ^ 30
    → 2 ^ 30 ≤ length bytes
    → length bytes < 2 ^ 32
    → threshold < length bytes
    → (encode F c frame true threshold
        ≡ ok (
            frame_prefix (length (c.compress_prepend_size bytes)) compressed_flag
            ++ c.compress_prepend_size bytes))
      × (receive_frame F c (
            frame_prefix (length (c.compress_prepend_size bytes)) compressed_flag
            ++ c.compress_prepend_size bytes)
          ≡ err "Compressed frame claims more than the cap")
unfolding encode
receive_frame_refuses_compressed F c frame bytes threshold s claim header packed large small over =
    let payload = c.compress_prepend_size bytes in
    let ok_len : leb (length payload) max_len ≡ true = ground arith in
    let above : ltb threshold (length bytes) ≡ true = ground arith in
    let claimed : ltb max_len (from_le (take 4 payload)) ≡ true =
      rw claim (rw (from_le-to_le 4 (length bytes) (omega arith)) (ground arith)) in
    (
      rw (s, encode) (rw above (rw ok_len refl)),
      ap (receive F c) (
            ap (λ (t : Bytes). frame_prefix (length payload) compressed_flag ++ t)
              (sym (append-nil payload)))
          ∙ receive-plain F c 2 payload [] packed (omega arith) refl
          ∙ rw (decode-compressed F c payload packed header) (rw claimed refl),
    )

-- A postcard frame, encoded with or without compression and read with anything behind it, gives the
-- frame back and leaves what is behind, when postcard and LZ4 undo their own output, LZ4 prepends
-- the length, and serialized frame and payload are within the 30 bits of the length.
pub receive_frame-encode :
    (F : Type 0) (c : Codec F) (frame : F) (bytes : Bytes) (compress : Bool) (threshold : ℕ)
    (rest : Bytes)
    → c.to_allocvec frame ≡ some bytes
    → c.from_bytes bytes ≡ some frame
    → c.decompress_size_prepended (c.compress_prepend_size bytes) ≡ some bytes
    → take 4 (c.compress_prepend_size bytes) ≡ to_le 4 (length bytes)
    → 4 ≤ length (c.compress_prepend_size bytes)
    → length bytes < 2 ^ 30
    → length (c.compress_prepend_size bytes) < 2 ^ 30
    → (encode F c frame compress threshold >>= λ wire. receive_frame F c (wire ++ rest))
      ≡ ok (postcard frame, rest)
unfolding encode deserialize
receive_frame-encode F c frame bytes compress threshold rest s d l claim header fits packed =
    elim (Bool-cases (compress && ltb threshold (length bytes))) [
      | inr plain ↦
          let ok_len : leb (length bytes) max_len ≡ true = ground arith in
          rw (s, encode)
            (rw plain (
              rw ok_len (
                ap r (append_assoc (frame_prefix (length bytes) 0) bytes rest)
                ∙ receive-plain F c 0 bytes rest fits (omega arith) refl
                ∙ rw (decode-plain F c frame bytes fits d) refl)))
      | inl small ↦
          let payload = c.compress_prepend_size bytes in
          let ok_len : leb (length payload) max_len ≡ true = ground arith in
          let claimed : ltb max_len (from_le (take 4 payload)) ≡ false =
            rw claim (rw (from_le-to_le 4 (length bytes) (omega arith)) (ground arith)) in
          rw (s, encode)
            (rw small (
              rw ok_len (
                ap r (append_assoc (frame_prefix (length payload) compressed_flag) payload rest)
                ∙ receive-plain F c 2 payload rest packed (omega arith) refl
                ∙ rw (decode-compressed F c payload packed header)
                    (rw claimed (rw (l) (rw (d, deserialize) refl))))))
    ]
  where
    r : Bytes → ProtocolResult (Frame F × Bytes)
    r = receive_frame F c
