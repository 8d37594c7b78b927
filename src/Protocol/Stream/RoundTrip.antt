-- ===== src/Protocol/Stream/RoundTrip.antt =====
-- Frames that were written, read back.
use cp.Common.{ℕ, ◌+◌, ◌*◌, ◌-◌, ◌%◌, ◌^◌, ◌<◌, ◌≡◌, refl, ap, ◌∙◌, arith, bit_and, inl, inr}
use cp.Common.{
  Bytes, [], ◌∷◌, ◌++◌, append_assoc, true, false, length, ◌==◌, ltb, leb, if◌then◌else◌,
  Bool-cases,
}
use cp.Protocol.Result.{ProtocolResult, ok, err, ◌>>=◌}
use cp.Protocol.Stream.{
  max_len, chunk_flag, chunk_tag, Codec, Frame, file_chunk, postcard, to_le, from_be, frame_prefix,
  chunk_frame_wire, read_chunk, read_raw, read_postcard, decode, receive_frame,
}
use cp.Protocol.Stream.Prefix.{
  flagged, masked, chunk_bit, from_le-to_le, length-frame_prefix, read_exact-append,
}

module _ (F : Type 0) (c : Codec F) where
  abbrev pub receive : Bytes → ProtocolResult (Frame F × Bytes)
  receive = receive_frame F c

  -- What the receiver does behind a prefix with the raw flag, and behind one without it.
  pub receive-raw :
      (len tag : ℕ) (rest : Bytes)
      → len < 2 ^ 30
      → receive (frame_prefix len chunk_flag ++ (tag ∷ rest))
        ≡ read_raw F c len (tag + 256 * 0) rest
  unfolding receive_frame
  receive-raw len tag rest h =
      let p = flagged len 1 h (omega arith) in
      let raw : (bit_and (from_be (frame_prefix len chunk_flag)) chunk_flag == 0) ≡ false =
        rw p (rw (chunk_bit len 1 h) refl) in
      let size : bit_and (from_be (frame_prefix len chunk_flag)) max_len ≡ len =
        rw p (masked len 1 h) in
      rw
        (read_exact-append (frame_prefix len chunk_flag) (tag ∷ rest) 4
          (length-frame_prefix len chunk_flag))
        (rw raw (rw size refl))

  read_chunk-wire :
      (file_id : ℕ) (bytes rest : Bytes)
      → file_id < 2 ^ 64
      → read_chunk F c (9 + length bytes) (to_le 8 file_id ++ (bytes ++ rest))
        ≡ ok (file_chunk file_id bytes, rest)
  unfolding read_chunk
  read_chunk-wire file_id bytes rest h =
      let n : ltb (9 + length bytes) (1 + 8) ≡ false = ground arith in
      let size : length bytes ≡ 9 + length bytes - (1 + 8) = omega arith in
      rw n (
        rw (read_exact-append bytes rest (9 + length bytes - (1 + 8)) size)
          (ap (λ (id : ℕ). ok (file_chunk id bytes, rest)) (from_le-to_le 8 file_id (omega arith))))

  chunk_path :
      (file_id : ℕ) (bytes rest : Bytes)
      → file_id < 2 ^ 64
      → 9 + length bytes < 2 ^ 30
      → receive (
          (frame_prefix (9 + length bytes) chunk_flag ++ (chunk_tag ∷ (to_le 8 file_id ++ bytes)))
          ++ rest)
        ≡ ok (file_chunk file_id bytes, rest)
  unfolding read_raw
  chunk_path file_id bytes rest h fits =
      let p = frame_prefix (9 + length bytes) chunk_flag in
      ap receive (
        append_assoc p (chunk_tag ∷ (to_le 8 file_id ++ bytes)) rest
        ∙ ap (λ (t : Bytes). p ++ (chunk_tag ∷ t)) (append_assoc (to_le 8 file_id) bytes rest))
      ∙ receive-raw (9 + length bytes) chunk_tag (to_le 8 file_id ++ (bytes ++ rest)) fits
      ∙ read_chunk-wire file_id bytes rest h

  -- Behind a prefix without the raw flag the payload is decoded.
  pub receive-plain :
      (q : ℕ) (payload rest : Bytes)
      → length payload < 2 ^ 30
      → q < 4
      → q % 2 ≡ 0
      → receive (frame_prefix (length payload) (q * 2 ^ 30) ++ (payload ++ rest)) ≡ (
          decode F c (frame_prefix (length payload) (q * 2 ^ 30)) payload >>= λ frame.
          ok (postcard frame, rest))
  unfolding receive_frame read_postcard
  receive-plain q payload rest h hq even =
      let len = length payload in
      let p = flagged len q h hq in
      let raw : (bit_and (from_be (frame_prefix len (q * 2 ^ 30))) chunk_flag == 0) ≡ true =
        rw p (rw (chunk_bit len q h) (rw even refl)) in
      let size : bit_and (from_be (frame_prefix len (q * 2 ^ 30))) max_len ≡ len =
        rw p (masked len q h) in
      rw
        (read_exact-append (frame_prefix len (q * 2 ^ 30)) (payload ++ rest) 4
          (length-frame_prefix len (q * 2 ^ 30)))
        (rw raw (rw size (rw (read_exact-append payload rest len refl) refl)))

-- A chunk frame, written to an empty buffer and read with anything behind it, gives the chunk back
-- and leaves what is behind; a frame that the 30 bits of the length do not hold is an error of the
-- writer.
pub receive_frame-chunk_frame_wire :
    (F : Type 0) (c : Codec F) (file_id : ℕ) (bytes rest : Bytes)
    → file_id < 2 ^ 64
    → (chunk_frame_wire file_id bytes [] >>= λ wire. receive_frame F c (wire ++ rest)) ≡ (
        if ltb (1 + 8 + length bytes) (2 ^ 30)
        then ok (file_chunk file_id bytes, rest)
        else err "Chunk frame exceeds maximum length")
unfolding chunk_frame_wire
receive_frame-chunk_frame_wire F c file_id bytes rest h =
    elim (Bool-cases (ltb (1 + 8 + length bytes) (2 ^ 30))) [
      | inl fits ↦
          let e : leb (1 + 8 + length bytes) max_len ≡ true = ground arith in
          rw (e, fits) (chunk_path F c file_id bytes rest h (ground arith))
      | inr long ↦
          let e : leb (1 + 8 + length bytes) max_len ≡ false = ground arith in rw (e, long) refl
    ]
