-- ===== src/Protocol/Stream/Runs.antt =====
-- Runs of the wire codec, and its theorems at concrete inputs. Postcard writes the bytes of a frame
-- that is a byte string; the compression stores its input behind the length.
use cp.Common.{
  ℕ, zero, suc, ◌^◌, ◌≡◌, refl, arith, Bytes, List, [], ◌∷◌, ◌++◌, Option, some, true, length, drop,
  replicate,
}
use cp.Protocol.Result.{ProtocolResult, ok, err, ◌>>=◌}
use cp.Protocol.Stream.{
  compressed_flag, Codec, Frame, file_chunk, batch, batch_total, postcard, BatchItem, to_le,
  frame_prefix, chunk_frame_wire, send_batch_raw, encode, receive_frame,
}
use cp.Protocol.Stream.Batch.{recipes, receive_frame-send_batch_raw}
use cp.Protocol.Stream.RoundTrip.{receive_frame-chunk_frame_wire}
use cp.Protocol.Stream.Envelope.{receive_frame-encode, receive_frame_refuses_compressed}

abbrev store : Bytes → Bytes
store bytes = to_le 4 (length bytes) ++ bytes

abbrev unstore : Bytes → Option Bytes
unstore bytes = some (drop 4 bytes)

abbrev stored : Codec Bytes
stored = record {
  to_allocvec = some;
  from_bytes = some;
  compress_prepend_size = store;
  decompress_size_prepended = unstore;
  is_utf8 = λ b. true;
}

-- A compression that keeps the length alone
abbrev sized : Codec Bytes
sized = record stored { compress_prepend_size = λ b. to_le 4 (length b) }

abbrev receive : Bytes → ProtocolResult (Frame Bytes × Bytes)
receive = receive_frame Bytes stored

receive_frame-chunk_frame_wire_example :
    (chunk_frame_wire 300 (1 ∷ 2 ∷ []) [] >>= λ wire. receive (wire ++ (9 ∷ [])))
    ≡ ok (file_chunk 300 (1 ∷ 2 ∷ []), 9 ∷ [])
receive_frame-chunk_frame_wire_example =
    receive_frame-chunk_frame_wire Bytes stored 300 (1 ∷ 2 ∷ []) (9 ∷ []) (omega arith)

receive_frame-encode_example :
    (encode Bytes stored (7 ∷ 8 ∷ []) true 1 >>= λ wire. receive (wire ++ (9 ∷ [])))
    ≡ ok (postcard (7 ∷ 8 ∷ []), 9 ∷ [])
receive_frame-encode_example =
    receive_frame-encode Bytes stored (7 ∷ 8 ∷ []) (7 ∷ 8 ∷ []) true 1 (9 ∷ []) refl refl refl refl
      (omega arith) (omega arith) (omega arith)

-- A batch of two files, one with a checksum flag, is read back as two recipes.
abbrev two_items : List BatchItem
two_items =
    record { file_id = 1; file_path = 97 ∷ []; content = 5 ∷ 6 ∷ []; checksum = Option.none }
    ∷ record { file_id = 2; file_path = 98 ∷ []; content = []; checksum = some (replicate 32 3) }
    ∷ []

receive_frame-send_batch_raw_example :
    (send_batch_raw two_items >>= λ wire. receive (wire ++ (9 ∷ [])))
    ≡ ok (batch (recipes two_items), 9 ∷ [])
unfolding batch_total
receive_frame-send_batch_raw_example =
    receive_frame-send_batch_raw Bytes stored two_items (9 ∷ [])
      ((omega arith, refl, tt), ((omega arith, refl, refl), tt))

zeros : ℕ → Bytes
zeros zero = []
zeros (suc n) = 0 ∷ zeros n

length-zeros : (n : ℕ) → length (zeros n) ≡ n
unfolding zeros
length-zeros zero = refl
length-zeros (suc n) = omega (arith, length-zeros n)

-- A frame of 2^30 zeros, which the compression keeps as its length.
receive_frame_refuses_compressed_example :
    (encode Bytes sized (zeros (2 ^ 30)) true 1000
      ≡ ok (frame_prefix 4 compressed_flag ++ to_le 4 (length (zeros (2 ^ 30)))))
    × (receive_frame Bytes sized
          (frame_prefix 4 compressed_flag ++ to_le 4 (length (zeros (2 ^ 30))))
        ≡ err "Compressed frame claims more than the cap")
receive_frame_refuses_compressed_example =
    receive_frame_refuses_compressed Bytes sized (zeros (2 ^ 30)) (zeros (2 ^ 30)) 1000 refl refl
      (omega arith) (omega arith) (omega (arith, length-zeros (2 ^ 30)))
      (omega (arith, length-zeros (2 ^ 30))) (omega (arith, length-zeros (2 ^ 30)))
