-- ===== src/Receiver/Loop/Session.antt =====
-- What a session leaves of a file that is sent in chunks.
use cp.Common.{
  concat, ℕ, ◌≡◌, refl, ap, ◌∙◌, Bytes, List, [], ◌∷◌, ◌++◌, none, some, Bool, true, false, All,
  ◌||◌,
}
use Prim.Native.String.{String}
use cp.Platform.Result.{Result, ok, err}
use cp.Platform.File.{resize, resize-length}
use cp.Receiver.Sparse.Stream.{cut-content}
use cp.Receiver.Sparse.Whole.{Short}
use cp.Receiver.State.{Host, ReceiverFlags, ApplyState, get_meta, ◌>>>◌}
use cp.Receiver.Chunks.{
  prepared, staged_file, settle, joined, run_chain, partial_content, abort_in_flight,
}
use cp.Receiver.Chunks.Chain.{Arrived, seen_if, staged_file-Arrived}
use cp.Receiver.Loop.{
  ReceivedFrame, file_start, file_end, apply_frames, clean_up, end_of_stream, apply_recipes,
}
use cp.Receiver.Loop.Transfer.{
  chunk_frames, Progress, received, file_run, drain_run, flying, holding, base, handle-start,
  apply_frames-chunks, apply_frames-step,
}

-- A file whose start, chunks and end arrive while none is in flight, whose path is accepted, whose
-- staging file can be made, opened and renamed, and whose metadata can be applied, is committed: the
-- destination holds the chunks' bytes in order, at the announced size, with `-S` or without. If the
-- destination is still as it was left, the file, its bytes, its directory and (with verification) the
-- hash of its bytes are counted, and otherwise it is reported as skipped; the frames behind it are
-- handled from there.
pub apply_frames-file :
    (host : Host) (flags : ReceiverFlags) (state : ApplyState) (id : ℕ) (path dest : Bytes)
    (size : ℕ) (bufs : List Bytes) (durable : Bool) (rest : List ReceivedFrame)
    → All Short bufs
    → host.resolve_path path ≡ ok dest
    → host.create dest size ≡ ok tt
    → host.opens dest ≡ true
    → host.commit (flags.fsync || flags.verify) flags.backup dest ≡ ok tt
    → settle host flags dest (get_meta path state.meta_map) ≡ ok durable
    → apply_frames host flags
        (file_start id path size ∷ (chunk_frames id bufs ++ (file_end ∷ rest)))
        (record state { in_flight = none })
      ≡ apply_frames host flags rest
          (received host flags state id path dest size (concat bufs) durable)
apply_frames-file = file_run

-- A file whose staging file cannot be made is read to its end without a write: it is reported as
-- skipped under its wire path with the reason, and nothing else of the state changes, whatever the
-- sizes of its chunks.
pub apply_frames-unstaged :
    (host : Host) (flags : ReceiverFlags) (state : ApplyState) (id : ℕ) (path dest : Bytes)
    (size : ℕ) (e : String) (bufs : List Bytes) (rest : List ReceivedFrame)
    → host.resolve_path path ≡ ok dest
    → host.create dest size ≡ err e
    → apply_frames host flags
        (file_start id path size ∷ (chunk_frames id bufs ++ (file_end ∷ rest)))
        (record state { in_flight = none })
      ≡ apply_frames host flags rest
          (record state { in_flight = none; skipped = state.skipped ++ (path, e) ∷ [] })
apply_frames-unstaged = drain_run

apply_frames-nil :
    (host : Host) (flags : ReceiverFlags) (state : ApplyState)
    → apply_frames host flags [] state ≡ (state, ok tt)
unfolding apply_frames
apply_frames-nil host flags state = refl

module _ (host : Host) (flags : ReceiverFlags) (state : ApplyState) (id : ℕ) (path dest : Bytes)
    (size : ℕ) where
  partial-Arrived :
      (p : Progress) (content before : Bytes)
      → Arrived flags content (flying host flags state id path dest size p)
      → partial_content host flags (flying host flags state id path dest size p) before ≡ content
  unfolding partial_content joined
  partial-Arrived p content before a =
      let runs : run_chain p.1 p.0 p.3 ≡ ok (some a.writer, seen_if flags.verify content) =
        a.runs in
      rw runs (
        cut-content p.2 content a.writer a.holds
        ∙ ap (λ (n : ℕ). resize n content) a.counted
        ∙ resize-length content)

  abort-flying :
      (p : Progress) (content : Bytes)
      → Arrived flags content (flying host flags state id path dest size p)
      → flags.keep_partial ≡ true
      → host.renames dest ≡ true
      → abort_in_flight host flags
          (holding host flags state id path dest size (flying host flags state id path dest size p))
        ≡ record state { in_flight = none; disk = (dest, content) ∷ state.disk }
  unfolding abort_in_flight staged_file
  abort-flying p content a keep renames = rw keep (
      rw renames (
        ap (λ (c : Bytes). record state { in_flight = none; disk = (dest, c) ∷ state.disk })
          (partial-Arrived p content (prepared size flags.sparse) a)))

-- A stream that ends without `Done` leaves the state that the cleaning up leaves.
apply_recipes-broken :
    (host : Host) (flags : ReceiverFlags) (frames : List ReceivedFrame) (state after : ApplyState)
    → apply_frames host flags frames state ≡ (after, ok tt)
    → apply_recipes host flags frames false state
      ≡ (abort_in_flight host flags after, err "Failed to read")
unfolding apply_recipes end_of_stream clean_up
apply_recipes-broken host flags frames state after e =
    ap
      (λ (r : ApplyState × Result (Unit {0})).
        clean_up host flags (r >>> λ s. end_of_stream host flags false s))
      e

-- With `--partial`, a session that breaks off behind some chunks of a file, whose staging file could
-- be made, opened and renamed, leaves at the destination exactly the bytes that have arrived, not the
-- announced size; the counters are as before the file, and the session ends in the error of the read.
pub apply_recipes-interrupted :
    (host : Host) (flags : ReceiverFlags) (state : ApplyState) (id : ℕ) (path dest : Bytes)
    (size : ℕ) (bufs : List Bytes)
    → All Short bufs
    → host.resolve_path path ≡ ok dest
    → host.create dest size ≡ ok tt
    → host.opens dest ≡ true
    → flags.keep_partial ≡ true
    → host.renames dest ≡ true
    → apply_recipes host flags
        (file_start id path size ∷ (chunk_frames id bufs ++ []))
        false
        (record state { in_flight = none })
      ≡ (
        record state { in_flight = none; disk = (dest, concat bufs) ∷ state.disk },
        err "Failed to read",
      )
apply_recipes-interrupted host flags state id path dest size bufs short joins creates opens keep
      renames =
    let b = base host flags state id path dest size in
    let hold = holding host flags state id path dest size in
    let p : Progress = (b.file, b.pending_write, b.offset, b.hasher) in
    let started =
      staged_file-Arrived host flags id dest path size (get_meta path state.meta_map) opens in
    let (q, a, chunks) =
      apply_frames-chunks host flags state id path dest size bufs p [] [] short started in
    let frames : apply_frames host flags (file_start id path size ∷ (chunk_frames id bufs ++ []))
          (record state { in_flight = none })
        ≡ (hold (flying host flags state id path dest size q), ok tt) =
      apply_frames-step host flags (file_start id path size) (chunk_frames id bufs ++ [])
        (record state { in_flight = none }) (hold b)
        (handle-start host flags state id path dest size joins creates)
      ∙ chunks
      ∙ apply_frames-nil host flags (hold (flying host flags state id path dest size q)) in
    apply_recipes-broken host flags (file_start id path size ∷ (chunk_frames id bufs ++ []))
      (record state { in_flight = none }) (hold (flying host flags state id path dest size q))
      frames
    ∙ ap (λ (s : ApplyState). (s, err "Failed to read"))
        (abort-flying host flags state id path dest size q (concat bufs) a keep renames)
