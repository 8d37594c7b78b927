-- ===== src/Receiver/Loop/Transfer.antt =====
-- A file from its start to its end, and a session that breaks off in between.
use cp.Common.{
  concat, ℕ, ◌+◌, ◌≡◌, refl, sym, ap, ◌∙◌, subst, arith, Bytes, List, [], ◌∷◌, ◌++◌, append_assoc,
  append-nil, Option, none, some, length, Bool, true, false, All, ◌==◌, ◌||◌, if◌then◌else◌,
}
use Prim.Native.String.{String}
use cp.Platform.Result.{Result, ok, err}
use cp.Platform.File.{resize}
use cp.Receiver.Sparse.{SparseWriter, finish}
use cp.Receiver.Sparse.Stream.{finish-content}
use cp.Receiver.Sparse.Whole.{Short}
use cp.Receiver.State.{Host, ReceiverFlags, ChunkWrite, ChunkedFile, ApplyState, get_meta, ◌>>>◌}
use cp.Receiver.Chunks.{
  staged_file, settle, record_hash, handle_file_start, handle_file_chunk, handle_file_end, joined,
  run_chain, prepared, defer, commit_file,
}
use cp.Receiver.Chunks.Chain.{Arrived, seen_if, pushed, pushed-Arrived, staged_file-Arrived}
use cp.Receiver.Loop.{ReceivedFrame, file_start, file_chunk, file_end, handle, apply_frames}

abbrev pub chunk_frames : ℕ → List Bytes → List ReceivedFrame
chunk_frames id [] = []
chunk_frames id (b ∷ bufs) = file_chunk id b ∷ chunk_frames id bufs

same_id : (n : ℕ) → (n == n) ≡ true
same_id n = ground arith

pub apply_frames-step :
    (host : Host) (flags : ReceiverFlags) (frame : ReceivedFrame) (frames : List ReceivedFrame)
    (state state' : ApplyState)
    → handle host flags frame state ≡ (state', ok tt)
    → apply_frames host flags (frame ∷ frames) state ≡ apply_frames host flags frames state'
unfolding apply_frames
apply_frames-step host flags frame frames state state' e =
    ap (λ (r : ApplyState × Result (Unit {0})). r >>> λ s. apply_frames host flags frames s) e

abbrev pub Progress : Type 0
Progress = Option SparseWriter × Option ChunkWrite × ℕ × Option Bytes

module _ (host : Host) (flags : ReceiverFlags) (state : ApplyState) (id : ℕ) (path dest : Bytes)
    (size : ℕ) where
  abbrev pub base : ChunkedFile
  base = staged_file host flags id dest path size (get_meta path state.meta_map)

  -- What of the file in flight changes with a chunk
  abbrev pub flying : Progress → ChunkedFile
  flying p = record base { file = p.0; pending_write = p.1; offset = p.2; hasher = p.3 }

  abbrev pub holding : ChunkedFile → ApplyState
  holding f = record state { in_flight = some f }

  handle-chunk :
      (p : Progress) (b : Bytes)
      → handle host flags (file_chunk id b) (holding (flying p))
        ≡ (holding (pushed (flying p) b), ok tt)
  unfolding handle handle_file_chunk staged_file
  handle-chunk p b = rw (same_id id) refl

  pub apply_frames-chunks :
      (bufs : List Bytes) (p : Progress) (seen : Bytes) (rest : List ReceivedFrame)
      → All Short bufs
      → Arrived flags seen (flying p)
      → (q : Progress) × Arrived flags (seen ++ concat bufs) (flying q)
        × (apply_frames host flags (chunk_frames id bufs ++ rest) (holding (flying p))
            ≡ apply_frames host flags rest (holding (flying q)))
  apply_frames-chunks [] p seen rest h a =
      (p, subst (λ (t : Bytes). Arrived flags t (flying p)) (sym (append-nil seen)) a, refl)
  apply_frames-chunks (b ∷ bufs) p seen rest (short, h) a =
      let p' : Progress = (none, some (defer p.1 p.0 p.3 b), p.2 + length b, none) in
      let (q, aq, e) = apply_frames-chunks bufs p' (seen ++ b) rest h (pushed-Arrived b a short) in
      (
        q,
        subst (λ (t : Bytes). Arrived flags t (flying q)) (append_assoc seen b (concat bufs)) aq,
        apply_frames-step host flags (file_chunk id b) (chunk_frames id bufs ++ rest)
              (holding (flying p)) (holding (flying p')) (handle-chunk p b)
            ∙ e,
      )

  pub handle-start :
      host.resolve_path path ≡ ok dest
      → host.create dest size ≡ ok tt
      → handle host flags (file_start id path size) (record state { in_flight = none })
        ≡ (holding base, ok tt)
  unfolding handle handle_file_start
  handle-start joins creates = rw joins (rw creates refl)

  -- The state behind a file that was committed, or found to have changed since
  abbrev pub received : Bytes → Bool → ApplyState
  received content durable =
      let committed = record state {
        in_flight = none;
        disk = (dest, resize size content) ∷ state.disk;
      } in
      if durable
      then record committed {
        renamed_dirs = host.parent dest ∷ state.renamed_dirs;
        files_received = state.files_received + 1;
        bytes_transferred = state.bytes_transferred + length content;
        hashes = record_hash host flags path (seen_if flags.verify content) state.hashes;
      }
      else record committed {
        skipped =
            state.skipped ++ (path, "destination changed after apply; source not removed") ∷ [];
      }

  commit-received :
      (p : Progress) (w : SparseWriter) (content : Bytes) (durable : Bool)
      → (finish w).inner.content ≡ resize size content
      → p.2 ≡ length content
      → host.commit (flags.fsync || flags.verify) flags.backup dest ≡ ok tt
      → settle host flags dest (get_meta path state.meta_map) ≡ ok durable
      → commit_file host flags
          (record state { in_flight = none })
          (flying p)
          (prepared size flags.sparse)
          (some w)
          (seen_if flags.verify content)
        ≡ (received content durable, ok tt)
  unfolding commit_file staged_file
  commit-received p w content true done count commits settles =
      rw (commits, commit_file) (rw settles (rw done (rw count refl)))
  commit-received p w content false done count commits settles =
      rw (commits, commit_file) (rw settles (rw done refl))

  handle-end :
      (p : Progress) (content : Bytes) (durable : Bool)
      → Arrived flags content (flying p)
      → host.commit (flags.fsync || flags.verify) flags.backup dest ≡ ok tt
      → settle host flags dest (get_meta path state.meta_map) ≡ ok durable
      → handle host flags file_end (holding (flying p)) ≡ (received content durable, ok tt)
  unfolding handle handle_file_end staged_file joined
  handle-end p content durable a commits settles =
      let runs : run_chain p.1 p.0 p.3 ≡ ok (some a.writer, seen_if flags.verify content) =
        a.runs in
      rw runs (
        commit-received p a.writer content durable (finish-content content a.writer a.holds)
          a.counted commits settles)

  pub file_run :
      (bufs : List Bytes) (durable : Bool) (rest : List ReceivedFrame)
      → All Short bufs
      → host.resolve_path path ≡ ok dest
      → host.create dest size ≡ ok tt
      → host.opens dest ≡ true
      → host.commit (flags.fsync || flags.verify) flags.backup dest ≡ ok tt
      → settle host flags dest (get_meta path state.meta_map) ≡ ok durable
      → apply_frames host flags
          (file_start id path size ∷ (chunk_frames id bufs ++ (file_end ∷ rest)))
          (record state { in_flight = none })
        ≡ apply_frames host flags rest (received (concat bufs) durable)
  file_run bufs durable rest short joins creates opens commits settles =
      let p : Progress = (base.file, base.pending_write, base.offset, base.hasher) in
      let started =
        staged_file-Arrived host flags id dest path size (get_meta path state.meta_map) opens in
      let (q, a, chunks) = apply_frames-chunks bufs p [] (file_end ∷ rest) short started in
      apply_frames-step host flags (file_start id path size)
        (chunk_frames id bufs ++ (file_end ∷ rest)) (record state { in_flight = none })
        (holding base) (handle-start joins creates)
      ∙ chunks
      ∙ apply_frames-step host flags file_end rest (holding (flying q))
          (received (concat bufs) durable) (handle-end q (concat bufs) durable a commits settles)

  -- A file whose staging failed
  abbrev failing : ChunkedFile
  failing = record base { staged = none; file = none; failed = true }

  abbrev pub drained : String → ApplyState
  drained e = record state { in_flight = none; skipped = state.skipped ++ (path, e) ∷ [] }

  drain-chunks :
      (e : String) (bufs : List Bytes) (rest : List ReceivedFrame)
      → apply_frames host flags
          (chunk_frames id bufs ++ rest)
          (record (drained e) { in_flight = some failing })
        ≡ apply_frames host flags rest (record (drained e) { in_flight = some failing })
  unfolding handle handle_file_chunk staged_file
  drain-chunks e [] rest = refl
  drain-chunks e (b ∷ bufs) rest =
      let s = record (drained e) { in_flight = some failing } in
      apply_frames-step host flags (file_chunk id b) (chunk_frames id bufs ++ rest) s s
        (rw (same_id id) refl)
      ∙ drain-chunks e bufs rest

  pub drain_run :
      (e : String) (bufs : List Bytes) (rest : List ReceivedFrame)
      → host.resolve_path path ≡ ok dest
      → host.create dest size ≡ err e
      → apply_frames host flags
          (file_start id path size ∷ (chunk_frames id bufs ++ (file_end ∷ rest)))
          (record state { in_flight = none })
        ≡ apply_frames host flags rest (drained e)
  unfolding handle handle_file_start handle_file_end
  drain_run e bufs rest joins fails =
      let s = record (drained e) { in_flight = some failing } in
      apply_frames-step host flags (file_start id path size)
        (chunk_frames id bufs ++ (file_end ∷ rest)) (record state { in_flight = none }) s
        (rw joins (rw fails refl))
      ∙ drain-chunks e bufs (file_end ∷ rest)
      ∙ apply_frames-step host flags file_end rest s (drained e) refl
