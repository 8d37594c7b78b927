-- ===== src/Receiver/Chunks.antt =====
-- src/sync/receiver.rs: a file that arrives in chunks, from `FileStart` over `FileChunk` to `FileEnd`,
-- and what is left of it when the session breaks off. A deferred write is the chain of writes that
-- waits to be joined; the writes of a chain run in order. A handler gives the state it leaves and
-- its result, since a session that fails still cleans up. The paths, the staging file and the
-- metadata calls are a parameter.
pub mod Chain
use cp.Common.{ℕ, ◌+◌, ◌*◌, Bytes, List, [], ◌∷◌, ◌++◌, Option, none, some, is_some, length}
use cp.Common.{Bool, true, false, not, ◌&&◌, ◌||◌, ◌==◌, leb, if◌then◌else◌}
use cp.Platform.Result.{Result, ok, err, ◌>>=◌}
use cp.Platform.File.{File, resize}
use cp.Receiver.Sparse.{SparseWriter, new, finish, cut, write}
use cp.Receiver.State.{
  Stat, Host, ReceiverFlags, ChunkWrite, first, after, ChunkedFile, ApplyState, get_meta,
}
use cp.Security.Sanitizer
use cp.Security.Sanitizer.{Component, PathSanitizer, SecurityResult}
use cp.Sync.Wire.{FileMeta}

abbrev pub small_prealloc_max : ℕ
small_prealloc_max = 2 * 1024 * 1024

-- What `StagedFile::prepare` leaves in a staging file that it could create
unfoldable pub prepared : ℕ → Bool → Bytes
unfolding resize
prepared size sparse =
    if sparse then resize size [] else if leb size small_prealloc_max then [] else resize size []

-- `Hasher::update`, if there is a hasher
abbrev pub hash_more : Bytes → Option Bytes → Option Bytes
hash_more bytes none = none
hash_more bytes (some seen) = some (seen ++ bytes)

unfoldable pub write_chunk :
    Bytes → SparseWriter × Option Bytes → Result (SparseWriter × Option Bytes)
unfolding write
write_chunk bytes (w, hasher) = write bytes w >>= λ w. ok (w, hash_more bytes hasher)

-- The result of the last write of a chain, once all before it have run
unfoldable pub join : ChunkWrite → Result (SparseWriter × Option Bytes)
unfolding write_chunk
join (first file hasher bytes) = elim file [
  | none ↦ err "FileChunk for unopenable staged file"
  | some w ↦ write_chunk bytes (w, hasher)
]
join (after prev bytes) = join prev >>= write_chunk bytes

-- A chunk joins the chain; the writer and the hasher move into it.
unfoldable pub defer : Option ChunkWrite → Option SparseWriter → Option Bytes → Bytes → ChunkWrite
defer none file hasher bytes = first file hasher bytes
defer (some prev) file hasher bytes = after prev bytes

-- The writer and the hasher, once the chain has run
unfoldable pub run_chain :
    Option ChunkWrite
    → Option SparseWriter
    → Option Bytes
    → Result (Option SparseWriter × Option Bytes)
unfolding join
run_chain none file hasher = ok (file, hasher)
run_chain (some chain) file hasher = join chain >>= λ (w, hasher). ok (some w, hasher)

unfoldable pub joined : ChunkedFile → Result (Option SparseWriter × Option Bytes)
unfolding run_chain
joined f = run_chain f.pending_write f.file f.hasher

unfoldable pub dest_still_matches : Stat → FileMeta → Bool
dest_still_matches stat meta =
    stat.len == meta.size && stat.mtime == meta.mtime && stat.mtime_nsec == meta.mtime_nsec

-- `Receiver::safe_join`, the sanitizer's join with an error of the receiver
unfoldable pub unsafe_path : SecurityResult Bytes → Result Bytes
unsafe_path (Sanitizer.ok path) = ok path
unsafe_path (Sanitizer.err e) = err "Unsafe path"

unfoldable pub safe_join :
    (List Component → Option (List Component)) → PathSanitizer → Bytes → Result Bytes
unfolding unsafe_path
safe_join soft_canonicalize sanitizer rel =
    unsafe_path (Sanitizer.join soft_canonicalize sanitizer rel)

module _ (host : Host) (flags : ReceiverFlags) where
  unfoldable pub open_writer : Bytes → ℕ → Option SparseWriter
  unfolding new prepared
  open_writer path size =
      if host.opens path
      then some (new (record { content = prepared size flags.sparse; at = 0 }) size flags.sparse)
      else none

  -- The file in flight, with the staging file that could be made
  unfoldable pub staged_file : ℕ → Bytes → Bytes → ℕ → Option FileMeta → ChunkedFile
  unfolding open_writer
  staged_file file_id path display size meta = record {
    file_id = file_id;
    staged = some (prepared size flags.sparse);
    file = open_writer path size;
    pending_write = none;
    offset = 0;
    file_path = path;
    display = display;
    hasher = if flags.verify then some [] else none;
    meta = meta;
    size = size;
    failed = false;
  }

  unfoldable pub handle_file_start : ApplyState → ℕ → Bytes → ℕ → ApplyState × Result (Unit {0})
  unfolding staged_file
  handle_file_start state file_id file_path size =
      if is_some state.in_flight
      then (state, err "FileStart while another file is in flight")
      else elim (host.resolve_path file_path) [
        | err e ↦ (state, err e)
        | ok path ↦
            let f = staged_file file_id path file_path size (get_meta file_path state.meta_map) in
            elim (host.create path size) [
              | ok _ ↦ (record state { in_flight = some f }, ok tt)
              | err e ↦ (
                record state {
                  skipped = state.skipped ++ (file_path, e) ∷ [];
                  in_flight = some (record f { staged = none; file = none; failed = true });
                },
                ok tt,
              )
            ]
      ]

  unfoldable pub handle_file_chunk : ApplyState → ℕ → Bytes → ApplyState × Result (Unit {0})
  unfolding defer
  handle_file_chunk state file_id bytes = elim state.in_flight [
    | none ↦ (state, err "FileChunk without FileStart")
    | some f ↦
        if not (f.file_id == file_id)
        then (state, err "FileChunk file_id mismatch")
        else if f.failed
        then (state, ok tt)
        else (
          record state {
            in_flight = some (record f {
              file = none;
              hasher = none;
              offset = f.offset + length bytes;
              pending_write = some (defer f.pending_write f.file f.hasher bytes);
            });
          },
          ok tt,
        )
  ]

  -- The commit task's work behind the rename: false, if the destination has changed since
  unfoldable pub settle : Bytes → Option FileMeta → Result Bool
  unfolding dest_still_matches
  settle path none = ok true
  settle path (some meta) = host.apply_meta path meta >>= λ _.
      if flags.verify
      then (host.metadata path >>= λ stat. ok (dest_still_matches stat meta))
      else ok true

  abbrev pub finished : Option SparseWriter → Bytes → Bytes
  finished none content = content
  finished (some w) content = (finish w).inner.content

  abbrev pub record_hash : Bytes → Option Bytes → List (Bytes × Bytes) → List (Bytes × Bytes)
  record_hash rel none hashes = hashes
  record_hash rel (some seen) hashes = (rel, host.blake3 seen) ∷ hashes

  -- The parts of the file in flight are joined, the writer finishes, the file is committed, and the
  -- counters follow.
  unfoldable pub commit_file :
      ApplyState
      → ChunkedFile
      → Bytes
      → Option SparseWriter
      → Option Bytes
      → ApplyState × Result (Unit {0})
  commit_file state f content file hasher =
      elim (host.commit (flags.fsync || flags.verify) flags.backup f.file_path) [
        | err e ↦ (state, err e)
        | ok _ ↦
            let state = record state { disk = (f.file_path, finished file content) ∷ state.disk } in
            elim (settle f.file_path f.meta) [
              | err e ↦ (state, err e)
              | ok durable ↦ (
                if durable
                    then record state {
                      renamed_dirs = host.parent f.file_path ∷ state.renamed_dirs;
                      files_received = state.files_received + 1;
                      bytes_transferred = state.bytes_transferred + f.offset;
                      hashes = record_hash f.display hasher state.hashes;
                    }
                    else record state {
                      skipped =
                          state.skipped
                          ++ (f.display, "destination changed after apply; source not removed")
                            ∷ [];
                    },
                ok tt,
              )
            ]
      ]

  unfoldable pub end_file : ApplyState → ChunkedFile → ApplyState × Result (Unit {0})
  unfolding joined commit_file
  end_file state f = if f.failed then (state, ok tt) else elim f.staged [
    | none ↦ (state, ok tt)
    | some content ↦ elim (joined f) [
      | err e ↦ (state, err e)
      | ok (file, hasher) ↦ commit_file state f content file hasher
    ]
  ]

  unfoldable pub handle_file_end : ApplyState → ApplyState × Result (Unit {0})
  unfolding end_file
  handle_file_end state = elim state.in_flight [
    | none ↦ (state, err "FileEnd without FileStart")
    | some f ↦ end_file (record state { in_flight = none }) f
  ]

  -- What the staging file holds when a session breaks off, cut to the bytes that have arrived
  unfoldable pub partial_content : ChunkedFile → Bytes → Bytes
  unfolding joined cut
  partial_content f content = elim (joined f) [
    | err e ↦ host.left f.file_path
    | ok (file, hasher) ↦ elim file [ none ↦ content | some w ↦ (cut f.offset w).inner.content ]
  ]

  -- The error path of `apply_recipes`, for the file in flight
  unfoldable pub abort_in_flight : ApplyState → ApplyState
  unfolding partial_content
  abort_in_flight state =
      if flags.keep_partial
      then elim state.in_flight [
        | none ↦ state
        | some f ↦
            let state = record state { in_flight = none } in
            elim f.staged [
              | none ↦ state
              | some content ↦
                  if host.renames f.file_path
                  then record state { disk = (f.file_path, partial_content f content) ∷ state.disk }
                  else state
            ]
      ]
      else state
