-- ===== src/Lib.antt =====
-- cp2: a file synchronizer that sends only what a destination lacks.
-- The program: the scanner lists a tree as a manifest, filtered by the include and exclude patterns
-- of src/sync/filter.rs; the planner of src/sync/planner.rs compares the manifests of the two sides
-- and gives the tasks; for a file to update the receiver signs its version as blocks with a rolling
-- and a strong checksum (src/delta/rollsum.rs, src/delta/signature.rs), the sender computes a delta
-- of copies and literals against that signature (src/delta/compute.rs, src/delta/ops.rs) and the
-- receiver applies it; all of it travels in the frames of src/protocol/stream.rs.
--
-- Files:
-- Common: the shared names, lists over native numbers, byte equality, bit operations, and Rust's
--   u32 and u64 arithmetic with its wrap-around written out.
-- Delta/Rollsum: `weak_init`, `weak_value`, `bucket_traditional`, `state_pack`, `state_value`,
--   `state_bucket`, `state_roll`, `block_size` and `isqrt` of src/delta/rollsum.rs.
-- Delta/Ops: `DeltaOp`, `Delta` and its methods, from src/delta/ops.rs; Delta/Ops/Output says which
--   bytes a delta stands for over a basis.
-- Delta/Error: src/delta/error.rs. A computation gives a value, an error, `panic` (a slice or index
--   out of range) or `stuck` (a loop of the model without fuel, which is no behaviour of the code).
-- Delta/Signature: the chunk records and `SignatureTable` of src/delta/signature.rs.
-- Delta/Reader: `std::io::Read` as the script of what its calls give.
-- Delta/Table, Delta/Scan, Delta/Compute: the block table, `probe_bucket`, `scan_region`,
--   `compute_delta_rollsum`, `stream_all_literal` and `compute_delta_from_signatures` of
--   src/delta/compute.rs; Delta/Patch: its `apply_patch`.
-- Filter: `FilterSet`, `pattern_matches`, `prefix_matches` and `glob` of src/sync/filter.rs;
--   Filter/Spec is the meaning of a wildcard pattern, byte for byte, with no search in it.
-- Sync/Entry: `FileEntry` and `Manifest` of src/sync/scanner.rs, `FileKind` and `LinkKind` of
--   src/protocol/frame.rs. Sync/Planner: `Planner` and its methods of src/sync/planner.rs;
--   Sync/Planner/Plan: the tasks, the settings and the lookups.
-- Protocol/Stream: `encode`, `decode`, `chunk_frame_wire`, `send_batch_raw` and `receive_frame` of
--   src/protocol/stream.rs; Protocol/Result: its results.
-- Sync/Wire: `FileMeta` of src/protocol/frame.rs, and src/sync/wire.rs: an entry as it is sent, and
--   the manifest that the peer rebuilds.
-- Platform/File: a file and its handle as POSIX has them; Platform/Result: results with an error.
-- Receiver: src/sync/receiver.rs. Receiver/Sparse: `SparseWriter`. Receiver/State: `ApplyState`,
--   `ChunkedFile` and what the loop asks of the system. Receiver/Chunks: `handle_file_start`,
--   `handle_file_chunk`, `handle_file_end`, the deferred writes, and the error path of
--   `apply_recipes`. Receiver/Applies: `fold_outcome`, `drain_applies`, the queue of
--   `handle_batch`, `handle_delta_recipe` and `handle_done`. Receiver/Loop: `apply_recipes`.
-- Security/Sanitizer: `PathSanitizer` of src/security/path_sanitizer.rs, on Unix paths.
-- Sync/Linkpolicy: `final_mode`, `rel_path`, `rewrite_internal_target`, `classify_link`,
--   `resolve_target`, `lexical_normalize` and `is_lnk_magic` of src/sync/linkpolicy.rs, on Unix paths.
-- Target/Address: `RemoteTarget`, `Location::parse`, `parse_remote` and `join_suffix` of
--   src/target/address.rs, on byte strings.
-- Platform/Staging: `StagedFile` of src/platform/staging.rs and `remove_path_if_exists` of
--   src/platform/fs.rs, over a directory whose every call may be refused.
-- Transport/Ssh: `shell_quote`, `server_invocation`, `preamble_command`, `deploy_command` and its
--   siblings, `normalize_platform`, `remote_triple` and `sidecar_candidates` of src/transport/ssh.rs;
--   Transport/Ssh/Shell is how a POSIX shell takes a command apart.
-- Commands/Watch: `initial_sync` and `watch_loop` of src/commands/watch.rs, `wait_debounce` of
--   src/sync/watcher.rs, as a state machine.
-- Sync/Sender: `is_under_skipped` of src/sync/sender.rs. Sync/Serve: `resolve_serve_path`,
--   `resolve_pull_roots` and `expand_remote_glob` of src/sync/executor.rs.
-- Sync/Pairing: `stem_key`, `register_basis_entry`, `indexed_candidate` and the pairing loop of
--   `apply_plan` of src/sync/sender.rs. Sync/Strategy: `classify_file_size` and
--   `determine_strategy` of src/sync/strategy.rs.
-- A file Runs holds tests and concrete instances.
--
-- Parameters: BLAKE3 is a function from byte strings to digests, with the hypothesis, where a
-- theorem says so, that it has no collisions; postcard, LZ4 and the UTF-8 check are functions, with
-- the hypothesis that decoding undoes encoding and that LZ4 puts the length in front. The receiver
-- takes the outcomes of the calls that leave it as a record of functions: `safe_join`, the
-- creation, opening and renaming of a staging file, the metadata calls; and what the apply of a batch
-- or a recipe comes to. `soft_canonicalize` is a function on components; the link policy takes `canonicalize`, `soft_canonicalize` and `is_dir` as a
-- record, `Resolver`. A server's paths take the sanitizer's root, `exists`, the glob library and the
-- order of a sort as a record, `Outside`.
--
-- Fuel: the scan has the length of its region plus one, since every round leaves a shorter region;
-- the main loop has the length of the source plus one, since every scan takes a block at least; a
-- refill has the block length plus one, since every read but the last adds a byte; a copy has its
-- length; the walk of a bucket has its first index plus two, since a chain goes down to its end mark;
-- `isqrt` and `glob` have a bound on their rounds; a sparse write has the length of its
-- buffer; the search for a sibling's name has its own, with a free name among so many next ones; the
-- prefixes of a path have its length plus one. Where a theorem says that a computation ends, it is
-- neither `stuck` nor `panic`.
--
-- Left out: capacities and the compaction of buffers, which only move bytes; debug assertions; the
-- text of I/O errors; writers that fail, but for `apply_patch`, whose output has a room; offsets
-- and sizes beyond the width of a u64 where a hypothesis bounds the basis. Not modelled: the
-- FastCDC engine and the generation of signatures, which drive a chunking library; the scan of a
-- file system and storage, which are system calls; the preparation of a staged file; the
-- handshake; the sender's session, the receiver's frames for directories, links, deletes, metadata
-- and signatures, the semaphores that bound what is
-- in flight, the progress report, transports, caches, the command line and the change listing of a
-- plan.
pub mod Commands
pub mod Common
pub mod Delta
pub mod Filter
pub mod Platform
pub mod Protocol
pub mod Receiver
pub mod Security
pub mod Sync
pub mod Target
pub mod Transport
