-- ===== src/Receiver/Runs.antt =====
-- Runs of the receiver, and its theorems at concrete inputs, on a system where every call works.
use cp.Common.{
  Option, All, zero, suc, get_or, bytes_eq, ℕ, ◌≡◌, refl, arith, Bytes, List, [], ◌∷◌, ◌++◌, none,
  some, length, true, false, replicate,
}
use cp.Platform.Result.{ok, err, ◌>>=◌}
use cp.Platform.File.{resize}
use cp.Receiver.Sparse.{new, write, finish}
use cp.Receiver.Sparse.Whole.{writes, finish-writes}
use cp.Receiver.State.{start_state, Host, ReceiverFlags, ApplyState, applied, passed_over}
use cp.Receiver.Chunks.{settle}
use cp.Receiver.Applies.{Ack, handle_done, handle_delta_recipe}
use cp.Receiver.Applies.Count.{◌≈◌, ◌⊕◌, settled, task_tally, handle_done-settled}
use cp.Receiver.Applies.Queue.{joined_tally, handle_delta_recipe-settled}
use cp.Receiver.Chunks.{safe_join}
use cp.Receiver.Loop.Contained.{apply_recipes-Inside}
use cp.Security.Sanitizer
use cp.Security.Sanitizer.{Component, PathSanitizer}
use cp.Security.Sanitizer.Inside.{Inside}
use cp.Receiver.Loop.{ReceivedFrame, file_chunk, file_start, file_end, apply_frames, apply_recipes}
use cp.Receiver.Loop.Transfer.{chunk_frames, received}
use cp.Receiver.Loop.Session.{apply_frames-file, apply_frames-unstaged, apply_recipes-interrupted}

abbrev working : Host
working = record {
  resolve_path = λ p. ok (1 ∷ p);
  parent = λ p. [];
  create = λ p n. ok tt;
  opens = λ p. true;
  commit = λ s b p. ok tt;
  apply_meta = λ p m. ok tt;
  metadata = λ p. err "gone";
  blake3 = λ b. b;
  renames = λ p. true;
  left = λ p. [];
}

-- A disk with no room left
abbrev full : Host
full = record working { create = λ p n. err "no space left" }

abbrev careful : ReceiverFlags
careful = record {
  sparse = true;
  verify = true;
  fsync = false;
  backup = false;
  keep_partial = true;
}

blank_byte : (i : ℕ) → get_or (0 ∷ []) i 0 ≡ (let z : ℕ = 0 in z)
blank_byte zero = refl
blank_byte (suc i) = refl

-- 4096 zeros are skipped, three are not.
sparse_run :
    ((write (7 ∷ replicate 4096 0) (new (record { content = []; at = 0 }) 4102 true)
        >>= write (0 ∷ 0 ∷ 0 ∷ 9 ∷ []))
      >>= λ w. ok ((finish w).inner.at))
    ≡ ok 4101
unfolding write new finish
sparse_run = refl

abbrev two_chunks : List Bytes
two_chunks = (5 ∷ 0 ∷ []) ∷ (0 ∷ 6 ∷ []) ∷ []

finish-writes_example :
    (writes two_chunks (new (record { content = 0 ∷ []; at = 0 }) 5 true) >>= λ w.
    ok ((finish w).inner.content))
    ≡ ok (5 ∷ 0 ∷ 0 ∷ 6 ∷ 0 ∷ [])
unfolding resize
finish-writes_example = finish-writes (0 ∷ []) 5 true two_chunks (λ i. blank_byte i) (omega arith)

abbrev idle : ApplyState
idle = record {
  bytes_transferred = 10;
  files_received = 1;
  meta_map = [];
  renamed_dirs = [];
  skipped = [];
  hashes = [];
  applied_this_run = ((8 ∷ []), ok (applied 3 [] none)) ∷ [];
  batch_applies = ok (applied 4 [] none ∷ passed_over (9 ∷ []) "locked" ∷ []) ∷ [];
  in_flight = none;
  disk = [];
}

apply_frames-file_example :
    apply_frames working careful
      (file_start 3 (2 ∷ []) 5 ∷ (chunk_frames 3 two_chunks ++ (file_end ∷ [])))
      idle
    ≡ apply_frames working careful []
        (received working careful idle 3 (2 ∷ []) (1 ∷ 2 ∷ []) 5 (5 ∷ 0 ∷ 0 ∷ 6 ∷ []) true)
unfolding settle
apply_frames-file_example =
    apply_frames-file working careful idle 3 (2 ∷ []) (1 ∷ 2 ∷ []) 5 two_chunks true []
      (omega arith) refl refl refl refl refl

apply_frames-unstaged_example :
    apply_frames full careful
      (file_start 3 (2 ∷ []) 5 ∷ (chunk_frames 3 two_chunks ++ (file_end ∷ [])))
      idle
    ≡ apply_frames full careful [] (record idle { skipped = ((2 ∷ []), "no space left") ∷ [] })
apply_frames-unstaged_example =
    apply_frames-unstaged full careful idle 3 (2 ∷ []) (1 ∷ 2 ∷ []) 5 "no space left" two_chunks []
      refl refl

apply_recipes-interrupted_example :
    apply_recipes working careful
      (file_start 3 (2 ∷ []) 5 ∷ (chunk_frames 3 two_chunks ++ []))
      false
      idle
    ≡ (record idle { disk = ((1 ∷ 2 ∷ []), (5 ∷ 0 ∷ 0 ∷ 6 ∷ [])) ∷ [] }, err "Failed to read")
apply_recipes-interrupted_example =
    apply_recipes-interrupted working careful idle 3 (2 ∷ []) (1 ∷ 2 ∷ []) 5 two_chunks
      (omega arith) refl refl refl refl refl

abbrev told : Ack
told = record { files = 3; bytes = 17; skipped = ((9 ∷ []), "locked") ∷ []; hashes = [] }

handle_done-settled_example :
    record { files = told.files; bytes = told.bytes; skips = length told.skipped } ≈ settled idle
unfolding handle_done
handle_done-settled_example = handle_done-settled idle told refl

-- The recipe waits for the apply of its basis, `8`, whose 3 bytes are not counted.
handle_delta_recipe-settled_example :
    settled (handle_delta_recipe working idle (4 ∷ []) (some (8 ∷ [])) (ok (applied 2 [] none))).0
      ⊕ joined_tally (some (8 ∷ [])) idle.applied_this_run
      ⊕ joined_tally (some (4 ∷ [])) []
    ≈ settled idle ⊕ task_tally (ok (applied 2 [] none))
unfolding handle_delta_recipe bytes_eq
handle_delta_recipe-settled_example =
    handle_delta_recipe-settled working idle (4 ∷ []) (some (8 ∷ [])) (ok (applied 2 [] none)) refl

lost_basis_run :
    (settled
      (handle_delta_recipe working idle (4 ∷ []) (some (8 ∷ [])) (ok (applied 2 [] none))).0).files
    ≡ 3
unfolding handle_delta_recipe bytes_eq
lost_basis_run = refl

-- A peer names `../b`, then sends a file below the root and breaks off in the next one.
abbrev hostile : List ReceivedFrame
hostile =
    file_start 3 (97 ∷ []) 2
    ∷ file_chunk 3 (5 ∷ 6 ∷ [])
    ∷ file_end
    ∷ file_start 4 (98 ∷ []) 9
    ∷ file_chunk 4 (7 ∷ [])
    ∷ file_start 5 (46 ∷ 46 ∷ 47 ∷ 98 ∷ []) 1
    ∷ []

abbrev below : PathSanitizer
below = record { root = 47 ∷ 114 ∷ [] }

abbrev itself : List Component → Option (List Component)
itself path = some path

apply_recipes-Inside_example :
    All
      (λ (entry : Bytes × Bytes). Inside itself below entry.0)
      (apply_recipes
        (record working { resolve_path = safe_join itself below })
        careful
        hostile
        true
        (start_state [] [])).0.disk
apply_recipes-Inside_example =
    apply_recipes-Inside itself below working careful hostile true [] refl

hostile_run :
    (apply_recipes
      (record working { resolve_path = safe_join itself below })
      careful
      hostile
      true
      (start_state [] [])).0.disk
    ≡ ((47 ∷ 114 ∷ 47 ∷ 98 ∷ []), (7 ∷ [])) ∷ ((47 ∷ 114 ∷ 47 ∷ 97 ∷ []), (5 ∷ 6 ∷ [])) ∷ []
unfolding apply_recipes start_state safe_join bytes_eq Sanitizer.join settle finish
hostile_run = refl
