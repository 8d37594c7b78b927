-- ===== src/Receiver/Loop/Contained.antt =====
-- A receiver writes nothing outside its root, whatever the frames of the peer.
use cp.Common.{
  ℕ, ◌≡◌, sym, ap, subst, arith, inl, inr, Bytes, List, [], ◌∷◌, ◌++◌, Option, none, some, ◌||◌,
  Bool, true, false, ◌==◌, Bool-cases, Option-cases, All, length, ◌-◌,
}
use cp.Platform.Result.{Result, ok, err, Result-cases}
use cp.Receiver.Sparse.{SparseWriter}
use cp.Receiver.State.{
  Host, ReceiverFlags, ChunkedFile, ApplyState, ApplyOutcome, start_state, ◌>>>◌,
}
use cp.Receiver.Chunks.{
  handle_file_start, handle_file_chunk, handle_file_end, settle, joined, end_file, commit_file,
  abort_in_flight,
}
use cp.Receiver.Applies.{
  drain_batches, drain_handles, drain_applies, shorten, push_batch, join_optional, join_basis,
  spawn_apply, handle_delta_recipe, Ack, acknowledge, handle_done,
}
use cp.Receiver.Loop.{
  ReceivedFrame, file_start, file_chunk, file_end, batch, delta_recipe, peer_error, handle,
  apply_frames, clean_up, end_of_stream, apply_recipes,
}
use cp.Receiver.Chunks.{unsafe_path, safe_join}
use cp.Sync.Wire.{FileMeta}
use cp.Security.Sanitizer
use cp.Security.Sanitizer.{Component, PathSanitizer, SecurityResult, is_absolute}
use cp.Security.Sanitizer.Inside.{Inside, join-Inside}
use cp.Receiver.Applies.Untouched.{
  Untouched, shorten-Untouched, drain_batches-Untouched, drain_handles-Untouched,
  spawn_at-Untouched, join_basis-Untouched,
}

-- What the disk holds, and the destination of the file in flight, lie where the sanitizer allows.
abbrev Allowed : (Bytes → Type 0) → Option ChunkedFile → Type 0
Allowed P none = Unit
Allowed P (some f) = P f.file_path

abbrev pub Contained : (Bytes → Type 0) → ApplyState → Type 0
Contained P s = All (λ (entry : Bytes × Bytes). P entry.0) s.disk × Allowed P s.in_flight

Untouched-Contained :
    (P : Bytes → Type 0) (s t : ApplyState) → Untouched s t → Contained P s → Contained P t
Untouched-Contained P s t (d, f) (disk, flying) = (
  subst (All (λ (entry : Bytes × Bytes). P entry.0)) (sym d) disk,
  subst (Allowed P) (sym f) flying,
)

module _ (P : Bytes → Type 0) (host : Host) (flags : ReceiverFlags)
    (joins : (rel dest : Bytes) → host.resolve_path rel ≡ ok dest → P dest) where
  start-Contained :
      (flying : Option ChunkedFile) (s : ApplyState) (id : ℕ) (path : Bytes) (size : ℕ)
      → Contained P (record s { in_flight = flying })
      → Contained P (handle_file_start host flags (record s { in_flight = flying }) id path size).0
  unfolding handle_file_start
  start-Contained (some f) s id path size c = c
  start-Contained none s id path size c = elim (Result-cases (host.resolve_path path)) [
    | inr (e, bad) ↦ rw bad c
    | inl (dest, good) ↦ rw good (elim (Result-cases (host.create dest size)) [
      | inl (made, fine) ↦ rw fine (c.0, joins path dest good)
      | inr (e, full) ↦ rw full (c.0, joins path dest good)
    ])
  ]

  chunk-Contained :
      (flying : Option ChunkedFile) (s : ApplyState) (id : ℕ) (bytes : Bytes)
      → Contained P (record s { in_flight = flying })
      → Contained P (handle_file_chunk host flags (record s { in_flight = flying }) id bytes).0
  unfolding handle_file_chunk
  chunk-Contained none s id bytes c = c
  chunk-Contained (some f) s id bytes c = elim (Bool-cases (f.file_id == id)) [
    | inr other ↦ rw other c
    | inl same ↦
        rw same (elim (Bool-cases f.failed) [ inl failed ↦ rw failed c | inr writes ↦ rw writes c ])
  ]

  chain-Contained :
      {A : Type 0} (r : ApplyState × Result (Unit {0})) (next : ApplyState → ApplyState × Result A)
      → Contained P r.0
      → ((t : ApplyState) → Contained P t → Contained P (next t).0)
      → Contained P (r >>> next).0
  chain-Contained (s, ok tt) next c k = k s c
  chain-Contained (s, err e) next c k = c

  commit-Contained :
      (s : ApplyState) (f : ChunkedFile) (content : Bytes) (file : Option SparseWriter)
      (hasher : Option Bytes)
      → P f.file_path
      → Contained P s
      → Contained P (commit_file host flags s f content file hasher).0
  unfolding commit_file
  commit-Contained s f content file hasher p (disk, flying) =
      elim (Result-cases (host.commit (flags.fsync || flags.verify) flags.backup f.file_path)) [
        | inr (e, bad) ↦ rw (bad, commit_file) (disk, flying)
        | inl (done, good) ↦
            rw (good, commit_file)
              (elim (Result-cases (settle host flags f.file_path f.meta)) [
                | inr (e, bad) ↦ rw bad ((p, disk), flying)
                | inl (true, sure) ↦ rw sure ((p, disk), flying)
                | inl (false, sure) ↦ rw sure ((p, disk), flying)
              ])
      ]

  end-Contained :
      (flying : Option ChunkedFile) (s : ApplyState)
      → Contained P (record s { in_flight = flying })
      → Contained P (handle_file_end host flags (record s { in_flight = flying })).0
  unfolding handle_file_end end_file
  end-Contained none s c = c
  end-Contained (some f) s (disk, p) = elim (Bool-cases f.failed) [
    | inl failed ↦ rw (failed, end_file) (disk, tt)
    | inr sound ↦
        rw (sound, end_file)
          (elim (Option-cases f.staged) [
            | inl unstaged ↦ rw unstaged (disk, tt)
            | inr (content, there) ↦ rw there (elim (Result-cases (joined f)) [
              | inr (e, bad) ↦ rw bad (disk, tt)
              | inl ((file, hasher), good) ↦ rw good (
                  commit-Contained (record s { in_flight = none }) f content file hasher p
                    (disk, tt))
            ])
          ])
  ]

  delta-Contained :
      (s : ApplyState) (path : Bytes) (basis : Option Bytes) (task : Result ApplyOutcome)
      → Contained P s
      → Contained P (handle_delta_recipe host s path basis task).0
  unfolding handle_delta_recipe spawn_apply
  delta-Contained s path basis task c =
      let spawn = λ (s : ApplyState). spawn_apply host s path basis task in
      chain-Contained (join_basis s basis) spawn
        (Untouched-Contained P s (join_basis s basis).0 (join_basis-Untouched s basis) c)
        (λ (t : ApplyState) (k : Contained P t).
          Untouched-Contained P t (spawn t).0
            (spawn_at-Untouched t path (host.resolve_path path) (join_optional host basis) task) k)

  handle-Contained :
      (frame : ReceivedFrame) (s : ApplyState)
      → Contained P s
      → Contained P (handle host flags frame s).0
  unfolding handle push_batch
  handle-Contained (file_start id path size) s c = start-Contained s.in_flight s id path size c
  handle-Contained (file_chunk id bytes) s c = chunk-Contained s.in_flight s id bytes c
  handle-Contained file_end s c = end-Contained s.in_flight s c
  handle-Contained (batch task) s c =
      let queue = s.batch_applies ++ task ∷ [] in
      let t = (shorten (length queue - 2) queue s).0 in
      Untouched-Contained P s t (shorten-Untouched (length queue - 2) queue s) c
  handle-Contained (delta_recipe path basis task) s c = delta-Contained s path basis task c
  handle-Contained peer_error s c = c

  frames-Contained :
      (frames : List ReceivedFrame) (s : ApplyState)
      → Contained P s
      → Contained P (apply_frames host flags frames s).0
  unfolding apply_frames
  frames-Contained [] s c = c
  frames-Contained (frame ∷ frames) s c =
      chain-Contained (handle host flags frame s)
        (λ (t : ApplyState). apply_frames host flags frames t) (handle-Contained frame s c)
        (λ (t : ApplyState) (k : Contained P t). frames-Contained frames t k)

  abort-Contained :
      (flying : Option ChunkedFile) (s : ApplyState)
      → Contained P (record s { in_flight = flying })
      → Contained P (abort_in_flight host flags (record s { in_flight = flying }))
  unfolding abort_in_flight
  abort-Contained none s c = elim (Bool-cases flags.keep_partial) [
    | inl keep ↦ rw keep c
    | inr drop ↦ rw drop c
  ]
  abort-Contained (some f) s (disk, p) = elim (Bool-cases flags.keep_partial) [
    | inr drop ↦ rw drop (disk, p)
    | inl keep ↦ rw keep (elim (Option-cases f.staged) [
      | inl unstaged ↦ rw unstaged (disk, tt)
      | inr (content, there) ↦ rw there (elim (Bool-cases (host.renames f.file_path)) [
        | inl moved ↦ rw moved ((p, disk), tt)
        | inr stays ↦ rw stays (disk, tt)
      ])
    ])
  ]

  clean_up-Contained :
      (r : ApplyState × Result Ack) → Contained P r.0 → Contained P (clean_up host flags r).0
  unfolding clean_up
  clean_up-Contained (s, ok ack) c = c
  clean_up-Contained (s, err e) c = abort-Contained s.in_flight s c

  done-Contained :
      (done : Bool) (s : ApplyState)
      → Contained P s
      → Contained P (end_of_stream host flags done s).0
  unfolding end_of_stream handle_done drain_applies
  done-Contained false s c = c
  done-Contained true s c =
      let batches = drain_batches s.batch_applies s in
      let rest =
        λ (t : ApplyState). drain_handles t.applied_this_run (record t { applied_this_run = [] }) in
      let drained =
        chain-Contained batches rest
          (Untouched-Contained P s batches.0 (drain_batches-Untouched s.batch_applies s) c)
          (λ (t : ApplyState) (k : Contained P t).
            Untouched-Contained P t (rest t).0
              (drain_handles-Untouched t.applied_this_run (record t { applied_this_run = [] }))
              k) in
      chain-Contained (batches >>> rest) acknowledge drained
        (λ (t : ApplyState) (k : Contained P t). k)

  pub recipes-Contained :
      (frames : List ReceivedFrame) (done : Bool) (s : ApplyState)
      → Contained P s
      → Contained P (apply_recipes host flags frames done s).0
  unfolding apply_recipes
  recipes-Contained frames done s c =
      clean_up-Contained (apply_frames host flags frames s >>> λ t. end_of_stream host flags done t)
        (chain-Contained (apply_frames host flags frames s)
          (λ (t : ApplyState). end_of_stream host flags done t) (frames-Contained frames s c)
          (λ (t : ApplyState) (k : Contained P t). done-Contained done t k))

unsafe-ok :
    (r : SecurityResult Bytes) (dest : Bytes) → unsafe_path r ≡ ok dest → r ≡ Sanitizer.ok dest
unfolding unsafe_path
unsafe-ok (Sanitizer.ok path) dest h = ap Sanitizer.ok (ground arith)
unsafe-ok (Sanitizer.err e) dest h = cc

-- Whatever frames a peer sends, in whatever order, and whether the session ends in order, in an error
-- or in the middle of a file: every path that a session commits from chunks has the root's components
-- followed by names only, and its parent resolved to a path below the root when it was joined, if the
-- root is absolute and `safe_join` is the sanitizer's.
pub apply_recipes-Inside :
    (soft_canonicalize : List Component → Option (List Component)) (sanitizer : PathSanitizer)
    (host : Host) (flags : ReceiverFlags) (frames : List ReceivedFrame) (done : Bool)
    (source_meta : List FileMeta)
    → is_absolute sanitizer.root ≡ true
    → All
        (λ (entry : Bytes × Bytes). Inside soft_canonicalize sanitizer entry.0)
        (apply_recipes
          (record host { resolve_path = safe_join soft_canonicalize sanitizer })
          flags
          frames
          done
          (start_state source_meta [])).0.disk
unfolding start_state safe_join
apply_recipes-Inside canon sanitizer host flags frames done source_meta absolute =
    let joins = λ (rel dest : Bytes) (h : safe_join canon sanitizer rel ≡ ok dest).
      join-Inside canon sanitizer rel dest absolute
        (unsafe-ok (Sanitizer.join canon sanitizer rel) dest h) in
    (recipes-Contained (Inside canon sanitizer)
      (record host { resolve_path = safe_join canon sanitizer }) flags joins frames done
      (start_state source_meta []) (tt, tt)).0
