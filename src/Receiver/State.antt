-- ===== src/Receiver/State.antt =====
-- src/sync/receiver.rs: the state of the loop that applies a peer's recipes, and what the loop asks of
-- the system around it.
use cp.Common.{
  ◌≡◌, refl, ℕ, Bytes, List, [], ◌∷◌, Option, none, some, Bool, bytes_eq, if◌then◌else◌,
}
use cp.Platform.Result.{Result, ok, err}
use cp.Receiver.Sparse.{SparseWriter}
use cp.Sync.Wire.{FileMeta}
use Prim.Native.String.{String}

-- What `metadata` gives of a file: size, seconds and nanoseconds of its time
pub record Stat : Type 0 where
  pub len : ℕ
  pub mtime : ℕ
  pub mtime_nsec : ℕ

-- The outcomes of the calls that leave the receiver: the sanitizer's join, the creation of a staging
-- file of a size, its opening, its rename over the destination (with the flags for syncing and
-- backups), the metadata call, a second look at the destination; BLAKE3; and, of a session that broke
-- off, whether the plain rename works and what a chain of writes that failed left in the staging file.
pub record Host : Type 0 where
  pub resolve_path : Bytes → Result Bytes
  pub parent : Bytes → Bytes
  pub create : Bytes → ℕ → Result (Unit {0})
  pub opens : Bytes → Bool
  pub commit : Bool → Bool → Bytes → Result (Unit {0})
  pub apply_meta : Bytes → FileMeta → Result (Unit {0})
  pub metadata : Bytes → Result Stat
  pub blake3 : Bytes → Bytes
  pub renames : Bytes → Bool
  pub left : Bytes → Bytes

pub record ReceiverFlags : Type 0 where
  pub sparse : Bool
  pub verify : Bool
  pub fsync : Bool
  pub backup : Bool
  pub keep_partial : Bool

-- A write that waits, behind the writer or behind the write before it
pub data ChunkWrite : Type 0 where
  first : Option SparseWriter → Option Bytes → Bytes → ChunkWrite
  after : ChunkWrite → Bytes → ChunkWrite

-- The hasher is the bytes that it has seen; `staged` is what the staging file held when it was made.
pub record ChunkedFile : Type 0 where
  pub file_id : ℕ
  pub staged : Option Bytes
  pub file : Option SparseWriter
  pub pending_write : Option ChunkWrite
  pub offset : ℕ
  pub file_path : Bytes
  pub display : Bytes
  pub hasher : Option Bytes
  pub meta : Option FileMeta
  pub size : ℕ
  pub failed : Bool

-- What became of a file: its bytes, its directory and its hash under its path, or why it was skipped
pub data ApplyOutcome : Type 0 where
  applied : ℕ → Bytes → Option (Bytes × Bytes) → ApplyOutcome
  passed_over : Bytes → String → ApplyOutcome

-- A task that was spawned stands in the state as its result. `disk` is what was committed, the newest
-- first.
pub record ApplyState : Type 0 where
  pub bytes_transferred : ℕ
  pub files_received : ℕ
  pub meta_map : List (Bytes × FileMeta)
  pub renamed_dirs : List Bytes
  pub skipped : List (Bytes × String)
  pub hashes : List (Bytes × Bytes)
  pub applied_this_run : List (Bytes × Result ApplyOutcome)
  pub batch_applies : List (Result (List ApplyOutcome))
  pub in_flight : Option ChunkedFile
  pub disk : List (Bytes × Bytes)

abbrev pub get_meta : Bytes → List (Bytes × FileMeta) → Option FileMeta
get_meta path [] = none
get_meta path ((p, m) ∷ rest) = if bytes_eq p path then some m else get_meta path rest

-- A later entry of the list hides an earlier one of the same path.
abbrev collect : List (Bytes × FileMeta) → List FileMeta → List (Bytes × FileMeta)
collect acc [] = acc
collect acc (m ∷ metas) = collect ((m.path, m) ∷ acc) metas

-- `ApplyState::new`, on a disk
unfoldable pub start_state : List FileMeta → List (Bytes × Bytes) → ApplyState
start_state source_meta disk = record {
  bytes_transferred = 0;
  files_received = 0;
  meta_map = collect [] source_meta;
  renamed_dirs = [];
  skipped = [];
  hashes = [];
  applied_this_run = [];
  batch_applies = [];
  in_flight = none;
  disk = disk;
}

-- `?` behind a handler: the next step runs on the state that it left.
infixl 5 ◌>>>◌
abbrev pub ◌>>>◌ {ℓ} :
    {A : Type ℓ}
    → ApplyState × Result (Unit {0})
    → (ApplyState → ApplyState × Result A)
    → ApplyState × Result A
(state, ok _) >>> f = f state
(state, err e) >>> f = (state, err e)

-- A chain that is fine was fine at each step.
pub >>>-eq-ok {ℓ} :
    {A : Type ℓ} (r : ApplyState × Result (Unit {0})) (f : ApplyState → ApplyState × Result A)
    (a : A)
    → (r >>> f).1 ≡ ok a
    → (r.1 ≡ ok tt) × ((f r.0).1 ≡ ok a) × ((r >>> f).0 ≡ (f r.0).0)
>>>-eq-ok (state, ok tt) f a h = (refl, h, refl)
>>>-eq-ok (state, err e) f a h = cc
