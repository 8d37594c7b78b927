-- ===== src/Sync/Entry.antt =====
-- src/sync/scanner.rs, `FileEntry` and `Manifest`; src/protocol/frame.rs, `FileKind` and `LinkKind`.
-- A path is its bytes. The signed times are integers over the native numbers.
use cp.Common.{ℕ, Bytes, List, Option, Bool, true, false, ◌==◌, ltb}

pub data ℤ : Type 0 where
  pos : ℕ → ℤ
  negsuc : ℕ → ℤ

pub data FileKind : Type 0 where
  file : FileKind
  dir : FileKind
  symlink : FileKind
  fifo : FileKind
  socket : FileKind
  block_device : FileKind
  char_device : FileKind

pub data LinkKind : Type 0 where
  symlink : LinkKind
  lnk : LinkKind

pub record FileEntry : Type 0 where
  pub relative_path : Bytes
  pub size : ℕ
  pub mode : ℕ
  pub mtime_sec : ℤ
  pub mtime_nsec : ℕ
  pub file_hash : Option Bytes
  pub is_dir : Bool
  pub link_target : Option Bytes
  pub link_kind : LinkKind
  pub inode : Option ℕ
  pub kind : FileKind
  pub rdev : Option ℕ
  pub uid : Option ℕ
  pub gid : Option ℕ
  pub atime_sec : ℤ
  pub atime_nsec : ℕ
  pub xattrs : Option (List (Bytes × Bytes))
  pub source_path : Option Bytes
  pub dereferenced : Bool

pub record Manifest : Type 0 where
  pub root : Bytes
  pub files : List FileEntry
  pub total_bytes : ℕ
  pub skipped : List Bytes

abbrev pub int_eq : ℤ → ℤ → Bool
int_eq (pos a) (pos b) = a == b
int_eq (negsuc a) (negsuc b) = a == b
int_eq (pos a) (negsuc b) = false
int_eq (negsuc a) (pos b) = false

abbrev pub int_ltb : ℤ → ℤ → Bool
int_ltb (pos a) (pos b) = ltb a b
int_ltb (negsuc a) (negsuc b) = ltb b a
int_ltb (pos a) (negsuc b) = false
int_ltb (negsuc a) (pos b) = true

-- The derived `==` of `FileKind`
abbrev kind_code : FileKind → ℕ
kind_code file = 0
kind_code dir = 1
kind_code symlink = 2
kind_code fifo = 3
kind_code socket = 4
kind_code block_device = 5
kind_code char_device = 6

abbrev pub kind_eq : FileKind → FileKind → Bool
kind_eq a b = kind_code a == kind_code b
