-- ===== src/Sync/Wire.antt =====
-- src/sync/wire.rs and `FileMeta` of src/protocol/frame.rs: a scanned entry as the peers send it.
pub mod RoundTrip
use cp.Common.{
  ℕ, suc, ◌-◌, ◌+◌, ◌^◌, Bytes, List, [], ◌∷◌, Option, none, Bool, true, false, ltb, if◌then◌else◌,
}
use cp.Sync.Entry.{ℤ, pos, negsuc, FileKind, dir, LinkKind, FileEntry, Manifest, kind_eq}

pub record FileMeta : Type 0 where
  pub path : Bytes
  pub size : ℕ
  pub mtime : ℕ
  pub mtime_nsec : ℕ
  pub mode : ℕ
  pub hash : Option Bytes
  pub kind : FileKind
  pub link_target : Option Bytes
  pub inode : Option ℕ
  pub rdev : Option ℕ
  pub uid : Option ℕ
  pub gid : Option ℕ
  pub atime : ℕ
  pub atime_nsec : ℕ
  pub xattrs : Option (List (Bytes × Bytes))

-- `as u64` of an i64, and `as i64` of a u64
unfoldable pub mtime_to_wire : ℤ → ℕ
mtime_to_wire (pos n) = n
mtime_to_wire (negsuc n) = 2 ^ 64 - (n + 1)

unfoldable pub mtime_from_wire : ℕ → ℤ
mtime_from_wire n = if ltb n (2 ^ 63) then pos n else negsuc (2 ^ 64 - n - 1)

unfoldable pub file_meta_from_entry : FileEntry → FileMeta
unfolding mtime_to_wire
file_meta_from_entry entry = record {
  path = entry.relative_path;
  size = entry.size;
  mtime = mtime_to_wire entry.mtime_sec;
  mtime_nsec = entry.mtime_nsec;
  mode = entry.mode;
  hash = entry.file_hash;
  kind = entry.kind;
  link_target = entry.link_target;
  inode = entry.inode;
  rdev = entry.rdev;
  uid = entry.uid;
  gid = entry.gid;
  atime = mtime_to_wire entry.atime_sec;
  atime_nsec = entry.atime_nsec;
  xattrs = entry.xattrs;
}

pub entry_from_meta : FileMeta → FileEntry
unfolding mtime_from_wire
entry_from_meta m = record {
  relative_path = m.path;
  size = m.size;
  mode = m.mode;
  mtime_sec = mtime_from_wire m.mtime;
  mtime_nsec = m.mtime_nsec;
  file_hash = m.hash;
  is_dir = kind_eq m.kind FileKind.dir;
  link_target = m.link_target;
  link_kind = LinkKind.symlink;
  inode = m.inode;
  kind = m.kind;
  rdev = m.rdev;
  uid = m.uid;
  gid = m.gid;
  atime_sec = mtime_from_wire m.atime;
  atime_nsec = m.atime_nsec;
  xattrs = m.xattrs;
  source_path = none;
  dereferenced = false;
}

pub entries_from_metas : List FileMeta → List FileEntry
unfolding entry_from_meta
entries_from_metas [] = []
entries_from_metas (m ∷ metas) = entry_from_meta m ∷ entries_from_metas metas

abbrev pub total_size : List FileEntry → ℕ
total_size [] = 0
total_size (f ∷ files) = f.size + total_size files

-- The root is `.`.
unfoldable pub manifest_from_file_meta : List FileMeta → Manifest
unfolding entries_from_metas
manifest_from_file_meta metas = record {
  root = 46 ∷ [];
  files = entries_from_metas metas;
  total_bytes = total_size (entries_from_metas metas);
  skipped = [];
}
