-- ===== src/Platform/Staging.antt =====
-- src/platform/staging.rs, and `remove_path_if_exists` of src/platform/fs.rs: a staged file that takes a
-- destination's place. All paths of a commit lie in one directory, so a path is a name there. Any call of
-- the system may be refused; a refused call changes nothing (a recursive removal included).
pub mod Rules
pub mod Commit
mod Runs
use cp.Common.{
  ℕ, zero, suc, List, [], ◌∷◌, ◌++◌, Option, none, some, Bool, true, false, if◌then◌else◌, Bytes,
  bytes_eq, codes, concat,
}

-- A directory's contents are named by a number.
pub data Node : Type 0 where
  file : Bytes → Node
  symlink : Bytes → Node
  folder : ℕ → Node

pub data IoError : Type 0 where
  not_found : IoError
  other_error : IoError

-- `stuck`: a loop of the model ran out of fuel
pub data IoResult {ℓ} (A : Type ℓ) : Type ℓ where
  ok : A → IoResult A
  err : IoError → IoResult A
  stuck : IoResult A

abbrev pub Entries : Type 0
Entries = Bytes → Option Node

-- The directory, what the system answers to the calls to come (`true`: it refuses), and `STAGED_COUNTER`
pub record Disk : Type 0 where
  pub entries : Entries
  pub refusals : List Bool
  pub counter : ℕ

abbrev pub M : Type 0 → Type 0
M A = Disk → IoResult A × Disk

abbrev pub return : {A : Type 0} → A → M A
return a d = (ok a, d)

abbrev pub fail : {A : Type 0} → IoError → M A
fail e d = (err e, d)

-- A `match` on the result of a call
abbrev pub try : {A B : Type 0} → M A → (IoResult A → M B) → M B
try m k d = let (r, d') = m d in k r d'

abbrev pub onward : {A B : Type 0} → (A → M B) → IoResult A → M B
onward k (ok a) d = k a d
onward k (err e) d = (err e, d)
onward k stuck d = (stuck, d)

infixl 5 ◌>>=◌ ◌>>◌
abbrev pub ◌>>=◌ : {A B : Type 0} → M A → (A → M B) → M B
m >>= k = try m (onward k)

abbrev pub ◌>>◌ : {B : Type 0} → M (Unit {0}) → M B → M B
m >> k = m >>= λ _. k

-- `let _ = ..`
abbrev pub ignore : {A : Type 0} → M A → M (Unit {0})
ignore m = try m (λ r. return tt)

-- A call of the system
abbrev pub attempt : {A : Type 0} → (Entries → IoResult A × Entries) → M A
attempt op d = elim d.refusals [
  | true ∷ rest ↦ (err other_error, record d { refusals = rest })
  | false ∷ rest ↦ let (r, e) = op d.entries in (r, record d { refusals = rest; entries = e })
  | [] ↦ let (r, e) = op d.entries in (r, record d { entries = e })
]

pub update : Entries → Bytes → Option Node → Entries
unfolding bytes_eq
update e name node other = if bytes_eq name other then node else e other

abbrev pub lookup_op : Bytes → Entries → IoResult Node × Entries
lookup_op name e = elim (e name) [ some node ↦ (ok node, e) | none ↦ (err not_found, e) ]

unfoldable pub symlink_metadata : Bytes → M Node
symlink_metadata name = attempt (lookup_op name)

-- Whether a node may take the place of what a name holds
abbrev pub replaces : Node → Option Node → Bool
replaces node none = true
replaces (folder t) (some old) = false
replaces node (some (folder t)) = false
replaces node (some old) = true

abbrev pub rename_op : Bytes → Bytes → Entries → IoResult (Unit {0}) × Entries
rename_op from to e = elim (e from) [
  | none ↦ (err not_found, e)
  | some node ↦
      if replaces node (e to)
      then (ok tt, update (update e from none) to (some node))
      else (err other_error, e)
]

unfoldable pub rename : Bytes → Bytes → M (Unit {0})
unfolding update
rename from to = attempt (rename_op from to)

abbrev pub remove_file_op : Bytes → Entries → IoResult (Unit {0}) × Entries
remove_file_op name e = elim (e name) [
  | none ↦ (err not_found, e)
  | some (folder t) ↦ (err other_error, e)
  | some node ↦ (ok tt, update e name none)
]

unfoldable pub remove_file : Bytes → M (Unit {0})
unfolding update
remove_file name = attempt (remove_file_op name)

abbrev pub remove_dir_op : Bytes → Entries → IoResult (Unit {0}) × Entries
remove_dir_op name e = elim (e name) [
  | none ↦ (err not_found, e)
  | some (folder t) ↦ (ok tt, update e name none)
  | some node ↦ (err other_error, e)
]

unfoldable pub remove_dir_all : Bytes → M (Unit {0})
unfolding update
remove_dir_all name = attempt (remove_dir_op name)

abbrev pub remove_found : Bytes → IoResult Node → M (Unit {0})
remove_found name (ok (folder t)) = remove_dir_all name
remove_found name (ok (file b)) = remove_file name
remove_found name (ok (symlink b)) = remove_file name
remove_found name (err not_found) = return tt
remove_found name (err other_error) = fail other_error
remove_found name stuck = λ d. (stuck, d)

unfoldable pub remove_path_if_exists : Bytes → M (Unit {0})
unfolding symlink_metadata remove_file remove_dir_all
remove_path_if_exists name = try (symlink_metadata name) (remove_found name)

-- How a number is written, and the process
pub record Naming : Type 0 where
  pub decimal : ℕ → Bytes
  pub pid : ℕ

module _ (names : Naming) where
  abbrev pub sibling : Bytes → Option Bytes → ℕ → Bytes
  sibling name (some tag) n = concat (
      codes "."
      ∷ name
      ∷ codes ".cp2."
      ∷ tag
      ∷ codes "."
      ∷ names.decimal names.pid
      ∷ codes "."
      ∷ names.decimal n
      ∷ codes ".tmp"
      ∷ [])
  sibling name none n = concat (
      codes "."
      ∷ name
      ∷ codes ".cp2."
      ∷ names.decimal names.pid
      ∷ codes "."
      ∷ names.decimal n
      ∷ codes ".tmp"
      ∷ [])

  -- `STAGED_COUNTER.fetch_add(1, ..)`
  abbrev pub fetch_add : M ℕ
  fetch_add d = (ok d.counter, record d { counter = suc d.counter })

  pub unique_sibling_path : ℕ → Bytes → Option Bytes → M Bytes
  unfolding symlink_metadata
  unique_sibling_path zero name tag d = (stuck, d)
  unique_sibling_path (suc fuel) name tag d =
      let again = unique_sibling_path fuel name tag in
      (fetch_add >>= λ n. try (symlink_metadata (sibling name tag n)) (λ r. elim r [
        | ok node ↦ again
        | err not_found ↦ return (sibling name tag n)
        | err other_error ↦ fail other_error
        | stuck ↦ λ s. (stuck, s)
      ]))
        d

  pub move_aside : ℕ → Bytes → M Bytes
  unfolding unique_sibling_path rename
  move_aside fuel path = unique_sibling_path fuel path (some (codes "backup")) >>= λ backup.
      rename path backup >>= λ _. return backup

abbrev pub backup_of : Bytes → Bytes
backup_of path = path ++ codes "~"

abbrev pub clear_backup : Bytes → IoResult Node → M (Unit {0})
clear_backup backup (ok node) = remove_file backup
clear_backup backup (err not_found) = return tt
clear_backup backup (err other_error) = fail other_error
clear_backup backup stuck = λ d. (stuck, d)

unfoldable pub backup_existing : Bytes → M (Unit {0})
unfolding symlink_metadata remove_file rename
backup_existing path =
    try (symlink_metadata (backup_of path)) (clear_backup (backup_of path))
    >> rename path (backup_of path)

unfoldable pub restore_moved : Bytes → Bytes → M (Unit {0})
unfolding remove_path_if_exists rename
restore_moved original backup = ignore (remove_path_if_exists original) >> rename backup original

abbrev pub restore : Bytes → Option Bytes → M (Unit {0})
restore final none = return tt
restore final (some backup) = ignore (restore_moved final backup)

-- After the rename
abbrev pub settle : Bytes → Bytes → Option Bytes → IoResult (Unit {0}) → M (Unit {0})
settle prepared final none (ok _) = return tt
settle prepared final (some backup) (ok _) = remove_path_if_exists backup
settle prepared final replaced (err e) =
    ignore (remove_path_if_exists prepared) >> (restore final replaced >> fail e)
settle prepared final replaced stuck = λ d. (stuck, d)

module _ (names : Naming) (fuel : ℕ) where
  -- What is done with the destination before the rename
  abbrev pub make_way : Bytes → Bool → IoResult Node → M (Option Bytes)
  unfolding move_aside backup_existing
  make_way final backup (ok (folder t)) = move_aside names fuel final >>= λ b. return (some b)
  make_way final backup (ok (file b)) =
      if backup then (backup_existing final >>= λ _. return none) else return none
  make_way final backup (ok (symlink b)) =
      if backup then (backup_existing final >>= λ _. return none) else return none
  make_way final backup (err not_found) = return none
  make_way final backup (err other_error) = fail other_error
  make_way final backup stuck = λ d. (stuck, d)

  unfoldable pub install_prepared_path : Bytes → Bytes → Bool → M (Unit {0})
  unfolding symlink_metadata move_aside backup_existing rename remove_path_if_exists restore_moved
  install_prepared_path prepared final backup =
      try (symlink_metadata final) (make_way final backup) >>= λ replaced.
      try (rename prepared final) (settle prepared final replaced)

pub record StagedFile : Type 0 where
  pub final_path : Bytes
  pub staged_path : Bytes
  pub committed : Bool

-- `sync_all`, of a file that was opened
abbrev pub synced : IoResult Node → M (Unit {0})
synced (ok node) = attempt (λ e. (ok tt, e))
synced (err e) = return tt
synced stuck = λ d. (stuck, d)

-- An open of a file finds what its metadata would.
abbrev pub sync : Bytes → M (Unit {0})
unfolding symlink_metadata
sync name = try (symlink_metadata name) synced

module _ (names : Naming) (fuel : ℕ) where
  unfoldable pub commit : StagedFile → Bool → Bool → M StagedFile
  unfolding install_prepared_path symlink_metadata
  commit f fsync backup =
      if f.committed
      then return f
      else ((if fsync then sync f.staged_path else return tt)
          >> (install_prepared_path names fuel f.staged_path f.final_path backup >>= λ _.
              return (record f { committed = true })))

abbrev pub absent_is_fine : IoResult (Unit {0}) → M (Unit {0})
absent_is_fine (ok u) = return tt
absent_is_fine (err not_found) = return tt
absent_is_fine (err other_error) = fail other_error
absent_is_fine stuck = λ d. (stuck, d)

unfoldable pub cleanup : StagedFile → M (Unit {0})
unfolding remove_file
cleanup f = try (remove_file f.staged_path) absent_is_fine

-- `Drop`
unfoldable pub drop_staged : StagedFile → M (Unit {0})
unfolding cleanup
drop_staged f = if f.committed then return tt else ignore (cleanup f)
