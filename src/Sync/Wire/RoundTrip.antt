-- ===== src/Sync/Wire/RoundTrip.antt =====
-- The other peer plans over a list that came by wire as over the scan itself.
use cp.Common.{
  not, ◌&&◌, ℕ, ◌^◌, ◌<◌, ◌≡◌, refl, sym, ap, ap₂, ◌∙◌, arith, Bytes, List, [], ◌∷◌, Option, none,
  some, is_some, false, All, if◌then◌else◌,
}
use cp.Sync.Entry.{ℤ, pos, negsuc, FileKind, LinkKind, FileEntry, kind_eq}
use cp.Sync.Wire.{
  FileMeta, mtime_to_wire, mtime_from_wire, file_meta_from_entry, entry_from_meta,
  entries_from_metas, manifest_from_file_meta,
}
use cp.Sync.Planner.{
  SyncAction, create, update, delete, skip, meta_only, compare, content_matches, is_skip, register,
  act, push_skip, SyncPlan, SyncTask, PlannerConfig, Planning, get_entry, pre_pass, plan_file,
  plan_files, plan_deletes, plan,
}

-- A time in 64 bits
abbrev pub FitsI64 : ℤ → Type 0
FitsI64 (pos n) = n < 2 ^ 63
FitsI64 (negsuc n) = n < 2 ^ 63

pub mtime_from_wire-to_wire : (t : ℤ) → FitsI64 t → mtime_from_wire (mtime_to_wire t) ≡ t
unfolding mtime_from_wire mtime_to_wire
mtime_from_wire-to_wire (pos n) h = ground arith
mtime_from_wire-to_wire (negsuc n) h = ground arith

-- An entry of a scan: its flag for directories is that of its kind, and its times fit.
abbrev pub Scanned : FileEntry → Type 0
Scanned e = (e.is_dir ≡ kind_eq e.kind FileKind.dir) × FitsI64 e.mtime_sec × FitsI64 e.atime_sec

abbrev pub to_metas : List FileEntry → List FileMeta
to_metas [] = []
to_metas (e ∷ es) = file_meta_from_entry e ∷ to_metas es

-- What a list keeps of an entry on its way
abbrev wired : FileEntry → FileEntry
wired e = record e { link_kind = LinkKind.symlink; source_path = none; dereferenced = false }

abbrev wired_all : List FileEntry → List FileEntry
wired_all [] = []
wired_all (e ∷ es) = wired e ∷ wired_all es

entry-from-to : (e : FileEntry) → Scanned e → entry_from_meta (file_meta_from_entry e) ≡ wired e
unfolding entry_from_meta file_meta_from_entry
entry-from-to e (flag, m, a) = λ i. record (wired e) {
  is_dir = sym flag i;
  mtime_sec = mtime_from_wire-to_wire e.mtime_sec m i;
  atime_sec = mtime_from_wire-to_wire e.atime_sec a i;
}

entries-from-to :
    (es : List FileEntry) → All Scanned es → entries_from_metas (to_metas es) ≡ wired_all es
unfolding entries_from_metas
entries-from-to [] h = refl
entries-from-to (e ∷ es) (s, h) = ap₂ ◌∷◌ (entry-from-to e s) (entries-from-to es h)

abbrev wired_option : Option FileEntry → Option FileEntry
wired_option none = none
wired_option (some e) = some (wired e)

get_entry-wired :
    (path : Bytes) (es : List FileEntry)
    → get_entry path (wired_all es) ≡ wired_option (get_entry path es)
unfolding get_entry
get_entry-wired path [] = refl
get_entry-wired path (e ∷ es) = ground (arith, get_entry-wired path es)

compare-wired :
    (config : PlannerConfig) (src dst : FileEntry)
    → compare config src (wired dst) ≡ compare config src dst
unfolding compare
compare-wired config src dst = refl

act-wired :
    (config : PlannerConfig) (action : SyncAction) (src dst : FileEntry) (s : Planning)
    → act config action src (wired dst) s ≡ act config action src dst s
unfolding act
act-wired config create src dst s = refl
act-wired config update src dst s = refl
act-wired config delete src dst s = refl
act-wired config skip src dst s = refl
act-wired config meta_only src dst s = refl

plan_file-wired :
    (config : PlannerConfig) (src : FileEntry) (found : Option FileEntry) (s : Planning)
    → plan_file config src (wired_option found) s ≡ plan_file config src found s
unfolding plan_file
plan_file-wired config src none s = refl
plan_file-wired config src (some dst) s =
    ap (λ (t : Planning). if src.is_dir && dst.is_dir then push_skip config src s else t)
      (ap (λ (a : SyncAction). act config a src (wired dst) s) (compare-wired config src dst)
        ∙ act-wired config (compare config src dst) src dst s)

-- What the pre-pass does with an entry, by the entry that it finds
abbrev noted : PlannerConfig → FileEntry → List (ℕ × Bytes) → Option FileEntry → List (ℕ × Bytes)
noted config src reps found = elim src.inode [
  | none ↦ reps
  | some ino ↦ elim found [
    | none ↦ reps
    | some dst ↦
        if kind_eq src.kind FileKind.file
          && not (is_some dst.link_target)
          && is_skip config (compare config src dst)
          && content_matches config src dst
        then register ino src.relative_path reps
        else reps
  ]
]

noted-wired :
    (config : PlannerConfig) (src : FileEntry) (reps : List (ℕ × Bytes)) (found : Option FileEntry)
    → noted config src reps (wired_option found) ≡ noted config src reps found
unfolding compare content_matches
noted-wired config src reps none = refl
noted-wired config src reps (some dst) = refl

pre_pass-wired :
    (config : PlannerConfig) (dest srcs : List FileEntry) (reps : List (ℕ × Bytes))
    → pre_pass config (wired_all dest) srcs reps ≡ pre_pass config dest srcs reps
unfolding pre_pass
pre_pass-wired config dest [] reps = refl
pre_pass-wired config dest (src ∷ srcs) reps =
    ap (λ (o : Option FileEntry). pre_pass config (wired_all dest) srcs (noted config src reps o))
      (get_entry-wired src.relative_path dest)
    ∙ ap (pre_pass config (wired_all dest) srcs)
        (noted-wired config src reps (get_entry src.relative_path dest))
    ∙ pre_pass-wired config dest srcs (noted config src reps (get_entry src.relative_path dest))

plan_files-wired :
    (config : PlannerConfig) (dest srcs : List FileEntry) (s : Planning)
    → plan_files config (wired_all dest) srcs s ≡ plan_files config dest srcs s
unfolding plan_files
plan_files-wired config dest [] s = refl
plan_files-wired config dest (src ∷ srcs) s =
    ap
      (λ (o : Option FileEntry). plan_files config (wired_all dest) srcs (plan_file config src o s))
      (get_entry-wired src.relative_path dest)
    ∙ ap (plan_files config (wired_all dest) srcs)
        (plan_file-wired config src (get_entry src.relative_path dest) s)
    ∙ plan_files-wired config dest srcs (plan_file config src (get_entry src.relative_path dest) s)

plan_deletes-wired :
    (config : PlannerConfig) (source dest : List FileEntry)
    → plan_deletes config source (wired_all dest) ≡ plan_deletes config source dest
unfolding plan_deletes
plan_deletes-wired config source [] = refl
plan_deletes-wired config source (dst ∷ dsts) = rw (plan_deletes-wired config source dsts) refl

plan-wired :
    (config : PlannerConfig) (source dest : List FileEntry)
    → plan config source (wired_all dest) ≡ plan config source dest
unfolding plan
plan-wired config source dest =
    let empty : SyncPlan = record {
      creates = [];
      updates = [];
      deletes = [];
      skips = [];
      meta = [];
    } in
    let run = λ (es : List FileEntry) (reps : List (ℕ × Bytes)).
      plan_files config es source (record { plan = empty; reps = reps }) in
    let reps = pre_pass config dest source [] in
    let files =
      ap (run (wired_all dest)) (pre_pass-wired config dest source [])
      ∙ plan_files-wired config dest source (record { plan = empty; reps = reps }) in
    ap₂
      (λ (p : Planning) (d : List SyncTask).
        if config.delete then record (p.plan) { deletes = d } else p.plan)
      files (plan_deletes-wired config source dest)

-- A destination's scan, sent as wire metadata and rebuilt by the other peer, gives the plan that the
-- scan itself gives, in every mode of the planner: the creations, updates, deletions, skips and
-- metadata passes are the same, where the entries' times fit 64 bits and their directory flags are
-- those of their kinds.
pub plan-manifest_from_file_meta :
    (config : PlannerConfig) (source dest : List FileEntry)
    → All Scanned dest
    → plan config source (manifest_from_file_meta (to_metas dest)).files ≡ plan config source dest
unfolding manifest_from_file_meta
plan-manifest_from_file_meta config source dest h =
    ap (plan config source) (entries-from-to dest h) ∙ plan-wired config source dest
