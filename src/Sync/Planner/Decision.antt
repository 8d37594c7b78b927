-- ===== src/Sync/Planner/Decision.antt =====
-- The decision for a path that both sides have.
use cp.Common.{◌≡◌, ◌⊎◌, arith, none, if◌then◌else◌}
use cp.Common.{false}
use cp.Sync.Entry.{FileEntry}
use cp.Sync.Planner.{
  PlannerConfig, skip, update, when, is_special, compare, content_matches, flag_forced_skip,
}

-- Both sides are regular files: no directory, no link and no special.
pub record Plain (src dst : FileEntry) : Type 0 where
  pub src_dir : src.is_dir ≡ false
  pub dst_dir : dst.is_dir ≡ false
  pub src_link : src.link_target ≡ none
  pub dst_link : dst.link_target ≡ none
  pub src_special : is_special src.kind ≡ false
  pub dst_special : is_special dst.kind ≡ false

-- For two regular files, `compare` skips what `flag_forced_skip` says that a flag forces, else
-- updates under `--ignore-times`, else skips exactly the files whose content matches.
compare-flag_forced_skip :
    (config : PlannerConfig) (src dst : FileEntry)
    → Plain src dst
    → compare config src dst ≡ (
        if flag_forced_skip config src dst
        then skip
        else if config.ignore_times
        then update
        else when (content_matches config src dst))
unfolding compare flag_forced_skip content_matches
compare-flag_forced_skip config src dst p =
    rw (p.src_dir, p.dst_dir, p.src_link, p.dst_link, p.src_special, p.dst_special) (ground arith)

-- `compare` only ever skips or updates.
pub compare-cases :
    (config : PlannerConfig) (src dst : FileEntry)
    → (compare config src dst ≡ skip) ⊎ (compare config src dst ≡ update)
unfolding compare
compare-cases config src dst = ground arith
