-- ===== src/Sync/Planner/Targets.antt =====
-- The hard links of a plan, over the planner's passes.
use cp.Common.{
  ℕ, ◌≡◌, refl, sym, ap, ◌∙◌, inl, inr, arith, Option, none, some, Option-cases, Bool-cases,
  if◌then◌else◌,
}
use cp.Common.{
  Bytes, List, [], ◌∷◌, ◌++◌, Bool, true, false, not, ◌&&◌, is_some, bytes_eq, All, get_elem?,
}
use cp.Sync.Entry.{FileEntry, file, kind_eq}
use cp.Sync.Planner.{
  PlannerConfig, skip, create, update, SyncTask, SyncPlan, Planning, tasks, register, task_for,
  assign_hardlink, get_entry, is_special, flag_forced_skip, attrs_differ, content_matches, compare,
  pre_pass, is_skip, push_skip, push_meta, push_create, push_update, act, plan_file, plan_files,
  plan,
}
use cp.Common.{bytes_eq_refl, length, append_assoc}
use cp.Sync.Planner.Partition.{assign_hardlink-relative_path}
use cp.Sync.Planner.Decision.{compare-cases}
use cp.Sync.Planner.Links.{
  sends, InSource, Linked, any-append, All-weaken, All-append, Linked-Grows, Grows, Reps,
  Reps-Grows, Reps-register, LinkOk, assigned,
}

sends-append :
    (path : Bytes) (ts : List SyncTask) (t : SyncTask)
    → t.relative_path ≡ path
    → t.link_to ≡ none
    → sends path (ts ++ (t ∷ [])) ≡ true
sends-append path ts t e l =
    let a = any-append (λ u. bytes_eq u.relative_path path && not (is_some u.link_to)) ts t in
    let here : (bytes_eq t.relative_path path && not (is_some t.link_to)) ≡ true =
      rw (e, l) (rw (bytes_eq_refl path) refl) in
    ground (arith, a, here)

module _ (config : PlannerConfig) (source dest : List FileEntry) where
  abbrev Ok : SyncPlan → SyncTask → Type 0
  Ok = LinkOk config source dest

  -- What holds of a plan on its way.
  record Sound (s : Planning) : Type 0 where
    pub reps : Reps config source dest s.plan s.reps
    pub creates : All (Ok s.plan) s.plan.creates
    pub updates : All (Ok s.plan) s.plan.updates

  kept :
      (p p' : SyncPlan) (ts : List SyncTask)
      → Grows config source dest p p'
      → All (Ok p) ts
      → All (Ok p') ts
  kept p p' ts g h =
      All-weaken (Ok p) (Ok p') ts
        (λ t. Linked-Grows config source dest p p' t.relative_path t.link_to g) h

  push_create-Sound :
      (src : FileEntry) (s : Planning)
      → InSource source src
      → Sound s
      → Sound (push_create config src s)
  unfolding push_create
  push_create-Sound src s i h =
      let (task, reps) = assign_hardlink src (task_for src create) s.reps in
      let p' = (push_create config src s).plan in
      let g : Grows config source dest s.plan p' = λ path e. ground (
        arith,
        any-append (λ t. bytes_eq t.relative_path path && not (is_some t.link_to)) s.plan.creates
            task,
        e,
      ) in
      let (rs, ok) = assigned config source dest src create s.reps s.plan p' i h.reps g (λ e.
        rw
          (sends-append src.relative_path s.plan.creates task
            (assign_hardlink-relative_path src (task_for src create) s.reps) e)
          refl) in
      record {
        reps = rs;
        creates =
            All-append (Ok p') s.plan.creates task (kept s.plan p' s.plan.creates g h.creates) ok;
        updates = kept s.plan p' s.plan.updates g h.updates;
      }

  push_update-Sound :
      (src : FileEntry) (s : Planning)
      → InSource source src
      → Sound s
      → Sound (push_update config src s)
  unfolding push_update
  push_update-Sound src s i h =
      let (task, reps) = assign_hardlink src (task_for src update) s.reps in
      let p' = (push_update config src s).plan in
      let g : Grows config source dest s.plan p' = λ path e. ground (
        arith,
        any-append (λ t. bytes_eq t.relative_path path && not (is_some t.link_to)) s.plan.updates
            task,
        e,
      ) in
      let (rs, ok) = assigned config source dest src update s.reps s.plan p' i h.reps g (λ e.
        let sent =
          sends-append src.relative_path s.plan.updates task
            (assign_hardlink-relative_path src (task_for src update) s.reps) e in
        ground (arith, sent)) in
      record {
        reps = rs;
        creates = kept s.plan p' s.plan.creates g h.creates;
        updates =
            All-append (Ok p') s.plan.updates task (kept s.plan p' s.plan.updates g h.updates) ok;
      }

  push_skip-Sound : (src : FileEntry) (s : Planning) → Sound s → Sound (push_skip config src s)
  unfolding push_skip
  push_skip-Sound src s h =
      let p' = (push_skip config src s).plan in
      let g : Grows config source dest s.plan p' = λ path e. e in
      record {
        reps = Reps-Grows config source dest s.plan p' s.reps g h.reps;
        creates = kept s.plan p' s.plan.creates g h.creates;
        updates = kept s.plan p' s.plan.updates g h.updates;
      }

  push_meta-Sound : (src : FileEntry) (s : Planning) → Sound s → Sound (push_meta config src s)
  unfolding push_meta
  push_meta-Sound src s h =
      let p' = (push_meta config src s).plan in
      let g : Grows config source dest s.plan p' = λ path e. e in
      record {
        reps = Reps-Grows config source dest s.plan p' s.reps g h.reps;
        creates = kept s.plan p' s.plan.creates g h.creates;
        updates = kept s.plan p' s.plan.updates g h.updates;
      }

  act_skip-Sound :
      (src dst : FileEntry) (s : Planning) → Sound s → Sound (act config skip src dst s)
  unfolding act
  act_skip-Sound src dst s h =
      elim (Bool-cases (
        not src.is_dir
        && not (is_some src.link_target)
        && not (is_special src.kind)
        && not (flag_forced_skip config src dst)
        && attrs_differ config src dst)) [
          | inl e ↦ rw e (push_meta-Sound src s h)
          | inr e ↦ rw e (push_skip-Sound src s h)
        ]

  plan_file-Sound :
      (src : FileEntry) (dst : Option FileEntry) (s : Planning)
      → InSource source src
      → Sound s
      → Sound (plan_file config src dst s)
  unfolding plan_file act
  plan_file-Sound src none s i h = elim (Bool-cases (config.existing && not src.is_dir)) [
    | inl e ↦ rw e (push_skip-Sound src s h)
    | inr e ↦ rw e (push_create-Sound src s i h)
  ]
  plan_file-Sound src (some dst) s i h = elim (Bool-cases (src.is_dir && dst.is_dir)) [
    | inl e ↦ rw e (push_skip-Sound src s h)
    | inr e ↦ rw e (elim (compare-cases config src dst) [
      | inl c ↦ rw (c, act) (act_skip-Sound src dst s h)
      | inr c ↦ rw (c, act) (push_update-Sound src s i h)
    ])
  ]

  plan_files-Sound :
      (srcs : List FileEntry) (s : Planning)
      → All (InSource source) srcs
      → Sound s
      → Sound (plan_files config dest srcs s)
  unfolding plan_files
  plan_files-Sound [] s i h = h
  plan_files-Sound (src ∷ srcs) s (i, is) h =
      let dst = get_entry src.relative_path dest in
      plan_files-Sound srcs (plan_file config src dst s) is (plan_file-Sound src dst s i h)

  abbrev empty : SyncPlan
  empty = record { creates = []; updates = []; deletes = []; skips = []; meta = [] }

  pre_pass-Reps :
      (srcs : List FileEntry) (reps : List (ℕ × Bytes))
      → All (InSource source) srcs
      → Reps config source dest empty reps
      → Reps config source dest empty (pre_pass config dest srcs reps)
  unfolding pre_pass
  pre_pass-Reps [] reps i h = h
  pre_pass-Reps (src ∷ srcs) reps (i, is) h = elim (Option-cases src.inode) [
    | inl e ↦ rw (e, pre_pass) (pre_pass-Reps srcs reps is h)
    | inr (ino, e) ↦ elim (Option-cases (get_entry src.relative_path dest)) [
      | inl m ↦ rw (e, pre_pass) (rw (m, pre_pass) (pre_pass-Reps srcs reps is h))
      | inr (dst, m) ↦
          let ready =
            kind_eq src.kind file
            && not (is_some dst.link_target)
            && is_skip config (compare config src dst)
            && content_matches config src dst in
          elim (Bool-cases ready) [
            | inr k ↦
                rw (e, pre_pass)
                  (rw (m, pre_pass) (rw (k, pre_pass) (pre_pass-Reps srcs reps is h)))
            | inl k ↦
                let regular : kind_eq src.kind file ≡ true = ground (arith, k) in
                let matches : content_matches config src dst ≡ true = ground (arith, k) in
                rw (e, pre_pass)
                  (rw (m, pre_pass)
                    (rw (k, pre_pass)
                      (pre_pass-Reps srcs (register ino src.relative_path reps) is (
                        Reps-register config source dest empty ino src.relative_path reps h
                          (record {
                            entry = src;
                            listed = i;
                            named = refl;
                            inode = e;
                            regular = regular;
                            held = inr (dst, m, matches);
                          })))))
          ]
    ]
  ]

  All-listed : (before srcs : List FileEntry) → source ≡ before ++ srcs → All (InSource source) srcs
  All-listed before [] e = tt
  All-listed before (src ∷ srcs) e = (
    (length before, ap (λ (l : List FileEntry). get_elem? l (length before)) e ∙ middle before),
    All-listed (before ++ (src ∷ [])) srcs (e ∙ sym (append_assoc before (src ∷ []) srcs)),
  )
    where
      middle :
          (before : List FileEntry) → get_elem? (before ++ (src ∷ srcs)) (length before) ≡ some src
      middle [] = refl
      middle (b ∷ bs) = middle bs

  All-tasks :
      (P : SyncTask → Type 0) (ts us : List SyncTask) → All P ts → All P us → All P (ts ++ us)
  All-tasks P [] us h k = k
  All-tasks P (t ∷ ts) us (h, hs) k = (h, All-tasks P ts us hs k)

  with_deletes :
      (b : Bool) (ts : List SyncTask) (s : Planning)
      → Sound s
      → let p = if b then record (s.plan) { deletes = ts } else s.plan in All (Ok p) (tasks p)
  with_deletes true ts s h =
      let p : SyncPlan = record (s.plan) { deletes = ts } in
      All-tasks (Ok p) s.plan.creates s.plan.updates
        (kept s.plan p s.plan.creates (λ path e. e) h.creates)
        (kept s.plan p s.plan.updates (λ path e. e) h.updates)
  with_deletes false ts s h =
      All-tasks (Ok s.plan) s.plan.creates s.plan.updates h.creates h.updates

-- Every hard link of a plan is for a regular source file, and its target is the path of a regular
-- source file of the same inode, which a task of the plan sends without a link or whose
-- destination entry has matching content.
pub plan-Linked :
    (config : PlannerConfig) (source dest : List FileEntry)
    → All
        (λ t. Linked config source dest (plan config source dest) t.relative_path t.link_to)
        (tasks (plan config source dest))
unfolding plan
plan-Linked config source dest =
    let listed = All-listed config source dest [] source refl in
    let e = empty config source dest in
    with_deletes config source dest config.delete _ _ (
      plan_files-Sound config source dest source
        (record { plan = e; reps = pre_pass config dest source [] }) listed
        (record {
          reps = pre_pass-Reps config source dest source [] listed tt;
          creates = tt;
          updates = tt;
        }))
