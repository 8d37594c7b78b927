-- ===== src/Platform/Staging/Commit.antt =====
-- What a commit of src/platform/staging.rs leaves, whichever of its calls are refused.
use cp.Common.{
  ℕ, ◌+◌, ◌<◌, ◌≡◌, ◌≢◌, ◌⊎◌, refl, sym, ap, subst, ◌∙◌, arith, inl, inr, Option, none, some, Bool,
  true, false, if◌then◌else◌, Bytes, codes, length, length-append,
}
use cp.Platform.Staging.{
  Node, file, symlink, folder, IoError, other_error, IoResult, ok, err, stuck, Entries, Disk, M,
  ◌>>◌, ◌>>=◌, return, fail, try, onward, update, symlink_metadata, rename, Naming, sibling,
  move_aside, backup_of, clear_backup, backup_existing, restore_moved, restore, settle, make_way,
  install_prepared_path, StagedFile, synced, sync, commit,
}
use cp.Platform.Staging.Rules.{
  Post, attempt_rule, update_self, update_other, symlink_metadata_rule, remove_file_rule,
  remove_path_if_exists_rule, rename_rule, unique_sibling_path_rule,
}

abbrev pub is_folder : Node → Bool
is_folder (folder t) = true
is_folder _ = false

-- The destination has the new content, or what it had, or it is gone and what it had stands elsewhere.
abbrev pub Kept : Bytes → Bytes → Entries → Entries → Type 0
Kept final content before after =
    (after final ≡ some (file content))
    ⊎ ((after final ≡ before final)
        ⊎ ((b : Bytes) × (after final ≡ none) × (after b ≡ before final)))

-- What a commit may leave: after a success the destination is the staged file, whose own name is free, and
-- with `backup` a file that stood there has moved to its backup name; after an error it is kept.
abbrev pub After : Bytes → Bytes → Bytes → Bool → Entries → IoResult (Unit {0}) → Entries → Type 0
After final staged content backup before (ok u) after =
    (after final ≡ some (file content))
    × (after staged ≡ none)
    × (backup ≡ true
        → (n : Node) → before final ≡ some n
        → is_folder n ≡ false
        → after (backup_of final) ≡ some n)
After final staged content backup before (err x) after = Kept final content before after
After final staged content backup before stuck after = ⊥

pub backup_of-ne : (final : Bytes) → backup_of final ≢ final
backup_of-ne final h = omega (arith, ap length h, length-append final (codes "~"))

module _ (final staged content : Bytes) (apart : staged ≢ final) (backup : Bool)
    (before : Entries) where
  abbrev Q : IoResult (Unit {0}) → Entries → Type 0
  Q = After final staged content backup before

  -- What the rename leaves of entries that hold the staged file
  abbrev placed : Entries → Entries
  placed e = update (update e staged none) final (some (file content))

  placed-final : (e : Entries) → placed e final ≡ some (file content)
  placed-final e = update_self _ final _

  placed-staged : (e : Entries) → placed e staged ≡ none
  placed-staged e = update_other _ final staged _ (λ h. apart (sym h)) ∙ update_self e staged none

  placed-other : (e : Entries) (y : Bytes) → y ≢ final → y ≢ staged → placed e y ≡ e y
  placed-other e y p q =
      update_other _ final y _ (λ h. p (sym h)) ∙ update_other e staged y none (λ h. q (sym h))

  -- Where nothing was moved aside, the rename decides.
  settle_nothing :
      (e : Entries)
      → e staged ≡ some (file content)
      → Q (ok tt) (placed e)
      → ((e' : Entries) → ((y : Bytes) → y ≢ staged → e' y ≡ e y) → Kept final content before e')
      → Post (try (rename staged final) (settle staged final none)) e Q
  settle_nothing e there done kept =
      rename_rule staged final e Q (settle staged final none)
        (λ node h rs c.
          subst (λ (v : Option Node). Q (ok tt) (update (update e staged none) final v))
            (sym there ∙ h) done)
        (λ x.
          remove_path_if_exists_rule staged e Q (λ r. fail x)
            (λ rs c. kept _ (λ y h. update_other e staged y none (λ k. h (sym k))))
            (λ h rs c. kept e (λ y k. refl)) (λ y rs c. kept e (λ z k. refl)))

  module _ (b : Bytes) (bf : b ≢ final) (x : IoError) where
    rename_back :
        (e : Entries)
        → e final ≡ none
        → e b ≡ before final
        → Post (try (rename b final) (λ r. fail x)) e Q
    rename_back e gone moved =
        rename_rule b final e Q (λ r. fail x)
          (λ node h rs c. inr (inl (update_self _ final (some node) ∙ sym h ∙ moved)))
          (λ y rs c. inr (inr (b, gone, moved)))

    -- What was moved aside is moved back, or stays where it is.
    restore_rule :
        (e : Entries)
        → e final ≡ none
        → e b ≡ before final
        → Post (restore final (some b) >> fail x) e Q
    unfolding restore_moved
    restore_rule e gone moved =
        remove_path_if_exists_rule final e Q (λ r. try (rename b final) (λ r. fail x))
          (rename_back (update e final none) (update_self e final none)
            (update_other e final b none (λ h. bf (sym h)) ∙ moved))
          (λ h. rename_back e gone moved) (λ y. rename_back e gone moved)

  -- Where the destination was moved to another name first, it stands there or is moved back.
  settle_moved :
      (e : Entries) (b : Bytes)
      → e staged ≡ some (file content)
      → e final ≡ none
      → e b ≡ before final
      → b ≢ final
      → b ≢ staged
      → ((n : Node) → before final ≡ some n → is_folder n ≡ true)
      → Post (try (rename staged final) (settle staged final (some b))) e Q
  settle_moved e b there gone moved bf bs folders =
      rename_rule staged final e Q (settle staged final (some b))
        (λ node h.
          subst
            (λ (v : Option Node).
              Post (settle staged final (some b) (ok tt)) (update (update e staged none) final v) Q)
            (sym there ∙ h) removed)
        (λ x.
          remove_path_if_exists_rule staged e Q (λ r. restore final (some b) >> fail x)
            (restore_rule b bf x (update e staged none)
              (update_other e staged final none apart ∙ gone)
              (update_other e staged b none (λ h. bs (sym h)) ∙ moved))
            (λ h. restore_rule b bf x e gone moved) (λ y. restore_rule b bf x e gone moved))
    where
      no_file :
          (e' : Entries)
          → backup ≡ true
          → (n : Node) → before final ≡ some n
          → is_folder n ≡ false
          → e' (backup_of final) ≡ some n
      no_file e' h n was f = cc (folders n was, f)

      removed : Post (settle staged final (some b) (ok tt)) (placed e) Q
      removed =
          remove_path_if_exists_rule b (placed e) Q (λ r d. (r, d))
            (λ rs c. (
              update_other (placed e) b final none bf ∙ placed-final e,
              update_other (placed e) b staged none bs ∙ placed-staged e,
              no_file (update (placed e) b none),
            ))
            (λ h rs c. (placed-final e, placed-staged e, no_file (placed e)))
            (λ y rs c. inl (placed-final e))

  module _ (names : Naming) (fuel : ℕ) (there : before staged ≡ some (file content))
      (sb : staged ≢ backup_of final) where
    abbrev place : Option Bytes → M (Unit {0})
    place replaced = try (rename staged final) (settle staged final replaced)

    untouched : (x : IoError) → Post (fail {A = Unit {0}} x) before Q
    untouched x rs c = inr (inl refl)

    -- Nothing is moved: there is no file to back up, or no backup is asked for.
    place_over :
        (backup ≡ true → (n : Node) → before final ≡ some n → is_folder n ≡ false → ⊥)
        → Post (place none) before Q
    place_over nothing =
        settle_nothing before there
          (placed-final before, placed-staged before, λ h n was f. absurd (nothing h n was f))
          (λ e' same. inr (inl (same final (λ k. apart (sym k)))))

    abbrev after_name : IoResult Bytes → M (Unit {0})
    after_name r =
        try (try (onward (λ b. rename final b >>= λ u. return b) r) (onward (λ b. return (some b))))
          (onward place)

    place_aside :
        (t : ℕ)
        → before final ≡ some (folder t)
        → (b : Bytes) → before b ≡ none
        → Post (after_name (ok b)) before Q
    place_aside t was b free =
        rename_rule final b before Q
          (λ r. try (try (onward (λ u. return b) r) (onward (λ b. return (some b)))) (onward place))
          (λ node h.
            settle_moved (update (update before final none) b (some node)) b
              (update_other _ b staged _ bs
                ∙ update_other before final staged none (λ k. apart (sym k))
                ∙ there)
              (update_other _ b final _ bf ∙ update_self before final none)
              (update_self _ b (some node) ∙ sym h) bf bs (λ n k. cc (sym was ∙ k)))
          (λ x. untouched x)
      where
        bf : b ≢ final
        bf k = cc (sym free ∙ ap before k ∙ was)

        bs : b ≢ staged
        bs k = cc (sym free ∙ ap before k ∙ there)

    abbrev after_backup : IoResult (Unit {0}) → M (Unit {0})
    after_backup r = try (onward (λ u. return {A = Option Bytes} none) r) (onward place)

    rename_to_backup :
        (e : Entries)
        → e final ≡ before final
        → e staged ≡ before staged
        → Post (try (rename final (backup_of final)) after_backup) e Q
    rename_to_backup e was same =
        rename_rule final (backup_of final) e Q after_backup
          (λ node h.
            settle_nothing (moved_to node) (moved_to-staged node)
              (
                placed-final (moved_to node),
                placed-staged (moved_to node),
                λ k n old f.
                    placed-other (moved_to node) (backup_of final) (backup_of-ne final)
                      (λ y. sb (sym y))
                    ∙ update_self _ (backup_of final) (some node)
                    ∙ sym h
                    ∙ was
                    ∙ old,
              )
              (λ e' same'. inr (
                inr (
                  backup_of final,
                  same' final (λ k. apart (sym k))
                      ∙ update_other _ (backup_of final) final _ (backup_of-ne final)
                      ∙ update_self e final none,
                  same' (backup_of final) (λ k. sb (sym k))
                      ∙ update_self _ (backup_of final) (some node)
                      ∙ sym h
                      ∙ was,
                ))))
          (λ x rs c. inr (inl was))
      where
        moved_to : Node → Entries
        moved_to node = update (update e final none) (backup_of final) (some node)

        moved_to-staged : (node : Node) → moved_to node staged ≡ some (file content)
        moved_to-staged node =
            update_other (update e final none) (backup_of final) staged (some node)
              (λ k. sb (sym k))
            ∙ update_other e final staged none (λ k. apart (sym k))
            ∙ same
            ∙ there

    place_after_backup :
        Post (try (backup_existing final >>= λ u. return none) (onward place)) before Q
    unfolding backup_existing
    place_after_backup =
        symlink_metadata_rule (backup_of final) before Q
          (λ r.
            try
              (try (clear_backup (backup_of final) r)
                (onward (λ u. rename final (backup_of final))))
              after_backup)
          (λ node h.
            remove_file_rule (backup_of final) before Q
              (λ r. try (onward (λ u. rename final (backup_of final)) r) after_backup)
              (rename_to_backup (update before (backup_of final) none)
                (update_other before (backup_of final) final none (backup_of-ne final))
                (update_other before (backup_of final) staged none (λ k. sb (sym k))))
              (λ x. untouched x))
          (λ h. rename_to_backup before refl refl) (untouched other_error)

    place_file :
        (bk : Bool)
        → bk ≡ backup
        → Post
            (try
              (if bk then (backup_existing final >>= λ u. return none) else return none)
              (onward place))
            before
            Q
    place_file true h = place_after_backup
    place_file false h = place_over (λ k n old f. cc (h, k))

    -- Room for the name of what is moved aside
    abbrev HasRoom : Type 0
    HasRoom =
        (c : ℕ)
        → (i : ℕ) × (i < fuel)
          × (before (sibling names final (some (codes "backup")) (c + i)) ≡ none)

    install_After : HasRoom → Post (install_prepared_path names fuel staged final backup) before Q
    unfolding install_prepared_path move_aside
    install_After room =
        symlink_metadata_rule final before Q
          (λ r. try (make_way names fuel final backup r) (onward place)) found
          (λ h. place_over (λ k n old f. cc (sym h ∙ old))) (untouched other_error)
      where
        found :
            (node : Node)
            → before final ≡ some node
            → Post (try (make_way names fuel final backup (ok node)) (onward place)) before Q
        found (file b) h = place_file backup refl
        found (symlink b) h = place_file backup refl
        found (folder t) h = λ rs c.
            let (i, below, free) = room c in
            unique_sibling_path_rule names final (some (codes "backup")) before after_name Q
              (place_aside t h) (λ x. untouched x) fuel rs c i below free

-- As `After`, with the staged file that a success gives: it is marked as committed.
abbrev pub Committed : StagedFile → Bytes → Bool → Entries → IoResult StagedFile → Entries → Type 0
Committed f content backup before (ok f') after =
    After f.final_path f.staged_path content backup before (ok tt) after
    × (f' ≡ record f { committed = true })
Committed f content backup before (err x) after = Kept f.final_path content before after
Committed f content backup before stuck after = ⊥

module _ (f : StagedFile) (content : Bytes) (backup : Bool) (before : Entries) where
  marked :
      (r : IoResult (Unit {0})) (d : Disk)
      → After f.final_path f.staged_path content backup before r d.entries
      → Committed f content backup before
          ((onward (λ u. return (record f { committed = true })) r d).0)
          ((onward (λ u. return (record f { committed = true })) r d).1.entries)
  marked (ok u) d h = (h, refl)
  marked (err x) d h = h
  marked stuck d h = h

-- A commit of a staged file that was not committed, whose name is neither the destination nor its backup
-- name, where some name is free for what has to be moved aside, ends, whichever calls of the system are
-- refused. A success leaves the staged content at the destination, nothing at the staged name and, with
-- `backup`, a file that stood at the destination at its backup name, and marks the staged file. After an
-- error the destination has the staged content, or what it had before, or it is gone and what it had stands
-- under another name.
pub commit-Committed :
    (names : Naming) (fuel : ℕ) (f : StagedFile) (content : Bytes) (fsync backup : Bool)
    (before : Entries)
    → f.committed ≡ false
    → f.staged_path ≢ f.final_path
    → f.staged_path ≢ backup_of f.final_path
    → before f.staged_path ≡ some (file content)
    → ((c : ℕ)
        → (i : ℕ) × (i < fuel)
          × (before (sibling names f.final_path (some (codes "backup")) (c + i)) ≡ none))
    → Post (commit names fuel f fsync backup) before (Committed f content backup before)
unfolding commit symlink_metadata
commit-Committed names fuel f content fsync backup before fresh apart sb there room =
    rw fresh (either fsync)
  where
    rest : M StagedFile
    rest = install_prepared_path names fuel f.staged_path f.final_path backup >>= λ u.
        return (record f { committed = true })

    installed : Post rest before (Committed f content backup before)
    installed rs c = marked f content backup before _ _ (
        install_After f.final_path f.staged_path content apart backup before names fuel there sb
          room rs c)

    either :
        (b : Bool)
        → Post
            ((if b then sync f.staged_path else return tt) >> rest)
            before
            (Committed f content backup before)
    either false = installed
    either true =
        symlink_metadata_rule f.staged_path before (Committed f content backup before)
          (λ r. try (synced r) (onward (λ u. rest)))
          (λ node h.
            attempt_rule (λ e. (ok tt, e)) (onward (λ u. rest)) before
              (Committed f content backup before) (λ rs c. inr (inl refl)) installed)
          (λ h. installed) installed
