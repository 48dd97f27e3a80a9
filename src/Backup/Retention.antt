-- ===== src/Backup/Retention.antt =====
-- internal/service/backup.go: what pruning keeps, and what a configuration becomes.
use nrcc.Base.{
  ℕ, suc, ◌≤◌, ◌≡◌, refl, sym, ◌∙◌, ap, inl, inr, String, Bool, true, false, not, ◌&&◌, none, some,
  List, [], ◌∷◌, leb, str_eq, eq_iff, arith, keep_if, count_if, length, drop, Bool-cases,
}
use nrcc.Backup.{
  BackupType, same_type, Backup, pos, BackupConfig, sort_newest, retention_for_type, RemoveAnswer,
  failed, without_id, Pruned, pruned_one, prune_loop, prune_to, prune_backups,
}
use nrcc.Backup.Order.{Listed, past_limit_of}
use nrcc.Backup.Counts.{
  has_id, count_if-sort_newest, count_if-keep_if, count_if-drop, left_by, keep_if-keep_if,
  keep_if-all, keep_if-ext, count_if_mono, count_if-ext, length-keep_if, ids_of,
}

-- Still to be removed: neither removed nor the one to keep.
abbrev pending : String → List String → Backup → Bool
pending keep_id ids b = not (has_id b.id ids) && not (str_eq b.id keep_id)

-- What the loop over `bs` does to a directory.
record Prunes (keep_id : String) (dir bs : List Backup) (r : Pruned) : Type 0 where
  leaves : r.0 ≡ left_by r.1 dir
  complete : r.2 ≡ none → count_if (pending keep_id r.1) bs ≡ 0
  listed :
      (key : String)
      → has_id key r.1 ≡ true
      → (has_id key (ids_of bs) ≡ true) × (str_eq key keep_id ≡ false)

prune_loop-skip :
    (keep_id : String) (dir bs : List Backup) (b : Backup) (r : Pruned)
    → str_eq b.id keep_id ≡ true
    → Prunes keep_id dir bs r
    → Prunes keep_id dir (b ∷ bs) r
prune_loop-skip keep_id dir bs b r same rest = record {
  leaves = rest.leaves;
  complete = λ h. ground (arith, rest.complete h);
  listed = λ key h. ground (arith, rest.listed key h);
}

prune_loop-take :
    (keep_id : String) (dir bs : List Backup) (b : Backup) (r : Pruned)
    → str_eq b.id keep_id ≡ false
    → Prunes keep_id dir bs r
    → Prunes keep_id dir (b ∷ bs) (pruned_one b.id r)
prune_loop-take keep_id dir bs b (d, ids, e) other rest = record {
  leaves =
      ap (without_id b.id) rest.leaves
      ∙ keep_if-keep_if (λ c. not (str_eq c.id b.id)) (λ c. not (has_id c.id ids)) dir
      ∙ keep_if-ext (λ c. not (has_id c.id ids) && not (str_eq c.id b.id))
          (λ c. not (has_id c.id (b.id ∷ ids))) dir (λ c. ground arith);
  complete = λ h.
      let fewer =
        count_if_mono (pending keep_id (b.id ∷ ids)) (pending keep_id ids) bs
          (λ c k. ground arith) in
      ground (arith, rest.complete h, fewer, (eq_iff b.id b.id).1 refl);
  listed = λ key h. ground (arith, rest.listed key, eq_iff key b.id);
}

answered-Prunes :
    (a : RemoveAnswer) (keep_id : String) (dir bs : List Backup) (b : Backup) (r : Pruned)
    → str_eq b.id keep_id ≡ false
    → Prunes keep_id dir bs r
    → Prunes keep_id dir (b ∷ bs) (elim a [ failed e ↦ (dir, [], some e) | _ ↦ pruned_one b.id r ])
answered-Prunes (failed e) keep_id dir bs b r other rest = record {
  leaves = sym (keep_if-all dir);
  complete = λ h. cc;
  listed = λ key h. cc;
}
answered-Prunes _ keep_id dir bs b r other rest = prune_loop-take keep_id dir bs b r other rest

prune_loop-Prunes :
    (answers : String → RemoveAnswer) (keep_id : String) (dir bs : List Backup)
    → Prunes keep_id dir bs (prune_loop answers keep_id dir bs)
unfolding prune_loop
prune_loop-Prunes answers keep_id dir [] = record {
  leaves = sym (keep_if-all dir);
  complete = λ h. refl;
  listed = λ key h. cc;
}
prune_loop-Prunes answers keep_id dir (b ∷ bs) =
    let rest = prune_loop-Prunes answers keep_id dir bs in
    elim (Bool-cases (str_eq b.id keep_id)) [
      | inl same ↦
          rw same (prune_loop-skip keep_id dir bs b (prune_loop answers keep_id dir bs) same rest)
      | inr other ↦ rw other (
          answered-Prunes (answers b.id) keep_id dir bs b (prune_loop answers keep_id dir bs) other
            rest)
    ]

-- What pruning promises of a directory for a limit.
pub record IsPruned (backup_type : BackupType) (keep_id : String) (limit : ℕ) (dir : List Backup)
    (r : Pruned) : Type 0 where
  pub within :
      r.2 ≡ none
      → count_if (λ b. same_type b.backup_type backup_type && not (str_eq b.id keep_id)) r.0 ≤ limit
  pub leaves : r.0 ≡ left_by r.1 dir
  pub only_old :
      (key : String)
      → has_id key r.1 ≡ true
      → (str_eq key keep_id ≡ false)
        × ((b : Backup) × Listed b dir
            × (b.id ≡ key)
            × (same_type b.backup_type backup_type ≡ true)
            × (suc limit
                ≤ count_if
                    (λ c. same_type c.backup_type backup_type && leb b.created_at c.created_at)
                    dir))

within_limit :
    (backup_type : BackupType) (keep_id : String) (limit : ℕ) (dir : List Backup) (r : Pruned)
    → Prunes keep_id dir
        (drop limit (sort_newest (keep_if (λ b. same_type b.backup_type backup_type) dir)))
        r
    → r.2 ≡ none
    → count_if (λ b. same_type b.backup_type backup_type && not (str_eq b.id keep_id)) r.0 ≤ limit
within_limit backup_type keep_id limit dir (d, ids, e) loop h =
    let typed : Backup → Bool = λ b. same_type b.backup_type backup_type in
    let kept : Backup → Bool = λ b. typed b && not (str_eq b.id keep_id) in
    let sorted = sort_newest (keep_if typed dir) in
    let counts : count_if kept d ≡ count_if (pending keep_id ids) sorted =
      ap (count_if kept) loop.leaves
      ∙ count_if-keep_if kept (λ b. not (has_id b.id ids)) dir
      ∙ count_if-ext (λ b. kept b && not (has_id b.id ids)) (λ b. pending keep_id ids b && typed b)
          dir (λ b. ground arith)
      ∙ sym (count_if-keep_if (pending keep_id ids) typed dir)
      ∙ sym (count_if-sort_newest (pending keep_id ids) (keep_if typed dir)) in
    omega (arith, counts, count_if-drop (pending keep_id ids) limit sorted, loop.complete h)

prune_to-IsPruned :
    (answers : String → RemoveAnswer) (backup_type : BackupType) (keep_id : String) (limit : ℕ)
    (dir : List Backup)
    → IsPruned backup_type keep_id limit dir (prune_to answers backup_type keep_id limit dir)
unfolding prune_to
prune_to-IsPruned answers backup_type keep_id limit dir =
    let typed : Backup → Bool = λ b. same_type b.backup_type backup_type in
    let old = drop limit (sort_newest (keep_if typed dir)) in
    elim (Bool-cases (leb (length (keep_if typed dir)) limit)) [
      | inl few ↦ rw few (record {
        within = λ h.
            let fewer =
              count_if_mono (λ b. typed b && not (str_eq b.id keep_id)) typed dir
                (λ b k. ground arith) in
            ground (arith, fewer, length-keep_if typed dir);
        leaves = sym (keep_if-all dir);
        only_old = λ key h. cc;
      })
      | inr many ↦
          let loop = prune_loop-Prunes answers keep_id dir old in
          rw many (record {
            within =
                within_limit backup_type keep_id limit dir (prune_loop answers keep_id dir old)
                  loop;
            leaves = loop.leaves;
            only_old = λ key h.
                ((loop.listed key h).1, past_limit_of typed limit key dir (loop.listed key h).0);
          })
    ]

-- Where the configuration keeps some number of the backups of a type above zero, pruning that succeeds
-- leaves at most that number of them besides the one to keep. Whether it succeeds or not, it removes just
-- the ids that it reports; each is the id of a backup of the type in the directory, not the one to keep, and
-- the directory has at least that number of other backups of the type that were created at the same time or
-- later.
pub prune_backups-IsPruned :
    (answers : String → RemoveAnswer) (cfg : BackupConfig) (backup_type : BackupType)
    (keep_id : String) (n : ℕ) (dir : List Backup)
    → retention_for_type cfg backup_type ≡ pos (suc n)
    → IsPruned backup_type keep_id (suc n) dir (prune_backups answers cfg backup_type keep_id dir)
unfolding prune_backups
prune_backups-IsPruned answers cfg backup_type keep_id n dir h =
    rw (h, prune_backups) (prune_to-IsPruned answers backup_type keep_id (suc n) dir)
