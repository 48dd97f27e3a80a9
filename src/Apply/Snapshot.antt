-- ===== src/Apply/Snapshot.antt =====
-- internal/service/apply_snapshot.go: the recovery point that is taken before a write.
use Prim.Native.String.{◌++◌}
use nrcc.Base.{
  ℕ, zero, suc, ◌≡◌, refl, inl, inr, ◌⊎◌, String, Bool, true, false, Option, none, some, Result, ok,
  err, arith, if◌then◌else◌, str_eq, eq_iff, eq_refl, ◌∙◌, subst, Option-cases, Bool-cases,
  Result-cases,
}
use nrcc.Base.Assoc.{lookup, insert, lookup-insert}
use nrcc.Apply.{
  World, Action, FileMap, Outside, Cause, backup_dir_required, snapshot_attempts_exhausted,
  next_tick,
}

abbrev pub settings_snapshot_attempts : ℕ
settings_snapshot_attempts = 8

-- `filepath.Join` of a clean directory and a file name.
unfoldable pub join_path : String → String → String
join_path dir name =
    if str_eq dir "." then name else if str_eq dir "/" then "/" ++ name else dir ++ "/" ++ name

abbrev is_some : Option String → Bool
is_some none = false
is_some (some c) = true

pub data Created : Type 0 where
  made name_taken : Created
  failed : Cause → Created

module _ {S : Type 0} (out : Outside) where
  -- `writeFileExclusive`: an existing file is refused; a file that could not be written in full is
  -- removed, and where the removal fails too, what was written stays; a failed sync of the directory leaves the file.
  unfoldable pub write_file_exclusive : String → String → World S → World S × Created
  write_file_exclusive path content w =
      let a = out.create_answers w.tick in
      let filled = record w { files = insert path content w.files; tick = suc w.tick } in
      elim a.open_error [
        | some e ↦ (next_tick w, failed e)
        | none ↦
            if is_some (lookup path w.files)
            then (next_tick w, name_taken)
            else elim a.write_error [
              | some e ↦ (
                elim a.left_behind [
                  | none ↦ next_tick w
                  | some part ↦ record w { files = insert path part w.files; tick = suc w.tick }
                ],
                failed e,
              )
              | none ↦ (filled, elim a.sync_dir_error [ none ↦ made | some e ↦ failed e ])
            ]
      ]

  -- The loop of `writeSettingsSnapshotNamed`, with the attempts left: a taken name draws a new one.
  unfoldable pub try_names : ℕ → String → String → Action S String
  unfolding write_file_exclusive join_path
  try_names zero dir content w = (w, err snapshot_attempts_exhausted)
  try_names (suc left) dir content w = elim (out.random_name w.tick) [
    | err e ↦ (next_tick w, err e)
    | ok name ↦
        let target = join_path dir name in
        let (w', created) = write_file_exclusive target content (next_tick w) in
        let again = try_names left dir content w' in
        elim created [ made ↦ (w', ok target) | failed e ↦ (w', err e) | name_taken ↦ again ]
  ]

  -- `writeSettingsSnapshot`
  unfoldable pub write_settings_snapshot : String → String → Action S String
  unfolding try_names
  write_settings_snapshot dir content w =
      if str_eq dir "" then (w, err backup_dir_required) else elim (out.mkdir_error w.tick) [
        | some e ↦ (next_tick w, err e)
        | none ↦ try_names settings_snapshot_attempts dir content (next_tick w)
      ]

-- Every file that stood before stands after, with its content.
abbrev pub Keeps : FileMap → FileMap → Type 0
Keeps m m' = (path content : String) → lookup path m ≡ some content → lookup path m' ≡ some content

-- What a snapshot leaves: the store, the audit trail and every file as they were; and the target,
-- if it succeeded, was free and holds the content.
pub record Taken {S : Type 0} (content : String) (w : World S) (r : World S × Result Cause String)
    : Type 0 where
  pub same_store : r.0.store ≡ w.store
  pub same_audit : r.0.audit ≡ w.audit
  pub keeps : Keeps w.files r.0.files
  pub holds :
      (target : String)
      → r.1 ≡ ok target
      → (lookup target w.files ≡ none) × (lookup target r.0.files ≡ some content)

Created-cases : (c : Created) → (c ≡ made) ⊎ ((c ≡ name_taken) ⊎ ((e : Cause) × (c ≡ failed e)))
Created-cases made = inl refl
Created-cases name_taken = inr (inl refl)
Created-cases (failed e) = inr (inr (e, refl))

-- What was free after a step that keeps every file was free before it.
free_before :
    (m m' : FileMap) (path : String) → Keeps m m' → lookup path m' ≡ none → lookup path m ≡ none
free_before m m' path keeps free = elim (Option-cases (lookup path m)) [
  | inl absent ↦ absent
  | inr (c, there) ↦ cc (keeps path c there)
]

refused :
    {S : Type 0} (content : String) (w w' : World S) (e : Cause)
    → w'.store ≡ w.store
    → w'.audit ≡ w.audit
    → Keeps w.files w'.files
    → Taken content w (w', err e)
refused content w w' e store audit keeps = record {
  same_store = store;
  same_audit = audit;
  keeps = keeps;
  holds = λ t h. cc;
}

insert-Keeps :
    (path content : String) (m : FileMap) → lookup path m ≡ none → Keeps m (insert path content m)
insert-Keeps path content m free p c h =
    ground (arith, free, lookup-insert path p content m, eq_iff path p)

module _ {S : Type 0} (out : Outside) where
  pub write_file_exclusive-Keeps :
      (path content : String) (w : World S)
      → let r = write_file_exclusive out path content w in
        (r.0.store ≡ w.store)
        × (r.0.audit ≡ w.audit)
        × Keeps w.files r.0.files
        × (r.1 ≡ made → (lookup path w.files ≡ none) × (lookup path r.0.files ≡ some content))
  unfolding write_file_exclusive
  write_file_exclusive-Keeps path content w =
      elim (Option-cases (out.create_answers w.tick).open_error) [
        | inr (e, bad) ↦ rw (bad, write_file_exclusive) (refl, refl, λ p c h. h, λ h. cc)
        | inl fine ↦
            rw (fine, write_file_exclusive)
              (elim (Option-cases (lookup path w.files)) [
                | inr (old, there) ↦ rw there (refl, refl, λ p c h. h, λ h. cc)
                | inl free ↦ rw free (elim (Option-cases (out.create_answers w.tick).write_error) [
                  | inr (e, bad) ↦
                      rw bad (elim (Option-cases (out.create_answers w.tick).left_behind) [
                        | inl clean ↦ rw clean (refl, refl, λ p c h. h, λ h. cc)
                        | inr (part, stays) ↦
                            rw stays
                              (refl, refl, insert-Keeps path part w.files free, λ h. absurd cc)
                      ])
                  | inl full ↦ rw full (
                    refl,
                    refl,
                    insert-Keeps path content w.files free,
                    λ h. (
                      refl,
                      ground (arith, lookup-insert path path content w.files, eq_refl path),
                    ),
                  )
                ])
              ])
      ]

  try_names-Taken :
      (left : ℕ) (dir content : String) (w : World S)
      → Taken content w (try_names out left dir content w)
  unfolding try_names
  try_names-Taken zero dir content w =
      refused content w w snapshot_attempts_exhausted refl refl (λ p c h. h)
  try_names-Taken (suc left) dir content w = elim (Result-cases (out.random_name w.tick)) [
    | inr (e, bad) ↦ rw (bad, try_names) (refused content w (next_tick w) e refl refl (λ p c h. h))
    | inl (name, drawn) ↦
        let target = join_path dir name in
        let r = write_file_exclusive out target content (next_tick w) in
        let (store, audit, keeps, full) = write_file_exclusive-Keeps target content (next_tick w) in
        rw (drawn, try_names)
          (elim (Created-cases r.1) [
            | inl new ↦ rw new (record {
              same_store = store;
              same_audit = audit;
              keeps = keeps;
              holds = λ t h.
                  subst (λ p. (lookup p w.files ≡ none) × (lookup p r.0.files ≡ some content)) (cc)
                    (full new);
            })
            | inr (inr (e, bad)) ↦ rw bad (refused content w r.0 e store audit keeps)
            | inr (inl taken) ↦
                let rest = try_names-Taken left dir content r.0 in
                rw taken (record {
                  same_store = rest.same_store ∙ store;
                  same_audit = rest.same_audit ∙ audit;
                  keeps = λ p c h. rest.keeps p c (keeps p c h);
                  holds = λ t h.
                      let (free, held) = rest.holds t h in
                      (free_before w.files r.0.files t keeps free, held);
                })
          ])
  ]

  -- A snapshot changes neither the store nor the audit trail nor any file that was there; where it
  -- succeeds its file is a new one and holds exactly the given content.
  pub write_settings_snapshot-Taken :
      (dir content : String) (w : World S)
      → Taken content w (write_settings_snapshot out dir content w)
  unfolding write_settings_snapshot
  write_settings_snapshot-Taken dir content w = elim (Bool-cases (str_eq dir "")) [
    | inl empty ↦
        rw (empty, write_settings_snapshot)
          (refused content w w backup_dir_required refl refl (λ p c h. h))
    | inr named ↦
        rw (named, write_settings_snapshot)
          (elim (Option-cases (out.mkdir_error w.tick)) [
            | inr (e, bad) ↦ rw bad (refused content w (next_tick w) e refl refl (λ p c h. h))
            | inl fine ↦
                let rest = try_names-Taken settings_snapshot_attempts dir content (next_tick w) in
                rw fine (record {
                  same_store = rest.same_store;
                  same_audit = rest.same_audit;
                  keeps = rest.keeps;
                  holds = rest.holds;
                })
          ])
  ]
