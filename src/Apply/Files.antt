-- ===== src/Apply/Files.antt =====
-- internal/service/apply_atomic.go, apply.go: reading and replacing settings.js.
use nrcc.Base.{
  suc, ◌≡◌, refl, ◌∙◌, ap, inl, inr, ◌⊎◌, String, Bool, true, false, Option, none, some, [], ◌∷◌,
  ok, err, arith, str_eq, eq_iff, eq_refl, Option-cases,
}
use nrcc.Base.Assoc.{lookup, insert, erase, lookup-insert}
use nrcc.Apply.{
  World, Action, FileMap, Outside, WriteAnswers, Cause, path_invalid, next_tick, first_error,
  error_if, result_of,
}
use nrcc.Apply.Paths.{validate_settings_path}

-- The checks of `AtomicWriteSettings` up to the rename: nothing is published before they pass.
unfoldable pub prepare_error : WriteAnswers → Option Cause → String → Option Cause
prepare_error a cancelled path = first_error (
    error_if (str_eq path "") path_invalid
    ∷ validate_settings_path path
    ∷ a.mkdir_error
    ∷ a.tmp_error
    ∷ cancelled
    ∷ a.symlink_error
    ∷ a.rename_error
    ∷ [])

-- What follows the rename can fail too; the new content stays.
unfoldable pub finish_error : WriteAnswers → Option Cause
finish_error a = first_error (a.sync_error ∷ a.chmod_error ∷ [])

-- All but the file at the path is what it was.
abbrev pub Elsewhere : {S : Type 0} → String → World S → World S → Type 0
Elsewhere path w w' = (p : String) → str_eq p path ≡ false → lookup p w'.files ≡ lookup p w.files

insert_elsewhere :
    (path p content : String) (m : FileMap)
    → str_eq p path ≡ false
    → lookup p (insert path content m) ≡ lookup p m
insert_elsewhere path p content m other =
    ground (arith, lookup-insert path p content m, eq_iff path p, eq_iff p path)

pub insert_there :
    {S : Type 0} (path content : String) (w w' : World S)
    → w'.files ≡ insert path content w.files
    → lookup path w'.files ≡ some content
insert_there path content w w' files =
    ap (lookup path) files ∙ ground (arith, lookup-insert path path content w.files, eq_refl path)

module _ {S : Type 0} (out : Outside) where
  -- `os.ReadFile`: nothing stands there, it cannot be read, or its content.
  unfoldable pub read_file : String → Action S (Option String)
  read_file path w = elim (lookup path w.files) [
    | none ↦ (next_tick w, ok none)
    | some content ↦ (next_tick w, result_of (out.read_error w.tick) (some content))
  ]

  -- `AtomicWriteSettings`; the temporary file beside the path is not tracked.
  unfoldable pub atomic_write_settings : String → String → Action S (Unit {0})
  atomic_write_settings path content w =
      let a = out.write_answers w.tick in
      elim (prepare_error a (out.cancelled w.tick) path) [
        | some e ↦ (next_tick w, err e)
        | none ↦ (
          record w { files = insert path content w.files; tick = suc w.tick },
          result_of (finish_error a) tt,
        )
      ]

  -- `restoreSourceBytes`: put the old content back, or take away a file that was not there.
  -- `remove_error` is an error other than that there is no such file, which the source ignores.
  unfoldable pub restore_source_bytes : String → String → Bool → Action S (Unit {0})
  unfolding atomic_write_settings
  restore_source_bytes path previous true w = atomic_write_settings path previous w
  restore_source_bytes path previous false w = elim (out.remove_error w.tick) [
    | some e ↦ (next_tick w, err e)
    | none ↦ (record w { files = erase path w.files; tick = suc w.tick }, ok tt)
  ]

  -- A read changes nothing, and answers with what stands at the path.
  pub read_file_still :
      (path : String) (w : World S)
      → ((read_file path w).0.files ≡ w.files)
        × ((read_file path w).0.store ≡ w.store)
        × ((read_file path w).0.audit ≡ w.audit)
        × ((c : Option String) → (read_file path w).1 ≡ ok c → c ≡ lookup path w.files)
  unfolding read_file
  read_file_still path w = elim (Option-cases (lookup path w.files)) [
    | inl absent ↦ rw (absent, read_file) (refl, refl, refl, λ c h. cc)
    | inr (content, found) ↦ rw (found, read_file) (refl, refl, refl, λ c h. ground arith)
  ]

  -- A write touches nothing but the file at its path. It puts the whole new content there, or
  -- fails and leaves the file as it was; where it fails after the rename the new content stays.
  pub atomic_write_settings_outcome :
      (path content : String) (w : World S)
      → let r = atomic_write_settings path content w in
        (r.0.store ≡ w.store)
        × (r.0.audit ≡ w.audit)
        × (((r.0.files ≡ w.files) × ((e : Cause) × (r.1 ≡ err e)))
            ⊎ (r.0.files ≡ insert path content w.files))
  unfolding atomic_write_settings
  atomic_write_settings_outcome path content w =
      elim (Option-cases (prepare_error (out.write_answers w.tick) (out.cancelled w.tick) path)) [
        | inl passed ↦ rw (passed, atomic_write_settings) (refl, refl, inr refl)
        | inr (e, failed) ↦ rw (failed, atomic_write_settings) (refl, refl, inl (refl, (e, refl)))
      ]

  pub atomic_write_settings-Elsewhere :
      (path content : String) (w : World S)
      → Elsewhere path w (atomic_write_settings path content w).0
  atomic_write_settings-Elsewhere path content w p other =
      let (store, audit, ended) = atomic_write_settings_outcome path content w in
      elim ended [
        | inl (files, failed) ↦ ap (lookup p) files
        | inr files ↦ ap (lookup p) files ∙ insert_elsewhere path p content w.files other
      ]

  pub atomic_write_settings_done :
      (path content : String) (w : World S) (a : Unit {0})
      → (atomic_write_settings path content w).1 ≡ ok a
      → lookup path (atomic_write_settings path content w).0.files ≡ some content
  atomic_write_settings_done path content w a h =
      let (store, audit, ended) = atomic_write_settings_outcome path content w in
      elim ended [
        | inl (files, (e, bad)) ↦ cc
        | inr files ↦ insert_there path content w (atomic_write_settings path content w).0 files
      ]
