-- ===== src/Env/Batch.antt =====
-- internal/service/env_bulk_linux.go: what a batch leaves of the environment variables.
use nrcc.Base.{
  ℕ, suc, ◌≡◌, refl, ◌∙◌, ap, subst, inl, inr, String, Bool, true, false, Bool-cases, ◌||◌, List,
  [], ◌∷◌, Result, ok, err, str_eq, arith, Result-cases,
}
use nrcc.Store.{File, holds, Write, written, fails, update}
use nrcc.Env.{
  EnvVar, BulkEnvLine, EnvError, Library, stage_line, stage, upsert, upsert_all,
  apply_bulk_env_direct,
}
use nrcc.Env.Values.{Follows, ends, passes, sets, placed, find_env-upsert_self, stage_line-Becomes}
use nrcc.Env.Sealed.{find_env, AllSealed, stage_line-IsSealed, upsert-AllSealed, find_env-upsert}

abbrev pub names_key : String → List BulkEnvLine → Bool
names_key k [] = false
names_key k (l ∷ ls) = str_eq l.key k || names_key k ls

-- What a staged batch does to the variables.
record Batched (lib : Library) (encryption_key : String) (lines : List BulkEnvLine)
    (vs vs' : List EnvVar) : Type 0 where
  all_sealed : AllSealed lib vs → AllSealed lib vs'
  others : (k : String) → names_key k lines ≡ false → find_env k vs' ≡ find_env k vs
  follows : (k : String) → Follows lib encryption_key k lines (find_env k vs) (find_env k vs')

-- One more line before a batch.
Batched-upsert :
    (lib : Library) (encryption_key : String) (nonce : ℕ) (l : BulkEnvLine) (v : EnvVar)
    (ls : List BulkEnvLine) (vs vs' : List EnvVar)
    → stage_line lib encryption_key nonce l ≡ ok v
    → Batched lib encryption_key ls (upsert l v vs) vs'
    → Batched lib encryption_key (l ∷ ls) vs vs'
Batched-upsert lib encryption_key nonce l v ls vs vs' staged rest =
    let (n, k) = stage_line-IsSealed lib encryption_key nonce l v staged in
    let missed : (key : String)
        → str_eq l.key key ≡ false
        → find_env key (upsert l v vs) ≡ find_env key vs =
      λ key h. find_env-upsert key l v vs (ap (λ x. str_eq x key) k ∙ h) in
    record {
      all_sealed = λ h. rest.all_sealed (upsert-AllSealed lib l v vs n h);
      others = λ key h. rest.others key (ground arith) ∙ missed key (ground arith);
      follows = λ key. elim (Bool-cases (str_eq l.key key)) [
        | inr other ↦ passes l ls (find_env key vs) (find_env key vs') other (
            subst (λ o. Follows lib encryption_key key ls o (find_env key vs')) (missed key other)
              (rest.follows key))
        | inl same ↦
            sets l ls (find_env key vs) (find_env key vs') (placed l v (find_env key vs)) same
              (stage_line-Becomes lib encryption_key nonce l v (find_env key vs) staged)
              (subst (λ o. Follows lib encryption_key key ls o (find_env key vs'))
                (find_env-upsert_self key l v vs (ap (λ x. str_eq x key) k ∙ same))
                (rest.follows key))
      ];
    }

upsert_all-Batched :
    (lib : Library) (encryption_key : String) (nonce : ℕ) (lines : List BulkEnvLine)
    (staged : List (BulkEnvLine × EnvVar)) (vs : List EnvVar)
    → stage lib encryption_key nonce lines ≡ ok staged
    → Batched lib encryption_key lines vs (upsert_all staged vs)
unfolding stage upsert_all
upsert_all-Batched lib encryption_key nonce [] [] vs h = record {
  all_sealed = λ all. all;
  others = λ k none_named. refl;
  follows = λ k. ends (find_env k vs);
}
upsert_all-Batched lib encryption_key nonce [] (x ∷ xs) vs h = absurd cc
upsert_all-Batched lib encryption_key nonce (l ∷ ls) staged vs h =
    elim (Result-cases (stage_line lib encryption_key nonce l)) [
      | inr (e, bad) ↦ absurd (ground (arith, h))
      | inl (v, good) ↦ elim (Result-cases (stage lib encryption_key (suc nonce) ls)) [
        | inr (e, bad) ↦ absurd (ground (arith, h))
        | inl (more, fine) ↦
            let is : stage lib encryption_key nonce (l ∷ ls) ≡ ok ((l, v) ∷ more) =
              simp (stage, good, fine) in
            let same : (l, v) ∷ more ≡ staged = cc in
            subst (λ x. Batched lib encryption_key (l ∷ ls) vs (upsert_all x vs)) same
              (Batched-upsert lib encryption_key nonce l v ls vs (upsert_all more (upsert l v vs))
                good
                (upsert_all-Batched lib encryption_key (suc nonce) ls more (upsert l v vs) fine))
      ]
    ]

-- What a batch promises of the variables that are stored.
pub record IsApplied (lib : Library) (encryption_key : String) (lines : List BulkEnvLine)
    (vs : List EnvVar) (r : File EnvError (List EnvVar) × (Bool × Result EnvError (Unit {0})))
    : Type 0 where
  pub stored : List EnvVar
  pub is_stored : r.0 ≡ holds stored
  pub keeps_sealed : AllSealed lib vs → AllSealed lib stored
  pub refused : (e : EnvError) → r.1.1 ≡ err e → stored ≡ vs
  pub others : (k : String) → names_key k lines ≡ false → find_env k stored ≡ find_env k vs
  pub follows :
      r.1.1 ≡ ok tt
      → (k : String) → Follows lib encryption_key k lines (find_env k vs) (find_env k stored)

unchanged :
    (lib : Library) (encryption_key : String) (lines : List BulkEnvLine) (vs : List EnvVar)
    (went : Bool) (e : EnvError)
    → IsApplied lib encryption_key lines vs (holds vs, (went, err e))
unchanged lib encryption_key lines vs went e = record {
  stored = vs;
  is_stored = refl;
  keeps_sealed = λ all. all;
  refused = λ e' h. refl;
  others = λ k h. refl;
  follows = λ h. absurd cc;
}

-- For a store that can be read, a batch is written as a whole or not at all. An error, of a line or of the
-- disk, leaves the stored variables as they were. Without one, the entry of each key is what the lines that
-- name the key make of it one after the other: with the line's type, labelled as encrypted just for a secret,
-- and with the line's value, or for a secret with what the encryption made of it under a key that is not
-- empty; where the line's value is empty, with the value of the entry before it if that was labelled as
-- encrypted, and with the empty value otherwise. No other key changes. If each value labelled as encrypted was
-- empty or made by the encryption before, so it is after.
pub apply_bulk_env_direct-IsApplied :
    (lib : Library) (encryption_key : String) (nonce : ℕ) (lines : List BulkEnvLine)
    (disk : Write EnvError) (vs : List EnvVar)
    → IsApplied lib encryption_key lines vs
        (apply_bulk_env_direct lib encryption_key nonce lines disk (holds vs))
unfolding apply_bulk_env_direct update
apply_bulk_env_direct-IsApplied lib encryption_key nonce lines (fails e) vs =
    elim (Result-cases (stage lib encryption_key nonce lines)) [
      | inr (e', bad) ↦
          rw (bad, apply_bulk_env_direct) (unchanged lib encryption_key lines vs false e')
      | inl (staged, fine) ↦
          rw (fine, apply_bulk_env_direct) (unchanged lib encryption_key lines vs true e)
    ]
apply_bulk_env_direct-IsApplied lib encryption_key nonce lines written vs =
    elim (Result-cases (stage lib encryption_key nonce lines)) [
      | inr (e', bad) ↦
          rw (bad, apply_bulk_env_direct) (unchanged lib encryption_key lines vs false e')
      | inl (staged, fine) ↦
          let batch = upsert_all-Batched lib encryption_key nonce lines staged vs fine in
          rw (fine, apply_bulk_env_direct)
            (record {
              stored = upsert_all staged vs;
              is_stored = refl;
              keeps_sealed = batch.all_sealed;
              refused = λ e h. absurd cc;
              others = batch.others;
              follows = λ h. batch.follows;
            })
    ]
