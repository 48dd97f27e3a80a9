-- ===== src/Env.antt =====
-- internal/service/env_bulk_linux.go and env_linux.go: the write of a whole batch of environment
-- variables.
pub mod Sealed
pub mod Values
pub mod Batch
pub mod Tests
use nrcc.Base.{
  ℕ, zero, suc, String, Bool, true, false, not, ◌&&◌, ◌||◌, Option, none, some, List, [], ◌∷◌,
  Result, ok, err, if◌then◌else◌, ◌==◌, str_eq,
}
use nrcc.Base.Texts.{Text, codes}
use nrcc.Store.{File, Write, update}

-- `EnvVar`
pub record EnvVar : Type 0 where
  pub key : String
  pub value : String
  pub value_type : String
  pub description : String
  pub encrypted : Bool
  pub source : String

-- `BulkEnvLine`
pub record BulkEnvLine : Type 0 where
  pub line : ℕ
  pub key : String
  pub value : String
  pub value_type : String

pub data EnvError : Type 0 where
  bad_key : String → EnvError
  bad_value : String → String → EnvError
  encryption_key_required : ℕ → String → EnvError
  encrypt_failed : String → String → EnvError
  disk_failed : String → EnvError

abbrev has_forbidden : Text → Bool
has_forbidden [] = false
has_forbidden (c ∷ t) = (c == 0) || (c == 13) || (c == 10) || (c == b'=') || has_forbidden t

-- `ValidateEnvKey`: whether the key is refused.
unfoldable pub refuses_key : String → Bool
refuses_key key = str_eq key "" || has_forbidden (codes key)

-- The library's functions that the values go through: whether a text parses as a float, trimming and
-- lower case, and the encryption, whose first argument stands for its random nonce.
pub record Library : Type 0 where
  pub parses_float : String → Bool
  pub trim_space : String → String
  pub to_lower : String → String
  pub encrypt : ℕ → String → String → Result String String

module _ (lib : Library) where
  -- `ValidateValue`: whether the value is refused for its type.
  unfoldable pub refuses_value : String → String → Bool
  refuses_value value value_type =
      if str_eq value_type "string" || str_eq value_type "secret"
      then false
      else if str_eq value_type "number"
      then str_eq value "" || not (lib.parses_float value)
      else if str_eq value_type "boolean"
      then (let lower = lib.to_lower (lib.trim_space value) in
          not (str_eq lower "true") && not (str_eq lower "false"))
      else true

  -- The value that is stored for a line, its encryption included.
  unfoldable pub stored_value : String → ℕ → BulkEnvLine → Result EnvError String
  stored_value encryption_key nonce l =
      if str_eq l.value_type "secret" && not (str_eq l.value "")
      then (if str_eq encryption_key ""
          then err (encryption_key_required l.line l.key)
          else (elim (lib.encrypt nonce l.value encryption_key) [
            | err e ↦ err (encrypt_failed l.key e)
            | ok sealed ↦ ok sealed
          ]))
      else ok l.value

  abbrev pub as_env_var : BulkEnvLine → String → EnvVar
  as_env_var l value = record {
    key = l.key;
    value = value;
    value_type = l.value_type;
    description = "bulk import";
    encrypted = str_eq l.value_type "secret";
    source = "";
  }

  unfoldable pub stage_line : String → ℕ → BulkEnvLine → Result EnvError EnvVar
  unfolding refuses_key refuses_value stored_value
  stage_line encryption_key nonce l =
      if refuses_key l.key
      then err (bad_key l.key)
      else if refuses_value l.value l.value_type
      then err (bad_value l.key l.value)
      else elim (stored_value encryption_key nonce l) [
        | err e ↦ err e
        | ok value ↦ ok (as_env_var l value)
      ]

  -- The first loop of `applyBulkEnvDirect`: each line with what is staged for it.
  abbrev staged_then :
      BulkEnvLine
      → Result EnvError EnvVar
      → Result EnvError (List (BulkEnvLine × EnvVar))
      → Result EnvError (List (BulkEnvLine × EnvVar))
  staged_then l (err e) rest = err e
  staged_then l (ok v) (err e) = err e
  staged_then l (ok v) (ok vs) = ok ((l, v) ∷ vs)

  unfoldable pub stage :
      String → ℕ → List BulkEnvLine → Result EnvError (List (BulkEnvLine × EnvVar))
  unfolding stage_line
  stage encryption_key nonce [] = ok []
  stage encryption_key nonce (l ∷ ls) =
      staged_then l (stage_line encryption_key nonce l) (stage encryption_key (suc nonce) ls)

-- An empty value keeps the encrypted one that is there.
unfoldable pub over : BulkEnvLine → EnvVar → EnvVar → EnvVar
over l new old =
    if str_eq l.value "" && old.encrypted then record new { value = old.value } else new

abbrev pub has_key : String → List EnvVar → Bool
has_key key [] = false
has_key key (v ∷ vs) = str_eq v.key key || has_key key vs

-- One round of the callback: the last entry of the key is replaced, as the index of a map is, or the new one
-- comes last.
unfoldable pub upsert : BulkEnvLine → EnvVar → List EnvVar → List EnvVar
unfolding over
upsert l new [] = new ∷ []
upsert l new (v ∷ vs) =
    let rest = upsert l new vs in
    if str_eq v.key new.key && not (has_key new.key vs) then over l new v ∷ vs else v ∷ rest

unfoldable pub upsert_all : List (BulkEnvLine × EnvVar) → List EnvVar → List EnvVar
unfolding upsert
upsert_all [] vars = vars
upsert_all ((l, v) ∷ staged) vars = upsert_all staged (upsert l v vars)

abbrev callback :
    List (BulkEnvLine × EnvVar) → List EnvVar → Result EnvError (Unit {0} × List EnvVar)
callback staged vars = ok (tt, upsert_all staged vars)

-- `applyBulkEnvDirect` on the variables of the stored configuration; whether it went as far as the
-- store comes first in its result.
unfoldable pub apply_bulk_env_direct :
    Library
    → String
    → ℕ
    → List BulkEnvLine
    → Write EnvError
    → File EnvError (List EnvVar)
    → File EnvError (List EnvVar) × (Bool × Result EnvError (Unit {0}))
unfolding stage upsert_all update
apply_bulk_env_direct lib encryption_key nonce lines disk f =
    elim (stage lib encryption_key nonce lines) [
      | err e ↦ (f, (false, err e))
      | ok staged ↦ let answer = update [] disk (callback staged) f in (answer.0, (true, answer.1))
    ]
