-- ===== src/Env/Values.antt =====
-- internal/service/env_bulk_linux.go: the entry that each line of a batch makes of the one before it.
use nrcc.Base.{
  ℕ, ◌≡◌, refl, ◌∙◌, ap, subst, inl, inr, String, Bool, true, false, ◌&&◌, Option, none, some, List,
  [], ◌∷◌, ok, str_eq, eq_iff, arith, Bool-cases, Result-cases,
}
use nrcc.Env.{
  EnvVar, BulkEnvLine, Library, stored_value, as_env_var, stage_line, over, has_key, upsert,
}
use nrcc.Env.Sealed.{find_env, stage_line_lem, has_key-upsert, key-over}

abbrev pub is_secret : BulkEnvLine → Bool
is_secret l = str_eq l.value_type "secret"

abbrev pub has_sealed : Option EnvVar → Bool
has_sealed none = false
has_sealed (some v) = v.encrypted

abbrev pub value_in : Option EnvVar → String
value_in none = ""
value_in (some v) = v.value

-- What a line makes of the entry of its key.
pub record Becomes (lib : Library) (encryption_key : String) (l : BulkEnvLine)
    (before : Option EnvVar) (v : EnvVar) : Type 0 where
  pub named : v.key ≡ l.key
  pub typed : v.value_type ≡ l.value_type
  pub labelled : v.encrypted ≡ is_secret l
  pub given : str_eq l.value "" ≡ false → is_secret l ≡ false → v.value ≡ l.value
  pub sealed :
      str_eq l.value "" ≡ false
      → is_secret l ≡ true
      → (str_eq encryption_key "" ≡ false)
        × ((nonce : ℕ) × (lib.encrypt nonce l.value encryption_key ≡ ok v.value))
  pub kept : str_eq l.value "" ≡ true → has_sealed before ≡ true → v.value ≡ value_in before
  pub emptied : str_eq l.value "" ≡ true → has_sealed before ≡ false → v.value ≡ ""

-- The entry of a key along a batch, from what it was before to what it is after.
pub data Follows (lib : Library) (encryption_key key : String)
    : List BulkEnvLine → Option EnvVar → Option EnvVar → Type 0 where
  ends : (o : Option EnvVar) → Follows lib encryption_key key [] o o
  passes :
      (l : BulkEnvLine) (ls : List BulkEnvLine) (o o' : Option EnvVar)
      → str_eq l.key key ≡ false
      → Follows lib encryption_key key ls o o'
      → Follows lib encryption_key key (l ∷ ls) o o'
  sets :
      (l : BulkEnvLine) (ls : List BulkEnvLine) (o o' : Option EnvVar) (v : EnvVar)
      → str_eq l.key key ≡ true
      → Becomes lib encryption_key l o v
      → Follows lib encryption_key key ls (some v) o'
      → Follows lib encryption_key key (l ∷ ls) o o'

abbrev pub placed : BulkEnvLine → EnvVar → Option EnvVar → EnvVar
placed l new none = new
placed l new (some old) = over l new old

find_env_absent : (k : String) (vs : List EnvVar) → has_key k vs ≡ false → find_env k vs ≡ none
unfolding find_env
find_env_absent k [] h = refl
find_env_absent k (v ∷ vs) h = ground (arith, find_env_absent k vs)

pub find_env-upsert_self :
    (k : String) (l : BulkEnvLine) (new : EnvVar) (vs : List EnvVar)
    → str_eq new.key k ≡ true
    → find_env k (upsert l new vs) ≡ some (placed l new (find_env k vs))
unfolding find_env upsert
find_env-upsert_self k l new [] h = ground arith
find_env-upsert_self k l new (v ∷ vs) h = ground (
  arith,
  find_env-upsert_self k l new vs h,
  find_env_absent k vs,
  has_key-upsert k l new vs,
  key-over l new v,
  eq_iff v.key new.key,
  eq_iff v.key k,
  eq_iff new.key k,
)

-- How a value that is to be stored came to be.
record IsStoredFor (lib : Library) (encryption_key : String) (l : BulkEnvLine) (value : String)
    : Type 0 where
  plain : str_eq l.value "" ≡ true → value ≡ ""
  given : str_eq l.value "" ≡ false → is_secret l ≡ false → value ≡ l.value
  sealed :
      str_eq l.value "" ≡ false
      → is_secret l ≡ true
      → (str_eq encryption_key "" ≡ false)
        × ((nonce : ℕ) × (lib.encrypt nonce l.value encryption_key ≡ ok value))

stored_value-IsStoredFor :
    (lib : Library) (encryption_key : String) (nonce : ℕ) (l : BulkEnvLine) (value : String)
    → stored_value lib encryption_key nonce l ≡ ok value
    → IsStoredFor lib encryption_key l value
unfolding stored_value
stored_value-IsStoredFor lib encryption_key nonce l value h = record {
  plain = λ nothing. ground (arith, h, eq_iff l.value "");
  given = λ something other. ground (arith, h);
  sealed = λ something secret. elim (Bool-cases (str_eq encryption_key "")) [
    | inl no_key ↦ absurd (ground (arith, h))
    | inr keyed ↦ (
      keyed,
      (
        nonce,
        elim (Result-cases (lib.encrypt nonce l.value encryption_key)) [
          | inr (e, failed) ↦ absurd (ground (arith, h))
          | inl (c, made) ↦
              let is : stored_value lib encryption_key nonce l ≡ ok c =
                simp (stored_value, secret, something, keyed, made) in
              let same : c ≡ value = cc in made ∙ ap ok same
        ],
      ),
    )
  ];
}

placed-Becomes :
    (lib : Library) (encryption_key : String) (l : BulkEnvLine) (c : String)
    (before : Option EnvVar)
    → IsStoredFor lib encryption_key l c
    → Becomes lib encryption_key l before (placed l (as_env_var lib l c) before)
unfolding over
placed-Becomes lib encryption_key l c none s = record {
  named = refl;
  typed = refl;
  labelled = refl;
  given = s.given;
  sealed = s.sealed;
  kept = λ nothing there. cc;
  emptied = λ nothing there. s.plain nothing;
}
placed-Becomes lib encryption_key l c (some old) s =
    elim (Bool-cases (str_eq l.value "" && old.encrypted)) [
      | inl keeps ↦
          rw (keeps, over)
            (record {
              named = refl;
              typed = refl;
              labelled = refl;
              given = λ something other. absurd (ground arith);
              sealed = λ something secret. absurd (ground arith);
              kept = λ nothing there. refl;
              emptied = λ nothing there. absurd (ground arith);
            })
      | inr replaces ↦
          rw (replaces, over)
            (record {
              named = refl;
              typed = refl;
              labelled = refl;
              given = s.given;
              sealed = s.sealed;
              kept = λ nothing there. absurd (ground arith);
              emptied = λ nothing there. s.plain nothing;
            })
    ]

pub stage_line-Becomes :
    (lib : Library) (encryption_key : String) (nonce : ℕ) (l : BulkEnvLine) (v : EnvVar)
    (before : Option EnvVar)
    → stage_line lib encryption_key nonce l ≡ ok v
    → Becomes lib encryption_key l before (placed l v before)
stage_line-Becomes lib encryption_key nonce l v before h =
    let (c, made, same) = stage_line_lem lib encryption_key nonce l v h in
    subst (λ x. Becomes lib encryption_key l before (placed l x before)) same
      (placed-Becomes lib encryption_key l c before
        (stored_value-IsStoredFor lib encryption_key nonce l c made))
