-- ===== src/Env/Sealed.antt =====
-- internal/service/env_bulk_linux.go: values that are labelled as encrypted, and the round of one variable.
use nrcc.Base.{
  ℕ, ◌≡◌, refl, sym, ◌∙◌, ap, subst, inl, inr, String, true, false, not, ◌&&◌, ◌||◌, Option, none,
  some, List, [], ◌∷◌, ok, if◌then◌else◌, str_eq, eq_iff, arith, Bool-cases, Result-cases,
}
use nrcc.Env.{
  EnvVar, BulkEnvLine, Library, refuses_key, refuses_value, stored_value, as_env_var, stage_line,
  over, has_key, upsert,
}

-- The entry of a key that counts, which is its last one.
unfoldable pub find_env : String → List EnvVar → Option EnvVar
find_env key [] = none
find_env key (v ∷ vs) =
    let found = find_env key vs in
    if has_key key vs then found else if str_eq v.key key then some v else none

-- A value that is labelled as encrypted is empty or one that the encryption made.
pub data IsSealed (lib : Library) (v : EnvVar) : Type 0 where
  plain : v.encrypted ≡ false → IsSealed lib v
  empty : v.value ≡ "" → IsSealed lib v
  sealed :
      (nonce : ℕ) (text encryption_key : String)
      → lib.encrypt nonce text encryption_key ≡ ok v.value
      → IsSealed lib v

pub data AllSealed (lib : Library) : List EnvVar → Type 0 where
  none_left : AllSealed lib []
  and_sealed :
      (v : EnvVar) (vs : List EnvVar) → IsSealed lib v → AllSealed lib vs → AllSealed lib (v ∷ vs)

stored_value-IsSealed :
    (lib : Library) (encryption_key : String) (nonce : ℕ) (l : BulkEnvLine) (value : String)
    → stored_value lib encryption_key nonce l ≡ ok value
    → IsSealed lib (as_env_var lib l value)
unfolding stored_value
stored_value-IsSealed lib encryption_key nonce l value h =
    elim (Bool-cases (str_eq l.value_type "secret")) [
      | inr other ↦ plain other
      | inl secret ↦ elim (Bool-cases (str_eq l.value "")) [
        | inl nothing ↦
            let is : stored_value lib encryption_key nonce l ≡ ok l.value =
              simp (stored_value, secret, nothing) in
            let same : l.value ≡ value = cc in empty (sym same ∙ (eq_iff l.value "").0 nothing)
        | inr something ↦ elim (Bool-cases (str_eq encryption_key "")) [
          | inl no_key ↦ absurd (ground (arith, h))
          | inr keyed ↦ elim (Result-cases (lib.encrypt nonce l.value encryption_key)) [
            | inr (e, failed) ↦ absurd (ground (arith, h))
            | inl (c, made) ↦
                let is : stored_value lib encryption_key nonce l ≡ ok c =
                  simp (stored_value, secret, something, keyed, made) in
                let same : c ≡ value = cc in sealed nonce l.value encryption_key (made ∙ ap ok same)
          ]
        ]
      ]
    ]

-- A line that is staged, with the value stored for it.
pub stage_line_lem :
    (lib : Library) (encryption_key : String) (nonce : ℕ) (l : BulkEnvLine) (v : EnvVar)
    → stage_line lib encryption_key nonce l ≡ ok v
    → (c : String) × (stored_value lib encryption_key nonce l ≡ ok c) × (as_env_var lib l c ≡ v)
unfolding stage_line
stage_line_lem lib encryption_key nonce l v h = elim (Bool-cases (refuses_key l.key)) [
  | inl bad ↦ absurd (ground (arith, h))
  | inr fine ↦ elim (Bool-cases (refuses_value lib l.value l.value_type)) [
    | inl bad ↦ absurd (ground (arith, h))
    | inr good ↦ elim (Result-cases (stored_value lib encryption_key nonce l)) [
      | inr (e, failed) ↦ absurd (ground (arith, h))
      | inl (c, made) ↦
          let is : stage_line lib encryption_key nonce l ≡ ok (as_env_var lib l c) =
            simp (stage_line, fine, good, made) in
          (c, made, cc)
    ]
  ]
]

pub stage_line-IsSealed :
    (lib : Library) (encryption_key : String) (nonce : ℕ) (l : BulkEnvLine) (v : EnvVar)
    → stage_line lib encryption_key nonce l ≡ ok v
    → IsSealed lib v × (v.key ≡ l.key)
stage_line-IsSealed lib encryption_key nonce l v h =
    let (c, made, same) = stage_line_lem lib encryption_key nonce l v h in
    (
      subst (IsSealed lib) same (stored_value-IsSealed lib encryption_key nonce l c made),
      ap (λ x. x.key) (sym same),
    )

kept_value :
    (lib : Library) (new old : EnvVar)
    → old.encrypted ≡ true
    → IsSealed lib old
    → IsSealed lib (record new { value = old.value })
kept_value lib new old h (plain p) = absurd (ground arith)
kept_value lib new old h (empty e) = empty e
kept_value lib new old h (sealed nonce text encryption_key made) =
    sealed nonce text encryption_key made

over-IsSealed :
    (lib : Library) (l : BulkEnvLine) (new old : EnvVar)
    → IsSealed lib new
    → IsSealed lib old
    → IsSealed lib (over l new old)
unfolding over
over-IsSealed lib l new old n o = elim (Bool-cases (str_eq l.value "" && old.encrypted)) [
  | inr replaced ↦ rw (over, replaced) n
  | inl kept ↦ rw (over, kept) (kept_value lib new old (ground arith) o)
]

pub upsert-AllSealed :
    (lib : Library) (l : BulkEnvLine) (new : EnvVar) (vs : List EnvVar)
    → IsSealed lib new
    → AllSealed lib vs
    → AllSealed lib (upsert l new vs)
unfolding upsert
upsert-AllSealed lib l new [] n all = and_sealed new [] n none_left
upsert-AllSealed lib l new (v ∷ vs) n (and_sealed _ _ h all) =
    elim (Bool-cases (str_eq v.key new.key && not (has_key new.key vs))) [
      | inl here ↦
          rw (upsert, here) (and_sealed (over l new v) vs (over-IsSealed lib l new v n h) all)
      | inr there ↦
          rw (upsert, there)
            (and_sealed v (upsert l new vs) h (upsert-AllSealed lib l new vs n all))
    ]

pub key-over : (l : BulkEnvLine) (new old : EnvVar) → (over l new old).key ≡ new.key
unfolding over
key-over l new old = elim (Bool-cases (str_eq l.value "" && old.encrypted)) [
  | inl kept ↦ rw (over, kept) refl
  | inr replaced ↦ rw (over, replaced) refl
]

pub has_key-upsert :
    (k : String) (l : BulkEnvLine) (new : EnvVar) (vs : List EnvVar)
    → has_key k (upsert l new vs) ≡ (has_key k vs || str_eq new.key k)
unfolding upsert
has_key-upsert k l new [] = ground arith
has_key-upsert k l new (v ∷ vs) = ground (
  arith,
  has_key-upsert k l new vs,
  key-over l new v,
  eq_iff v.key new.key,
  eq_iff v.key k,
  eq_iff new.key k,
)

pub find_env-upsert :
    (k : String) (l : BulkEnvLine) (new : EnvVar) (vs : List EnvVar)
    → str_eq new.key k ≡ false
    → find_env k (upsert l new vs) ≡ find_env k vs
unfolding find_env upsert
find_env-upsert k l new [] h = ground arith
find_env-upsert k l new (v ∷ vs) h = ground (
  arith,
  find_env-upsert k l new vs,
  has_key-upsert k l new vs,
  key-over l new v,
  eq_iff v.key new.key,
  eq_iff v.key k,
)
