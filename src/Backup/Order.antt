-- ===== src/Backup/Order.antt =====
-- internal/service/backup.go: what stands past a limit in the order of pruning is old.
use nrcc.Base.{
  ℕ, zero, suc, ◌≤◌, ◌≡◌, refl, sym, ◌∙◌, subst, inl, inr, ◌⊎◌, String, Bool, true, false, ◌&&◌,
  List, [], ◌∷◌, leb, str_eq, eq_iff, arith, keep_if, count_if, drop, Bool-cases,
}
use nrcc.Backup.{Backup, is_newer, place, sort_newest}
use nrcc.Backup.Counts.{has_id, ids_of, count_if-sort_newest, count_if-keep_if, count_if-ext}

abbrev pub Listed : Backup → List Backup → Type 0
Listed b [] = ⊥
Listed b (c ∷ cs) = (c ≡ b) ⊎ Listed b cs

-- Created at the time or before it.
abbrev AllBy : ℕ → List Backup → Type 0
AllBy t [] = Unit
AllBy t (b ∷ bs) = (b.created_at ≤ t) × AllBy t bs

abbrev IsDescending : List Backup → Type 0
IsDescending [] = Unit
IsDescending (b ∷ bs) = AllBy b.created_at bs × IsDescending bs

newer_is_later : (a b : Backup) → is_newer a b ≡ true → b.created_at ≤ a.created_at
unfolding is_newer
newer_is_later a b h = ground arith

else_earlier : (a b : Backup) → is_newer a b ≡ false → a.created_at ≤ b.created_at
unfolding is_newer
else_earlier a b h = ground arith

AllBy-mono : (s t : ℕ) (bs : List Backup) → s ≤ t → AllBy s bs → AllBy t bs
AllBy-mono s t [] le h = tt
AllBy-mono s t (b ∷ bs) le h = (omega (arith, h.0), AllBy-mono s t bs le h.1)

place-AllBy :
    (t : ℕ) (b : Backup) (bs : List Backup) → b.created_at ≤ t → AllBy t bs → AllBy t (place b bs)
place-AllBy t b [] le h = (le, tt)
place-AllBy t b (c ∷ cs) le h = elim (Bool-cases (is_newer b c)) [
  | inl first ↦ rw first (le, h)
  | inr later ↦ rw later (h.0, place-AllBy t b cs le h.1)
]

place-IsDescending : (b : Backup) (bs : List Backup) → IsDescending bs → IsDescending (place b bs)
place-IsDescending b [] h = (tt, tt)
place-IsDescending b (c ∷ cs) h = elim (Bool-cases (is_newer b c)) [
  | inl first ↦
      let le = newer_is_later b c first in
      rw first ((le, AllBy-mono c.created_at b.created_at cs le h.0), h)
  | inr later ↦
      rw later
        (place-AllBy c.created_at b cs (else_earlier b c later) h.0, place-IsDescending b cs h.1)
]

sort_newest-IsDescending : (bs : List Backup) → IsDescending (sort_newest bs)
sort_newest-IsDescending [] = tt
sort_newest-IsDescending (b ∷ bs) =
    place-IsDescending b (sort_newest bs) (sort_newest-IsDescending bs)

AllBy-Listed : (t : ℕ) (b : Backup) (bs : List Backup) → AllBy t bs → Listed b bs → b.created_at ≤ t
AllBy-Listed t b [] h there = absurd there
AllBy-Listed t b (c ∷ cs) h (inl same) = subst (λ x. x.created_at ≤ t) same h.0
AllBy-Listed t b (c ∷ cs) h (inr there) = AllBy-Listed t b cs h.1 there

place-Listed : (b c : Backup) (bs : List Backup) → Listed b (place c bs) → (c ≡ b) ⊎ Listed b bs
place-Listed b c [] = λ h. h
place-Listed b c (d ∷ ds) = elim (Bool-cases (is_newer c d)) [
  | inl first ↦ rw first (λ h. h)
  | inr later ↦ rw later (λ h. elim h [
    | inl same ↦ inr (inl same)
    | inr there ↦ elim (place-Listed b c ds there) [
      | inl same ↦ inl same
      | inr further ↦ inr (inr further)
    ]
  ])
]

sort_newest-Listed : (b : Backup) (bs : List Backup) → Listed b (sort_newest bs) → Listed b bs
sort_newest-Listed b [] h = h
sort_newest-Listed b (c ∷ cs) h = elim (place-Listed b c (sort_newest cs) h) [
  | inl same ↦ inl same
  | inr there ↦ inr (sort_newest-Listed b cs there)
]

keep_if-Listed :
    (p : Backup → Bool) (b : Backup) (bs : List Backup)
    → Listed b (keep_if p bs)
    → Listed b bs × (p b ≡ true)
keep_if-Listed p b [] = λ h. absurd h
keep_if-Listed p b (c ∷ cs) = elim (Bool-cases (p c)) [
  | inl kept ↦ rw kept (λ h. elim h [
    | inl same ↦ (inl same, subst (λ x. p x ≡ true) same kept)
    | inr there ↦ let (further, passes) = keep_if-Listed p b cs there in (inr further, passes)
  ])
  | inr left_out ↦
      rw left_out (λ h. let (further, passes) = keep_if-Listed p b cs h in (inr further, passes))
]

abbrev pub no_older : Backup → Backup → Bool
no_older b c = leb b.created_at c.created_at

-- Past `n` entries of a list that descends, an entry has at least `n` others before it that are no
-- older.
past_limit :
    (n : ℕ) (key : String) (bs : List Backup)
    → IsDescending bs
    → has_id key (ids_of (drop n bs)) ≡ true
    → (b : Backup) × Listed b bs × (b.id ≡ key) × (suc n ≤ count_if (no_older b) bs)
past_limit zero key [] d h = absurd (ground (arith, h))
past_limit (suc n) key [] d h = absurd (ground (arith, h))
past_limit zero key (b ∷ bs) d h = elim (Bool-cases (str_eq key b.id)) [
  | inl same ↦ (b, inl refl, sym ((eq_iff key b.id).0 same), ground arith)
  | inr other ↦
      let (c, there, named, many) = past_limit zero key bs d.1 (ground arith) in
      (c, inr there, named, ground arith)
]
past_limit (suc n) key (b ∷ bs) d h =
    let (c, there, named, many) = past_limit n key bs d.1 h in
    let le = AllBy-Listed b.created_at c bs d.0 there in
    (c, inr there, named, ground (arith, le, many))

-- The same of a directory: what stands past the limit among the entries that pass the test is an entry of
-- the directory, and more than the limit of them are no older, itself included.
pub past_limit_of :
    (p : Backup → Bool) (n : ℕ) (key : String) (dir : List Backup)
    → has_id key (ids_of (drop n (sort_newest (keep_if p dir)))) ≡ true
    → (b : Backup) × Listed b dir
      × (b.id ≡ key)
      × (p b ≡ true)
      × (suc n ≤ count_if (λ c. p c && no_older b c) dir)
past_limit_of p n key dir h =
    let (b, there, named, many) =
      past_limit n key (sort_newest (keep_if p dir)) (sort_newest-IsDescending (keep_if p dir)) h in
    let (listed, passes) = keep_if-Listed p b dir (sort_newest-Listed b (keep_if p dir) there) in
    let counts =
      count_if-sort_newest (no_older b) (keep_if p dir)
      ∙ count_if-keep_if (no_older b) p dir
      ∙ count_if-ext (λ c. no_older b c && p c) (λ c. p c && no_older b c) dir
          (λ c. ground arith) in
    (b, listed, named, passes, subst (λ x. suc n ≤ x) counts many)
