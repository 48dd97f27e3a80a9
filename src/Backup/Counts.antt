-- ===== src/Backup/Counts.antt =====
-- internal/service/backup.go: counts of backups under sorting, filtering and dropping.
use nrcc.Base.{
  ℕ, zero, suc, ◌+◌, ◌≤◌, ◌≡◌, refl, ap, String, Bool, true, false, not, ◌&&◌, ◌||◌, List, [], ◌∷◌,
  if◌then◌else◌, str_eq, arith, keep_if, count_if, length, drop,
}
use nrcc.Backup.{Backup, place, sort_newest}

abbrev pub has_id : String → List String → Bool
has_id key [] = false
has_id key (k ∷ ks) = str_eq key k || has_id key ks

-- Sorting keeps every count.
pub count_if-place :
    (p : Backup → Bool) (b : Backup) (bs : List Backup)
    → count_if p (place b bs) ≡ (if p b then 1 else 0) + count_if p bs
count_if-place p b [] = refl
count_if-place p b (c ∷ cs) = ground (arith, count_if-place p b cs)

pub count_if-sort_newest :
    (p : Backup → Bool) (bs : List Backup) → count_if p (sort_newest bs) ≡ count_if p bs
count_if-sort_newest p [] = refl
count_if-sort_newest p (b ∷ bs) =
    ground (arith, count_if-place p b (sort_newest bs), count_if-sort_newest p bs)

pub count_if-keep_if :
    (p q : Backup → Bool) (bs : List Backup)
    → count_if p (keep_if q bs) ≡ count_if (λ b. p b && q b) bs
count_if-keep_if p q [] = refl
count_if-keep_if p q (b ∷ bs) = ground (arith, count_if-keep_if p q bs)

-- Past a number of entries, a count loses at most that number.
pub count_if-drop :
    (p : Backup → Bool) (n : ℕ) (bs : List Backup) → count_if p bs ≤ n + count_if p (drop n bs)
count_if-drop p zero bs = omega arith
count_if-drop p (suc n) [] = ground arith
count_if-drop p (suc n) (b ∷ bs) = ground (arith, count_if-drop p n bs)

-- What the loop leaves of the directory are the entries whose id it did not remove.
abbrev pub left_by : List String → List Backup → List Backup
left_by ids dir = keep_if (λ b. not (has_id b.id ids)) dir

pub keep_if-keep_if :
    (p q : Backup → Bool) (bs : List Backup)
    → keep_if p (keep_if q bs) ≡ keep_if (λ b. q b && p b) bs
keep_if-keep_if p q [] = refl
keep_if-keep_if p q (b ∷ bs) = ground (arith, keep_if-keep_if p q bs)

pub keep_if-all : (bs : List Backup) → keep_if (λ b. true) bs ≡ bs
keep_if-all [] = refl
keep_if-all (b ∷ bs) = ap (λ l. b ∷ l) (keep_if-all bs)

pub keep_if-ext :
    (p q : Backup → Bool) (bs : List Backup)
    → ((b : Backup) → p b ≡ q b)
    → keep_if p bs ≡ keep_if q bs
keep_if-ext p q [] same = refl
keep_if-ext p q (b ∷ bs) same = ground (arith, same b, keep_if-ext p q bs same)

pub count_if_mono :
    (p q : Backup → Bool) (bs : List Backup)
    → ((b : Backup) → p b ≡ true → q b ≡ true)
    → count_if p bs ≤ count_if q bs
count_if_mono p q [] more = omega arith
count_if_mono p q (b ∷ bs) more = ground (arith, more b, count_if_mono p q bs more)

pub count_if-ext :
    (p q : Backup → Bool) (bs : List Backup)
    → ((b : Backup) → p b ≡ q b)
    → count_if p bs ≡ count_if q bs
count_if-ext p q [] same = refl
count_if-ext p q (b ∷ bs) same = ground (arith, same b, count_if-ext p q bs same)

pub length-keep_if : (q : Backup → Bool) (bs : List Backup) → length (keep_if q bs) ≡ count_if q bs
length-keep_if q [] = refl
length-keep_if q (b ∷ bs) = ground (arith, length-keep_if q bs)

abbrev pub ids_of : List Backup → List String
ids_of [] = []
ids_of (b ∷ bs) = b.id ∷ ids_of bs
