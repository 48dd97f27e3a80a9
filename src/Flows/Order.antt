-- ===== src/Flows/Order.antt =====
-- internal/service/flow_version.go: the order of the names, and the last ones of a sorted list.
use nrcc.Base.{
  ℕ, zero, suc, ◌+◌, ◌-◌, ◌≤◌, ◌≡◌, refl, sym, subst, inl, inr, Bool, true, false, not, ◌&&◌, ◌||◌,
  List, [], ◌∷◌, if◌then◌else◌, length, drop, count_if, arith, Bool-cases,
}
use nrcc.Base.Texts.{Text, text_eq, text_eq_path, has_text, text_le, place_text, sort_texts}
use nrcc.Flows.{take}

text_le_total : (s t : Text) → text_le s t ≡ false → text_le t s ≡ true
text_le_total [] t h = cc
text_le_total (c ∷ s) [] h = refl
text_le_total (c ∷ s) (d ∷ t) h = ground (arith, text_le_total s t)

text_le_antisymm : (s t : Text) → text_le s t ≡ true → text_le t s ≡ true → text_eq s t ≡ true
text_le_antisymm [] [] h k = refl
text_le_antisymm [] (d ∷ t) h k = cc
text_le_antisymm (c ∷ s) [] h k = cc
text_le_antisymm (c ∷ s) (d ∷ t) h k = ground (arith, text_le_antisymm s t)

text_le_trans : (s t u : Text) → text_le s t ≡ true → text_le t u ≡ true → text_le s u ≡ true
text_le_trans [] t u h k = refl
text_le_trans (c ∷ s) [] u h k = cc
text_le_trans (c ∷ s) (d ∷ t) [] h k = cc
text_le_trans (c ∷ s) (d ∷ t) (e ∷ u) h k = ground (arith, text_le_trans s t u)

-- Below every text of a list; a sorted list; one without a text twice.
abbrev pub below_all : Text → List Text → Bool
below_all t [] = true
below_all t (u ∷ us) = text_le t u && below_all t us

abbrev pub is_sorted : List Text → Bool
is_sorted [] = true
is_sorted (t ∷ ts) = below_all t ts && is_sorted ts

abbrev pub are_distinct : List Text → Bool
are_distinct [] = true
are_distinct (t ∷ ts) = not (has_text t ts) && are_distinct ts

below_all_le :
    (s t : Text) (ts : List Text)
    → text_le s t ≡ true
    → below_all t ts ≡ true
    → below_all s ts ≡ true
below_all_le s t [] h k = refl
below_all_le s t (u ∷ us) h k = ground (arith, below_all_le s t us, text_le_trans s t u)

below_all-place_text :
    (s t : Text) (ts : List Text) → below_all s (place_text t ts) ≡ (text_le s t && below_all s ts)
below_all-place_text s t [] = refl
below_all-place_text s t (u ∷ us) = ground (arith, below_all-place_text s t us)

place_text-sorted :
    (t : Text) (ts : List Text) → is_sorted ts ≡ true → is_sorted (place_text t ts) ≡ true
place_text-sorted t [] h = refl
place_text-sorted t (u ∷ us) h = elim (Bool-cases (text_le t u)) [
  | inl first ↦ ground (arith, below_all_le t u us)
  | inr after ↦
      ground (arith, place_text-sorted t us, below_all-place_text u t us, text_le_total t u)
]

pub sort_texts-sorted : (ts : List Text) → is_sorted (sort_texts ts) ≡ true
sort_texts-sorted [] = refl
sort_texts-sorted (t ∷ ts) = place_text-sorted t (sort_texts ts) (sort_texts-sorted ts)

has_text-place_text :
    (s t : Text) (ts : List Text) → has_text s (place_text t ts) ≡ (text_eq s t || has_text s ts)
has_text-place_text s t [] = refl
has_text-place_text s t (u ∷ us) = ground (arith, has_text-place_text s t us)

pub has_text-sort_texts : (s : Text) (ts : List Text) → has_text s (sort_texts ts) ≡ has_text s ts
has_text-sort_texts s [] = refl
has_text-sort_texts s (t ∷ ts) =
    ground (arith, has_text-place_text s t (sort_texts ts), has_text-sort_texts s ts)

text_eq_sym : (s t : Text) → text_eq s t ≡ text_eq t s
text_eq_sym [] [] = refl
text_eq_sym [] (d ∷ t) = refl
text_eq_sym (c ∷ s) [] = refl
text_eq_sym (c ∷ s) (d ∷ t) = ground (arith, text_eq_sym s t)

place_text-distinct :
    (t : Text) (ts : List Text)
    → has_text t ts ≡ false
    → are_distinct ts ≡ true
    → are_distinct (place_text t ts) ≡ true
place_text-distinct t [] h k = refl
place_text-distinct t (u ∷ us) h k =
    ground (arith, place_text-distinct t us, has_text-place_text u t us, text_eq_sym t u)

pub sort_texts-distinct :
    (ts : List Text) → are_distinct ts ≡ true → are_distinct (sort_texts ts) ≡ true
sort_texts-distinct [] h = refl
sort_texts-distinct (t ∷ ts) h =
    place_text-distinct t (sort_texts ts) (ground (arith, has_text-sort_texts t ts))
      (sort_texts-distinct ts (ground arith))

count_if-place_text :
    (p : Text → Bool) (t : Text) (ts : List Text)
    → count_if p (place_text t ts) ≡ (if p t then 1 else 0) + count_if p ts
count_if-place_text p t [] = refl
count_if-place_text p t (u ∷ us) = ground (arith, count_if-place_text p t us)

pub count_if-sort_texts :
    (p : Text → Bool) (ts : List Text) → count_if p (sort_texts ts) ≡ count_if p ts
count_if-sort_texts p [] = refl
count_if-sort_texts p (t ∷ ts) =
    ground (arith, count_if-place_text p t (sort_texts ts), count_if-sort_texts p ts)

length-place_text : (t : Text) (ts : List Text) → length (place_text t ts) ≡ suc (length ts)
length-place_text t [] = refl
length-place_text t (u ∷ us) = ground (arith, length-place_text t us)

pub length-sort_texts : (ts : List Text) → length (sort_texts ts) ≡ length ts
length-sort_texts [] = refl
length-sort_texts (t ∷ ts) =
    ground (arith, length-place_text t (sort_texts ts), length-sort_texts ts)

-- The texts that are not at or before another one.
abbrev pub later : Text → Text → Bool
later name t = not (text_le t name)

all_later :
    (t : Text) (ts : List Text)
    → below_all t ts ≡ true
    → has_text t ts ≡ false
    → count_if (later t) ts ≡ length ts
all_later t [] h k = refl
all_later t (u ∷ us) h k = ground (arith, all_later t us, text_le_antisymm t u)

length-drop_le : (k : ℕ) (ts : List Text) → length (drop k ts) ≤ length ts
length-drop_le zero ts = omega arith
length-drop_le (suc k) [] = omega arith
length-drop_le (suc k) (t ∷ ts) = omega (arith, length-drop_le k ts)

pub length-drop_sub : (k : ℕ) (ts : List Text) → length (drop k ts) ≡ length ts - k
length-drop_sub zero ts = omega arith
length-drop_sub (suc k) [] = omega arith
length-drop_sub (suc k) (t ∷ ts) = omega (arith, length-drop_sub k ts)

-- As many texts are later than one of the first ones of a sorted list as come after those.
pub first_ones_before :
    (k : ℕ) (ts : List Text) (name : Text)
    → is_sorted ts ≡ true
    → are_distinct ts ≡ true
    → has_text name (take k ts) ≡ true
    → length (drop k ts) ≤ count_if (later name) ts
first_ones_before zero ts name s d h = cc
first_ones_before (suc k) [] name s d h = cc
first_ones_before (suc k) (t ∷ ts) name s d h = elim (Bool-cases (text_eq name t)) [
  | inl same ↦
      let is : t ≡ name = sym (text_eq_path name t same) in
      let all : count_if (later t) ts ≡ length ts = all_later t ts (ground arith) (ground arith) in
      let count : count_if (later name) ts ≡ length ts =
        subst (λ x. count_if (later x) ts ≡ length ts) is all in
      ground (arith, count, length-drop_le k ts)
  | inr other ↦ ground (arith, first_ones_before k ts name)
]
