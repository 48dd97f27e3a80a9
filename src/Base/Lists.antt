-- ===== src/Base/Lists.antt =====
-- Lists measured, indexed and searched by native numbers and Boolean tests.
use Prim.Native.Nat.{ℕ, zero, suc, ◌+◌, ◌<◌}
use mathlib.Core.Path.{◌≡◌, refl, ap}
use mathlib.Core.Logic.{◌≢◌, inl, inr}
use mathlib.Core.Bool.{Bool, true, false}
use mathlib.Core.List.{List, [], ◌∷◌, ◌++◌}
use mathlib.Core.Option.{Option, none, some}
use native.Mathlib.Omega.{arith}
use nrcc.Base.Tests.{if◌then◌else◌, Option-cases}

module _ {ℓ} {A : Type ℓ} where
  abbrev pub length : List A → ℕ
  length [] = 0
  length (x ∷ xs) = suc (length xs)

  -- The first element that passes the test.
  abbrev pub find? : (A → Bool) → List A → Option A
  find? p [] = none
  find? p (x ∷ xs) = if p x then some x else find? p xs

  -- The number of elements that pass the test.
  abbrev pub count_if : (A → Bool) → List A → ℕ
  count_if p [] = 0
  count_if p (x ∷ xs) = (if p x then 1 else 0) + count_if p xs

  -- The list without the first element that passes the test.
  abbrev pub remove_first : (A → Bool) → List A → List A
  remove_first p [] = []
  remove_first p (x ∷ xs) = if p x then xs else x ∷ remove_first p xs

  -- The list with the first element that passes the test changed.
  abbrev pub update_first : (A → Bool) → (A → A) → List A → List A
  update_first p f [] = []
  update_first p f (x ∷ xs) = if p x then f x ∷ xs else x ∷ update_first p f xs

  -- The elements that pass the test.
  abbrev pub keep_if : (A → Bool) → List A → List A
  keep_if p [] = []
  keep_if p (x ∷ xs) = if p x then x ∷ keep_if p xs else keep_if p xs

  pub length-append : (xs ys : List A) → length (xs ++ ys) ≡ length xs + length ys
  length-append [] ys = omega arith
  length-append (x ∷ xs) ys = omega (arith, length-append xs ys)

  pub count_if-append :
      (p : A → Bool) (xs ys : List A) → count_if p (xs ++ ys) ≡ count_if p xs + count_if p ys
  count_if-append p [] ys = omega arith
  count_if-append p (x ∷ xs) ys = omega (arith, count_if-append p xs ys)

  -- What a test finds passes it.
  pub find?_passes : (p : A → Bool) (xs : List A) (x : A) → find? p xs ≡ some x → p x ≡ true
  find?_passes p [] x h = cc
  find?_passes p (y ∷ xs) x h = ground (arith, find?_passes p xs x)

  -- Removing the first match takes just that element out of every count.
  pub count_if-remove_first :
      (p q : A → Bool) (xs : List A) (x : A)
      → find? p xs ≡ some x
      → count_if q xs ≡ (if q x then 1 else 0) + count_if q (remove_first p xs)
  count_if-remove_first p q [] x h = cc
  count_if-remove_first p q (y ∷ xs) x h = ground (arith, count_if-remove_first p q xs x)

  -- Changing the first match moves a count by what that element loses and gains.
  pub count_if-update_first :
      (p q : A → Bool) (f : A → A) (xs : List A) (x : A)
      → find? p xs ≡ some x
      → count_if q (update_first p f xs) + (if q x then 1 else 0)
        ≡ count_if q xs + (if q (f x) then 1 else 0)
  count_if-update_first p q f [] x h = cc
  count_if-update_first p q f (y ∷ xs) x h = ground (arith, count_if-update_first p q f xs x)

  find?-append_single :
      (p : A → Bool) (xs : List A) (a : A)
      → find? p xs ≡ none
      → find? p (xs ++ a ∷ []) ≡ (if p a then some a else none)
  find?-append_single p [] a h = refl
  find?-append_single p (x ∷ xs) a h = ground (arith, find?-append_single p xs a)

  find?-append_some :
      (p : A → Bool) (xs : List A) (a b : A) → find? p xs ≡ some b → find? p (xs ++ a ∷ []) ≡ some b
  find?-append_some p [] a b h = cc
  find?-append_some p (x ∷ xs) a b h = ground (arith, find?-append_some p xs a b)

  -- An element at the end is found if nothing before it is.
  pub find?-append :
      (p : A → Bool) (xs : List A) (a : A)
      → find? p (xs ++ a ∷ [])
        ≡ (elim (find? p xs) [ some b ↦ some b | none ↦ if p a then some a else none ])
  find?-append p xs a = elim (Option-cases (find? p xs)) [
    | inl e ↦ rw e (find?-append_single p xs a e)
    | inr (b, e) ↦ rw e (find?-append_some p xs a b e)
  ]

  -- Removing a match of one test hides nothing from a test that it fails.
  pub find?-remove_first :
      (p q : A → Bool) (xs : List A)
      → ((x : A) → p x ≡ true → q x ≡ false)
      → find? q (remove_first p xs) ≡ find? q xs
  find?-remove_first p q [] apart = refl
  find?-remove_first p q (x ∷ xs) apart = ground (arith, apart x, find?-remove_first p q xs apart)

  -- Nor does changing it, where the result fails the test as well.
  pub find?-update_first :
      (p q : A → Bool) (f : A → A) (xs : List A)
      → ((x : A) → p x ≡ true → (q x ≡ false) × (q (f x) ≡ false))
      → find? q (update_first p f xs) ≡ find? q xs
  find?-update_first p q f [] apart = refl
  find?-update_first p q f (x ∷ xs) apart =
      ground (arith, apart x, find?-update_first p q f xs apart)

  -- The first match, changed to something that still passes the test, is what is found then.
  pub find?-update_first_self :
      (p : A → Bool) (f : A → A) (xs : List A) (x : A)
      → find? p xs ≡ some x
      → p (f x) ≡ true
      → find? p (update_first p f xs) ≡ some (f x)
  find?-update_first_self p f [] x h k = cc
  find?-update_first_self p f (y ∷ xs) x h k = ground (arith, find?-update_first_self p f xs x)

  abbrev pub get_elem? : List A → ℕ → Option A
  get_elem? [] i = none
  get_elem? (x ∷ xs) zero = some x
  get_elem? (x ∷ xs) (suc i) = get_elem? xs i

  -- A write out of bounds changes nothing.
  abbrev pub set : List A → ℕ → A → List A
  set [] i v = []
  set (x ∷ xs) zero v = v ∷ xs
  set (x ∷ xs) (suc i) v = x ∷ set xs i v

  abbrev pub drop : ℕ → List A → List A
  drop zero xs = xs
  drop (suc n) [] = []
  drop (suc n) (x ∷ xs) = drop n xs

  abbrev pub replicate : ℕ → A → List A
  replicate zero a = []
  replicate (suc n) a = a ∷ replicate n a

  pub length-replicate : (n : ℕ) (a : A) → length (replicate n a) ≡ n
  length-replicate zero a = refl
  length-replicate (suc n) a = ap suc (length-replicate n a)

  pub length-set : (xs : List A) (i : ℕ) (v : A) → length (set xs i v) ≡ length xs
  length-set [] i v = refl
  length-set (x ∷ xs) zero v = refl
  length-set (x ∷ xs) (suc i) v = ap suc (length-set xs i v)

  pub get_elem?-set_self :
      (xs : List A) (i : ℕ) (v : A) → i < length xs → get_elem? (set xs i v) i ≡ some v
  get_elem?-set_self [] i v h = elim h [ ]
  get_elem?-set_self (x ∷ xs) zero v h = refl
  get_elem?-set_self (x ∷ xs) (suc i) v h = get_elem?-set_self xs i v (omega arith)

  pub get_elem?-set_ne :
      (xs : List A) (i j : ℕ) (v : A) → i ≢ j → get_elem? (set xs i v) j ≡ get_elem? xs j
  get_elem?-set_ne [] i j v h = refl
  get_elem?-set_ne (x ∷ xs) zero zero v h = absurd (h refl)
  get_elem?-set_ne (x ∷ xs) zero (suc j) v h = refl
  get_elem?-set_ne (x ∷ xs) (suc i) zero v h = refl
  get_elem?-set_ne (x ∷ xs) (suc i) (suc j) v h = get_elem?-set_ne xs i j v (λ e. h (ap suc e))

  pub get_elem?-append_left :
      (xs ys : List A) (i : ℕ) → i < length xs → get_elem? (xs ++ ys) i ≡ get_elem? xs i
  get_elem?-append_left [] ys i h = elim h [ ]
  get_elem?-append_left (x ∷ xs) ys zero h = refl
  get_elem?-append_left (x ∷ xs) ys (suc i) h = get_elem?-append_left xs ys i (omega arith)

  pub get_elem?-append_length :
      (xs : List A) (y : A) → get_elem? (xs ++ y ∷ []) (length xs) ≡ some y
  get_elem?-append_length [] y = refl
  get_elem?-append_length (x ∷ xs) y = get_elem?-append_length xs y

  pub get_elem?-drop :
      (xs : List A) (i : ℕ)
      → i < length xs
      → (x : A) × (get_elem? xs i ≡ some x) × (drop i xs ≡ x ∷ drop (suc i) xs)
  get_elem?-drop [] i h = elim h [ ]
  get_elem?-drop (x ∷ xs) zero h = (x, refl, refl)
  get_elem?-drop (x ∷ xs) (suc i) h = get_elem?-drop xs i (omega arith)

  pub drop-length : (xs : List A) → drop (length xs) xs ≡ []
  drop-length [] = refl
  drop-length (x ∷ xs) = drop-length xs
