-- ===== src/Base/Texts.antt =====
-- Strings as lists of code points, with their order, and lists of them.
use Prim.Native.Char.{code}
use Prim.Native.Nat.{ℕ}
use Prim.Native.String.{String}
use mathlib.Core.Path.{◌≡◌, refl}
use mathlib.Core.Bool.{Bool, true, false, ◌&&◌, ◌||◌}
use mathlib.Core.List.{List, [], ◌∷◌}
use native.Mathlib.Omega.{arith}
use nrcc.Base.Tests.{leb, ◌==◌, if◌then◌else◌}

abbrev pub Text : Type 0
Text = List ℕ

abbrev pub codes : String → Text
codes String.[] = []
codes (String.◌∷◌ c s) = code c ∷ codes s

abbrev pub text_eq : Text → Text → Bool
text_eq [] [] = true
text_eq [] (d ∷ t) = false
text_eq (c ∷ s) [] = false
text_eq (c ∷ s) (d ∷ t) = (c == d) && text_eq s t

pub text_eq_path : (s t : Text) → text_eq s t ≡ true → s ≡ t
text_eq_path [] [] h = refl
text_eq_path [] (d ∷ t) h = cc
text_eq_path (c ∷ s) [] h = cc
text_eq_path (c ∷ s) (d ∷ t) h = ground (arith, text_eq_path s t)

pub text_eq_same : (t : Text) → text_eq t t ≡ true
text_eq_same [] = refl
text_eq_same (c ∷ t) = ground (arith, text_eq_same t)

abbrev pub has_text : Text → List Text → Bool
has_text t [] = false
has_text t (u ∷ us) = text_eq t u || has_text t us

abbrev pub without_text : Text → List Text → List Text
without_text t [] = []
without_text t (u ∷ us) = if text_eq u t then without_text t us else u ∷ without_text t us

abbrev pub text_le : Text → Text → Bool
text_le [] t = true
text_le (c ∷ s) [] = false
text_le (c ∷ s) (d ∷ t) = if c == d then text_le s t else leb c d

abbrev pub place_text : Text → List Text → List Text
place_text t [] = t ∷ []
place_text t (u ∷ us) = if text_le t u then t ∷ u ∷ us else u ∷ place_text t us

abbrev pub sort_texts : List Text → List Text
sort_texts [] = []
sort_texts (t ∷ ts) = place_text t (sort_texts ts)
