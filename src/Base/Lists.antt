-- ===== src/Base/Lists.antt =====
-- Lists measured by native numbers, under the library's names.
use Prim.Native.Nat.{ℕ, suc, ◌+◌}
use gomsggw.Base.Tests.{if◌then◌else◌}
use mathlib.Core.Bool.{Bool}
use mathlib.Core.List.{List, [], ◌∷◌, ◌++◌, map}
use mathlib.Core.Option.{Option, none, some}
use mathlib.Core.Path.{◌≡◌}
use native.Mathlib.Omega.{arith}

module _ {ℓ} {A : Type ℓ} where
  abbrev pub length : List A → ℕ
  length [] = 0
  length (x ∷ xs) = suc (length xs)

  abbrev pub All {κ} : (A → Type κ) → List A → Type κ
  All P [] = Unit
  All P (x ∷ xs) = P x × All P xs

  abbrev pub option_list : Option A → List A
  option_list none = []
  option_list (some x) = x ∷ []

  abbrev pub count : (A → Bool) → List A → ℕ
  count p [] = 0
  count p (x ∷ xs) = (if p x then 1 else 0) + count p xs

  pub length-append : (xs ys : List A) → length (xs ++ ys) ≡ length xs + length ys
  length-append [] ys = omega arith
  length-append (x ∷ xs) ys = omega (arith, length-append xs ys)

  pub All-map :
      (P : A → Type 0) (Q : A → Type 0) (g : A → A) (rows : List A)
      → ((r : A) → P r → Q (g r))
      → All P rows
      → All Q (map g rows)
  All-map P Q g [] law h = tt
  All-map P Q g (r ∷ rows) law h = (law r h.0, All-map P Q g rows law h.1)

  pub All-weaken :
      (P : A → Type 0) (Q : A → Type 0) (rows : List A)
      → ((r : A) → P r → Q r)
      → All P rows
      → All Q rows
  All-weaken P Q [] law h = tt
  All-weaken P Q (r ∷ rows) law h = (law r h.0, All-weaken P Q rows law h.1)

  pub All-both :
      (P : A → Type 0) (Q : A → Type 0) (rows : List A)
      → All P rows
      → All Q rows
      → All (λ r. P r × Q r) rows
  All-both P Q [] h k = tt
  All-both P Q (r ∷ rows) h k = ((h.0, k.0), All-both P Q rows h.1 k.1)

  pub count-append : (p : A → Bool) (xs ys : List A) → count p (xs ++ ys) ≡ count p xs + count p ys
  count-append p [] ys = omega arith
  count-append p (x ∷ xs) ys = omega (arith, count-append p xs ys)

  pub All-append : (P : A → Type 0) (xs ys : List A) → All P xs → All P ys → All P (xs ++ ys)
  All-append P [] ys h k = k
  All-append P (x ∷ xs) ys h k = (h.0, All-append P xs ys h.1 k)
