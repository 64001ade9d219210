-- ===== src/Base/Keys.antt =====
-- The test for equality as an interface, for numbers, names and texts.
use Prim.Native.Char.{code}
use Prim.Native.String.{String}
use gomsggw.Base.Tests.{nat_eq, nat_eq_iff}
use mathlib.Core.Bool.{Bool, true, false, ◌&&◌}
use mathlib.Core.List.{List, [], ◌∷◌}
use mathlib.Core.Logic.{◌↔◌}
use mathlib.Core.Path.{◌≡◌}
use native.Mathlib.Omega.{arith}
use Prim.Native.Nat.{ℕ}
use text.Mathlib.Text.{◌==◌ as same_string}
use text.Mathlib.TextEquality.{eq_iff as same_string_iff}

-- A text is a list of code points.
abbrev pub Text : Type 0
Text = List ℕ

-- The code points of a literal.
abbrev pub codes : String → Text
codes (String.◌∷◌ first others) = code first ∷ codes others
codes String.[] = []

unfoldable pub text_eq : Text → Text → Bool
text_eq [] [] = true
text_eq (a ∷ s) (b ∷ t) = nat_eq a b && text_eq s t
text_eq _ _ = false

pub text_eq_iff : (s t : Text) → (text_eq s t ≡ true) ↔ (s ≡ t)
unfolding text_eq
text_eq_iff (a ∷ s) (b ∷ t) = ground (arith, text_eq_iff s t)
text_eq_iff _ _ = ground arith

-- A Boolean test that is right both ways.
pub record Eq {ℓ} (Key : Type ℓ) : Type ℓ where
  pub same : Key → Key → Bool
  pub sound : {j k : Key} → same j k ≡ true → j ≡ k
  pub complete : {j k : Key} → j ≡ k → same j k ≡ true

module _ {ℓ} {Key : Type ℓ} ⦃keys : Eq Key⦄ where
  infix 50 ◌==◌
  abbrev pub ◌==◌ : Key → Key → Bool
  j == k = keys.same j k

  pub ==_iff : (j k : Key) → ((j == k) ≡ true) ↔ (j ≡ k)
  ==_iff j k = (keys.sound, keys.complete)

instance abbrev pub Eq_Text : Eq Text
Eq_Text = record { same = text_eq; sound = (text_eq_iff _ _).0; complete = (text_eq_iff _ _).1 }

instance abbrev pub Eq_String : Eq String
Eq_String = record {
  same = same_string;
  sound = (same_string_iff _ _).0;
  complete = (same_string_iff _ _).1;
}

instance abbrev pub Eq_ℕ : Eq ℕ
Eq_ℕ = record { same = nat_eq; sound = (nat_eq_iff _ _).0; complete = (nat_eq_iff _ _).1 }
