-- ===== src/Base/Strings.antt =====
-- Go's strings functions on texts.
use Prim.Native.Nat.{ℕ, zero, suc}
use mathlib.Core.Bool.{Bool, true, false, ◌&&◌, ◌||◌}
use mathlib.Core.List.{[], ◌∷◌}
use gomsggw.Base.Keys.{Text}
use gomsggw.Base.Tests.{nat_eq, leb, if◌then◌else◌}

-- `strings.HasPrefix(s, p)`, the prefix first
unfoldable pub has_prefix : Text → Text → Bool
has_prefix [] s = true
has_prefix (a ∷ p) [] = false
has_prefix (a ∷ p) (b ∷ s) = nat_eq a b && has_prefix p s

-- `strings.Contains(s, p)`
unfoldable pub contains : Text → Text → Bool
unfolding has_prefix
contains [] p = has_prefix p []
contains (a ∷ s) p = has_prefix p (a ∷ s) || contains s p

-- `strings.TrimPrefix(s, "+")`
unfoldable pub trim_plus : Text → Text
trim_plus [] = []
trim_plus (a ∷ s) = if nat_eq a b'+' then s else a ∷ s

-- `strings.TrimLeft(s, "+")`
unfoldable pub trim_left_plus : Text → Text
trim_left_plus [] = []
trim_left_plus (a ∷ s) = let rest = trim_left_plus s in if nat_eq a b'+' then rest else a ∷ s

-- `strings.Split(s, "/")[0]`
unfoldable pub before_slash : Text → Text
before_slash [] = []
before_slash (a ∷ s) = let rest = before_slash s in if nat_eq a b'/' then [] else a ∷ rest

abbrev pub is_digit : ℕ → Bool
is_digit c = leb b'0' c && leb c b'9'

-- `regexp.MustCompile(`\D`).ReplaceAllString(s, "")`
unfoldable pub keep_digits : Text → Text
keep_digits [] = []
keep_digits (a ∷ s) = let rest = keep_digits s in if is_digit a then a ∷ rest else rest

unfoldable pub all_digits : Text → Bool
all_digits [] = true
all_digits (a ∷ s) = is_digit a && all_digits s

-- `s[n:]`
abbrev pub drop : ℕ → Text → Text
drop zero s = s
drop (suc n) [] = []
drop (suc n) (a ∷ s) = drop n s
