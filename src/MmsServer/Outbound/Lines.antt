-- ===== src/MmsServer/Outbound/Lines.antt =====
-- The lines of base64 in a message of mms_server.go.
use gomsggw.Base.{
  ℕ, zero, suc, ◌≤◌, ◌≡◌, refl, ◌∙◌, ap, List, [], ◌∷◌, ◌++◌, Text, length, All, arith,
}
use gomsggw.Base.Strings.{drop}
use gomsggw.MmsServer.Outbound.Content.{base64_lines, take}

abbrev pub concat : List Text → Text
concat [] = []
concat (line ∷ lines) = line ++ concat lines

abbrev pub Fits : Text → Type 0
Fits line = (1 ≤ length line) × (length line ≤ 76)

take-append-drop : (n : ℕ) (s : Text) → take n s ++ drop n s ≡ s
unfolding take
take-append-drop zero s = refl
take-append-drop (suc n) [] = refl
take-append-drop (suc n) (a ∷ s) = ap (λ t. a ∷ t) (take-append-drop n s)

length-take : (n : ℕ) (s : Text) → length (take n s) ≤ n
unfolding take
length-take zero s = omega arith
length-take (suc n) [] = omega arith
length-take (suc n) (a ∷ s) = omega (arith, length-take n s)

length-drop : (n : ℕ) (s : Text) → length (drop n s) ≤ length s
length-drop zero s = omega arith
length-drop (suc n) [] = omega arith
length-drop (suc n) (a ∷ s) = omega (arith, length-drop n s)

lines-enough :
    (fuel : ℕ) (s : Text)
    → length s ≤ fuel
    → (concat (base64_lines fuel s) ≡ s) × All Fits (base64_lines fuel s)
unfolding base64_lines take
lines-enough zero [] h = (refl, tt)
lines-enough zero (a ∷ s) h = absurd (omega arith)
lines-enough (suc fuel) [] h = (refl, tt)
lines-enough (suc fuel) (a ∷ s) h =
    let rest = lines-enough fuel (drop 75 s) (omega (arith, h, length-drop 75 s)) in
    (
      ap (λ t. a ∷ take 75 s ++ t) rest.0 ∙ ap (λ t. a ∷ t) (take-append-drop 75 s),
      ((omega arith, omega (arith, length-take 75 s)), rest.1),
    )

-- The lines of an encoded file are the encoding cut in order, each with 1 to 76 letters.
pub base64_lines-concat :
    (s : Text) → (concat (base64_lines (length s) s) ≡ s) × All Fits (base64_lines (length s) s)
base64_lines-concat s = lines-enough (length s) s (omega arith)
