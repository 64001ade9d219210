-- ===== src/Coding/Split.antt =====
-- `Splitter.Split` of smpp/coding/splitter.go against a description of its result.
use mathlib.Core.List.{append-nil, append_assoc, flatten}
use native.Mathlib.Decide.{dec_le}
use gomsggw.Base.{
  ℕ, zero, suc, ◌+◌, ◌*◌, ◌≤◌, ◌<◌, List, [], ◌∷◌, ◌++◌, Option, none, some, Text, ltb, length, All,
  ◌≡◌, refl, sym, ap, ◌∙◌, Bool-cases, inl, inr, arith,
}
use gomsggw.Coding.{Splitter, bits, split_loop, split}

-- The segments are the text cut into pieces, each costs at least one bit and at most the limit.
pub record IsSplit (cost : Splitter) (limit : ℕ) (segments : List Text) (input : Text)
    : Type 0 where
  pub lossless : flatten segments ≡ input
  pub bounded : All (λ s. (0 < bits cost s) × (bits cost s ≤ limit)) segments

-- Every rune of a text costs something, and fits into an empty segment.
abbrev pub Fits : Splitter → ℕ → Text → Type 0
Fits cost limit input = All (λ r. (0 < cost r) × (cost r ≤ limit)) input

pub bits-nil : (cost : Splitter) → 0 ≡ bits cost []
unfolding bits
bits-nil cost = refl

bits-one : (cost : Splitter) (r : ℕ) → bits cost (r ∷ []) ≡ cost r
unfolding bits
bits-one cost r = omega arith

bits-append : (cost : Splitter) (s t : Text) → bits cost (s ++ t) ≡ bits cost s + bits cost t
unfolding bits
bits-append cost [] t = omega arith
bits-append cost (r ∷ s) t = omega (arith, bits-append cost s t)

abbrev Splits : Splitter → ℕ → Text → Option (List Text) → Type 0
Splits cost limit input none = ⊥
Splits cost limit input (some segments) = IsSplit cost limit segments input

abbrev prepend : Text → Option (List Text) → Option (List Text)
prepend segment none = none
prepend segment (some segments) = some (segment ∷ segments)

-- What one turn of the loop does.
loop_accepts :
    (cost : Splitter) (limit fuel len r : ℕ) (segment rest : Text)
    → len + cost r ≤ limit
    → split_loop (suc fuel) cost limit segment len (r ∷ rest)
      ≡ split_loop fuel cost limit (segment ++ (r ∷ [])) (len + cost r) rest
unfolding split_loop
loop_accepts cost limit fuel len r segment rest h = ground arith

loop_closes :
    (cost : Splitter) (limit fuel len r : ℕ) (segment rest : Text)
    → limit < len + cost r
    → split_loop (suc fuel) cost limit segment len (r ∷ rest)
      ≡ prepend segment (split_loop fuel cost limit [] 0 (r ∷ rest))
unfolding split_loop
loop_closes cost limit fuel len r segment rest h = ground arith

loop_ends :
    (cost : Splitter) (limit fuel : ℕ) (segment : Text)
    → bits cost segment ≤ limit
    → (bits cost segment ≡ 0 → segment ≡ [])
    → Splits cost limit
        (segment ++ [])
        (split_loop (suc fuel) cost limit segment (bits cost segment) [])
unfolding split_loop flatten
loop_ends cost limit fuel segment h e = elim (Bool-cases (ltb 0 (bits cost segment))) [
  | inl some_bits ↦
      rw (some_bits, append-nil)
        (record { lossless = append-nil segment; bounded = ((ground arith, h), tt) })
  | inr no_bits ↦
      rw (no_bits, append-nil) (record { lossless = sym (e (ground arith)); bounded = tt })
]

Splits-prepend :
    (cost : Splitter) (limit : ℕ) (segment rest : Text) (o : Option (List Text))
    → 0 < bits cost segment
    → bits cost segment ≤ limit
    → Splits cost limit rest o
    → Splits cost limit (segment ++ rest) (prepend segment o)
unfolding flatten
Splits-prepend cost limit segment rest none p h x = x
Splits-prepend cost limit segment rest (some segments) p h x = record {
  lossless = ap (λ t. segment ++ t) x.lossless;
  bounded = ((p, h), x.bounded);
}

loop-Splits :
    (cost : Splitter) (limit : ℕ) (rest : Text) (fuel len : ℕ) (segment : Text)
    → len ≡ bits cost segment
    → 2 * length rest + 1 ≤ fuel
    → len ≤ limit
    → (len ≡ 0 → segment ≡ [])
    → Fits cost limit rest
    → Splits cost limit (segment ++ rest) (split_loop fuel cost limit segment len rest)
loop-Splits cost limit [] zero len segment e enough h empty fits = absurd (omega arith)
loop-Splits cost limit [] (suc fuel) len segment e enough h empty fits =
    rw e (loop_ends cost limit fuel segment (omega arith) (λ z. empty (e ∙ z)))
loop-Splits cost limit (r ∷ rest) zero len segment e enough h empty fits = absurd (omega arith)
loop-Splits cost limit (r ∷ rest) (suc zero) len segment e enough h empty fits =
    absurd (omega arith)
loop-Splits cost limit (r ∷ rest) (suc (suc fuel)) len segment e enough h empty fits =
    elim (dec_le (len + cost r) limit) [
      | yes room ↦
          rw
            (
              loop_accepts cost limit (suc fuel) len r segment rest room,
              ← append_assoc segment (r ∷ []) rest,
            )
            (loop-Splits cost limit rest (suc fuel) (len + cost r) (segment ++ (r ∷ []))
              (grown segment r len e) (omega arith) room (λ z. absurd (omega (arith, fits.0.0)))
              fits.1)
      | no full ↦ rw (loop_closes cost limit (suc fuel) len r segment rest (omega arith)) (
          Splits-prepend cost limit segment (r ∷ rest) _ (omega (arith, fits.0.1)) (omega arith) (
            rw (loop_accepts cost limit fuel 0 r [] rest (omega (arith, fits.0.1))) (
              loop-Splits cost limit rest fuel (0 + cost r) (r ∷ []) (grown [] r 0 (bits-nil cost))
                (omega arith) (omega (arith, fits.0.1)) (λ z. absurd (omega (arith, fits.0.0)))
                fits.1)))
    ]
  where
    grown : (s : Text) (q n : ℕ) → n ≡ bits cost s → n + cost q ≡ bits cost (s ++ (q ∷ []))
    grown s q n e = omega (arith, bits-append cost s (q ∷ []), bits-one cost q)

-- `Split` of a text whose every rune costs something and fits into a segment returns, within the
-- fuel given, pieces that join up to the text, each of which costs at least 1 and at most the limit.
pub split-IsSplit :
    (cost : Splitter) (input : Text) (limit : ℕ)
    → Fits cost (limit * 8) input
    → (segments : List Text) × (split cost input limit ≡ some segments)
      × IsSplit cost (limit * 8) segments input
unfolding split
split-IsSplit cost input limit fits = found _ refl
  where
    law :
        Splits cost
          (limit * 8)
          input
          (split_loop (2 * length input + 1) cost (limit * 8) [] 0 input)
    law =
        loop-Splits cost (limit * 8) input _ 0 [] (bits-nil cost) (omega arith) (omega arith)
          (λ z. refl) fits

    found :
        (o : Option (List Text))
        → split_loop (2 * length input + 1) cost (limit * 8) [] 0 input ≡ o
        → (segments : List Text) × (o ≡ some segments) × IsSplit cost (limit * 8) segments input
    found none e = absurd (rw e at law)
    found (some segments) e = (segments, refl, rw e at law)
