-- ===== src/Coding/Segments.antt =====
-- `SplitSMS` of smpp/coding/splitter.go and the segment count of utils.go.
use mathlib.Core.List.{flatten, append-nil}
use gomsggw.Base.{
  ℕ, ◌*◌, ◌≤◌, ◌<◌, List, [], ◌∷◌, some, Text, leb, length, All, ◌≡◌, refl, sym, ap, ◌∙◌,
  Bool-cases, inl, inr, arith,
}
use gomsggw.Coding.{
  Splitter, bits, splitter_len, split_sms, pick_splitter, single_limit_bytes, multipart_limit_bytes,
  seven_bit_splitter, one_byte_splitter, utf16_splitter,
}
use gomsggw.Coding.Split.{bits-nil, IsSplit, Fits, split-IsSplit}

pick_splitter_cost :
    (data_coding r : ℕ) → (0 < pick_splitter data_coding r) × (pick_splitter data_coding r ≤ 32)
unfolding pick_splitter seven_bit_splitter one_byte_splitter utf16_splitter
pick_splitter_cost data_coding r = ground arith

pick_splitter-Fits :
    (data_coding limit : ℕ) (msg : Text) → 32 ≤ limit → Fits (pick_splitter data_coding) limit msg
pick_splitter-Fits data_coding limit [] h = tt
pick_splitter-Fits data_coding limit (r ∷ rs) h = (
  (
    omega (arith, pick_splitter_cost data_coding r),
    omega (arith, pick_splitter_cost data_coding r),
  ),
  pick_splitter-Fits data_coding limit rs h,
)

-- `Len` is the cost in bytes, rounded up.
splitter_len_bound :
    (cost : Splitter) (input : Text) (bytes : ℕ)
    → (splitter_len cost input ≤ bytes → bits cost input ≤ bytes * 8)
      × (bytes < splitter_len cost input → bytes * 8 < bits cost input)
unfolding splitter_len
splitter_len_bound cost input bytes = ground arith

upper_bounds :
    (cost : Splitter) (limit : ℕ) (segments : List Text)
    → All (λ s. (0 < bits cost s) × (bits cost s ≤ limit)) segments
    → All (λ s. bits cost s ≤ limit) segments
upper_bounds cost limit [] h = tt
upper_bounds cost limit (s ∷ segments) h = (h.0.1, upper_bounds cost limit segments h.1)

-- A division of a text that costs more than the limit has two pieces at least.
IsSplit-many :
    (cost : Splitter) (limit : ℕ) (segments : List Text) (input : Text)
    → IsSplit cost limit segments input
    → limit < bits cost input
    → 2 ≤ length segments
unfolding flatten
IsSplit-many cost limit [] input x h =
    absurd (omega (arith, ap (bits cost) x.lossless, bits-nil cost))
IsSplit-many cost limit (s ∷ []) input x h =
    absurd (omega (arith, x.bounded.0.1, ap (bits cost) (sym (append-nil s) ∙ x.lossless)))
IsSplit-many cost limit (s ∷ t ∷ ts) input x h = omega arith

-- The two ways in which a message is sent: whole, in 140 bytes, or in two parts at least, each in
-- the 134 bytes that the header of a multipart message leaves.
pub data Sent (cost : Splitter) (msg : Text) (segments : List Text) : Type 0 where
  whole : segments ≡ msg ∷ [] → bits cost msg ≤ single_limit_bytes * 8 → Sent cost msg segments
  parts :
      single_limit_bytes * 8 < bits cost msg
      → 2 ≤ length segments
      → All (λ s. bits cost s ≤ multipart_limit_bytes * 8) segments
      → Sent cost msg segments

-- `SplitSMS` returns segments for every message and every data coding, and they join up to the
-- message. A message of at most 140 bytes by the splitter's count is one segment; a longer one is
-- two segments at least, each of at most 134 bytes by that count.
pub split_sms-Sent :
    (msg : Text) (data_coding : ℕ)
    → (segments : List Text) × (split_sms msg data_coding ≡ some segments)
      × (flatten segments ≡ msg)
      × Sent (pick_splitter data_coding) msg segments
unfolding split_sms
split_sms-Sent msg data_coding =
    elim (Bool-cases (leb (splitter_len cost msg) single_limit_bytes)) [
      | inl fits ↦ (
        msg ∷ [],
        rw (fits, split_sms),
        unfold flatten in append-nil msg,
        whole refl ((splitter_len_bound cost msg single_limit_bytes).0 (ground arith)),
      )
      | inr long ↦
          let (segments, found, x) =
            split-IsSplit cost msg multipart_limit_bytes
              (pick_splitter-Fits data_coding _ msg (omega arith)) in
          let over : single_limit_bytes * 8 < bits cost msg =
            (splitter_len_bound cost msg single_limit_bytes).1 (ground arith) in
          (
            segments,
            rw (long, found, split_sms),
            x.lossless,
            parts over (IsSplit-many cost _ segments msg x (omega arith))
                (upper_bounds cost _ segments x.bounded),
          )
    ]
  where
    cost : Splitter
    cost = pick_splitter data_coding
