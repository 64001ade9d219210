-- ===== src/Inbound/Split.antt =====
-- splitSMS of carrier_twilio.go.
use gomsggw.Base.{ℕ, ◌+◌, List, [], ◌∷◌, ◌++◌, Text, ltb, if◌then◌else◌}
use gomsggw.Coding.{utf8_len}

-- a segment that is not empty, behind the others
unfoldable pub closed_with : List Text → Text → List Text
closed_with segments [] = segments
closed_with segments (r ∷ rs) = segments ++ (r ∷ rs) ∷ []

-- The loop over the runes, with the segments, the current one and its bytes.
unfoldable pub split_runes : ℕ → Text → List Text → Text → ℕ → List Text
unfolding closed_with
split_runes max [] segments current bytes = closed_with segments current
split_runes max (r ∷ body) segments current bytes =
    let rune = utf8_len (r ∷ []) in
    let fresh = split_runes max body (closed_with segments current) (r ∷ []) rune in
    let longer = split_runes max body segments (current ++ r ∷ []) (bytes + rune) in
    if ltb max (bytes + rune) then fresh else longer

unfoldable pub split_sms_bytes : Text → ℕ → List Text
unfolding split_runes
split_sms_bytes body max = split_runes max body [] [] 0
