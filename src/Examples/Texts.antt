-- ===== src/Examples/Texts.antt =====
-- Examples for the phone numbers of router.go, the splitters of smpp/coding, and the cooldown.
use mathlib.Core.List.{Memᴰ, flatten}
use gomsggw.Base.{
  ◌*◌, true, false, List, [], ◌∷◌, none, some, Text, codes, ◌≡◌, refl, arith, ◌⊎◌, subst,
}
use gomsggw.Base.Strings.{
  has_prefix, contains, trim_plus, trim_left_plus, before_slash, keep_digits, all_digits,
}
use gomsggw.AutoReply.Cooldown.{Attempt, Spaced, allowed_for, AllPositive, allowed_for-Spaced}
use gomsggw.Client.{Client}
use gomsggw.Coding.{seven_bit_splitter, pick_splitter, split, split_loop, split_sms}
use gomsggw.Coding.Segments.{Sent, split_sms-Sent}
use gomsggw.Coding.Split.{Fits}
use gomsggw.Examples.{alice, bob, client_of, number_of}
use gomsggw.Numbers.{
  format_to_e164, find_client_by_number, find_owner, find_number, cleaned, matches_e164,
  matches_digits,
}
use gomsggw.Numbers.Format.{IsE164, format_to_e164_idem, format_to_e164-IsE164}
use gomsggw.Numbers.Lookup.{Owns, find_client_by_number_unique, find_client_by_number-order}

abbrev spaced_number : Text
spaced_number = codes "+1 (250) 555-0100"

spaced_formatted : format_to_e164 spaced_number ≡ (codes "+12505550100", true)
unfolding format_to_e164 cleaned matches_e164 matches_digits all_digits before_slash trim_left_plus
    keep_digits trim_plus
spaced_formatted = refl

format_to_e164_idem_example :
    format_to_e164 (format_to_e164 spaced_number).0 ≡ format_to_e164 spaced_number
format_to_e164_idem_example = format_to_e164_idem spaced_number

format_to_e164-IsE164_example :
    ((format_to_e164 spaced_number).1 ≡ true) × IsE164 (format_to_e164 spaced_number).0
    ⊎ (format_to_e164 spaced_number ≡ (spaced_number, false))
format_to_e164-IsE164_example = format_to_e164-IsE164 spaced_number

abbrev first_client : Client
first_client = client_of 1 alice 0

abbrev other_client : Client
other_client = client_of 2 bob 0

-- A client whose number is a part of that of `first_client`.
abbrev short_client : Client
short_client = client_of 3 "2505550100" 0

abbrev searched : Text
searched = codes "+12505550100"

abbrev two_clients : List Client
two_clients = first_client ∷ other_client ∷ []

first-Owns : Owns (trim_plus searched) first_client
unfolding find_number trim_plus contains has_prefix
first-Owns = (number_of 1 alice, refl)

short-Owns : Owns (trim_plus searched) short_client
unfolding find_number trim_plus contains has_prefix
short-Owns = (number_of 3 "2505550100", refl)

other_not_owner : ¬ Owns (trim_plus searched) other_client
unfolding find_number trim_plus contains has_prefix
other_not_owner (n, e) = cc e

only_first : (d : Client) → Memᴰ d two_clients → Owns (trim_plus searched) d → d ≡ first_client
only_first d (Memᴰ.head same) own = same
only_first d (Memᴰ.tail (Memᴰ.head same)) own =
    absurd (other_not_owner (subst (Owns (trim_plus searched)) same own))
only_first d (Memᴰ.tail (Memᴰ.tail x)) own = elim x [ ]

find_client_by_number_unique_example :
    find_client_by_number searched two_clients ≡ some first_client
find_client_by_number_unique_example =
    find_client_by_number_unique searched two_clients first_client (Memᴰ.head refl) first-Owns
      only_first

first_found : find_client_by_number searched two_clients ≡ some first_client
unfolding find_client_by_number find_owner find_number trim_plus contains has_prefix
first_found = refl

find_client_by_number-order_example :
    (find_client_by_number searched (first_client ∷ short_client ∷ []) ≡ some first_client)
    × (find_client_by_number searched (short_client ∷ first_client ∷ []) ≡ some short_client)
find_client_by_number-order_example =
    find_client_by_number-order searched first_client short_client first-Owns short-Owns

abbrev word : Text
word = codes "hello"

word-Fits : Fits seven_bit_splitter (2 * 8) word
unfolding seven_bit_splitter
word-Fits = ground arith

word_pieces : split seven_bit_splitter word 2 ≡ some (codes "he" ∷ codes "ll" ∷ codes "o" ∷ [])
unfolding split split_loop seven_bit_splitter
word_pieces = refl

split_sms-Sent_example :
    (segments : List Text) × (split_sms word 0 ≡ some segments)
    × (flatten segments ≡ word)
    × Sent (pick_splitter 0) word segments
split_sms-Sent_example = split_sms-Sent word 0

abbrev three_calls : List Attempt
three_calls =
    record { key = codes "a|b"; time = 0; cooldown = 60 }
    ∷ record { key = codes "a|b"; time = 5_000_000_000; cooldown = 60 }
    ∷ record { key = codes "a|b"; time = 90_000_000_000; cooldown = 60 }
    ∷ []

three_calls-AllPositive : AllPositive three_calls
three_calls-AllPositive = ground arith

allowed_for-Spaced_example : Spaced none (allowed_for (codes "a|b") [] three_calls)
allowed_for-Spaced_example = allowed_for-Spaced (codes "a|b") three_calls three_calls-AllPositive
