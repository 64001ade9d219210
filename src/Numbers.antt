-- ===== src/Numbers.antt =====
-- Phone numbers in router.go and gateway.go: the E.164 normal form, and the lookups by number.
-- `Clients` is a Go map, which a loop visits in any order; a lookup is given the order in which its
-- loop visits the clients.
pub mod Format
pub mod Lookup
use gomsggw.Base.{
  ℕ, Bool, true, false, ◌&&◌, ◌||◌, List, [], ◌∷◌, Option, none, some, String, Text, leb, nat_eq,
  length, if◌then◌else◌,
}
use gomsggw.Base.Strings.{
  has_prefix, contains, trim_plus, trim_left_plus, before_slash, is_digit, keep_digits, all_digits,
}
use gomsggw.Client.{Client, ClientNumber, NumberSettings}

-- `[1-9]\d{1,14}$`
unfoldable pub matches_digits : Text → Bool
unfolding all_digits
matches_digits [] = false
matches_digits (d ∷ ds) =
    leb b'1' d && leb d b'9' && all_digits ds && leb 1 (length ds) && leb (length ds) 14

-- `^\+?[1-9]\d{1,14}$`; a first digit is no plus, so the optional plus is taken where it stands
unfoldable pub matches_e164 : Text → Bool
unfolding trim_plus matches_digits
matches_e164 s = matches_digits (trim_plus s)

-- the digits of a number, behind one plus
unfoldable pub cleaned : Text → Text
unfolding before_slash trim_left_plus keep_digits
cleaned number = b'+' ∷ keep_digits (trim_left_plus (before_slash number))

-- The text that `FormatToE164` returns, and whether it returns no error.
unfoldable pub format_to_e164 : Text → Text × Bool
unfolding cleaned matches_e164
format_to_e164 number =
    if matches_e164 (cleaned number) then (cleaned number, true) else (number, false)

-- The first number of a list that is a part of `searched`.
unfoldable pub find_number : Text → List ClientNumber → Option ClientNumber
find_number searched [] = none
find_number searched (n ∷ ns) =
    let rest = find_number searched ns in if contains searched n.number then some n else rest

-- The first client that has such a number, with that number.
unfoldable pub find_owner : Text → List Client → Option (Client × ClientNumber)
unfolding find_number
find_owner searched [] = none
find_owner searched (c ∷ cs) =
    let rest = find_owner searched cs in
    elim (find_number searched c.numbers) [ none ↦ rest | some n ↦ some (c, n) ]

abbrev pub client_part : Option (Client × ClientNumber) → Option Client
client_part none = none
client_part (some (c, n)) = some c

abbrev pub number_part : Option (Client × ClientNumber) → Option ClientNumber
number_part none = none
number_part (some (c, n)) = some n

abbrev pub carrier_part : Option (Client × ClientNumber) → String
carrier_part none = ""
carrier_part (some (c, n)) = n.carrier

unfoldable pub find_client_by_number : Text → List Client → Option Client
unfolding find_owner
find_client_by_number number clients = client_part (find_owner (trim_plus number) clients)

-- `getClient` of gateway.go
unfoldable pub get_client : Text → List Client → Option Client
unfolding find_owner
get_client number clients = client_part (find_owner number clients)

-- `getNumber` of gateway.go
unfoldable pub get_number : Text → List Client → Option ClientNumber
unfolding find_owner
get_number number clients = number_part (find_owner number clients)

-- `getClientCarrier` of gateway.go, "" where there is none
unfoldable pub get_client_carrier : Text → List Client → String
unfolding find_owner
get_client_carrier number clients = carrier_part (find_owner number clients)

abbrev pub settings_part : Option ClientNumber → Option NumberSettings
settings_part none = none
settings_part (some n) = n.settings

unfoldable pub find_number_settings_for_client : Option Client → Text → Option NumberSettings
unfolding find_number
find_number_settings_for_client none to = none
find_number_settings_for_client (some c) to = settings_part (find_number (trim_plus to) c.numbers)
