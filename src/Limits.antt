-- ===== src/Limits.antt =====
-- The message limits of clients.go and the usage queries of msg_records.go. A query of the database
-- that fails is `none`; the calendar of the time package is a parameter. Times are nanoseconds.
pub mod Check
pub mod Blocked
pub mod Levels
use gomsggw.Base.{
  ℕ, suc, ◌+◌, ◌-◌, ◌*◌, Bool, true, false, not, ◌&&◌, ◌||◌, List, [], ◌∷◌, Option, none, some,
  String, Text, leb, nat_eq, ◌==◌, Eq_String, Eq_Text, length, if◌then◌else◌, option_list,
}
use gomsggw.Base.Strings.{contains, trim_plus}
use gomsggw.Client.{Client, ClientNumber, ClientSettings, NumberSettings, MsgRecordRow}
use gomsggw.Message.{mms_type}

pub data Period : Type 0 where
  burst daily monthly : Period

-- What the code takes from the time package: the zone of a name, and the start of the day and of
-- the month of an instant in a zone.
pub record Calendar : Type 1 where
  pub Location : Type 0
  pub utc : Location
  pub load_location : String → Option Location
  pub midnight : Location → ℕ → ℕ
  pub first_of_month : Location → ℕ → ℕ

abbrev pub minute : ℕ
minute = 60_000_000_000

module _ (cal : Calendar) where
  open cal use {Location, utc, load_location, midnight, first_of_month}

  pub location_or_utc : Option Location → Location
  location_or_utc none = utc
  location_or_utc (some loc) = loc

  unfoldable pub client_location : Client → Location
  unfolding location_or_utc
  client_location client =
      if not (client.timezone == "") then location_or_utc (load_location client.timezone) else utc

  unfoldable pub get_period_start : ℕ → Client → Period → ℕ
  unfolding client_location
  get_period_start now client burst = now - minute
  get_period_start now client daily = midnight (client_location client) now
  get_period_start now client monthly = first_of_month (client_location client) now

-- The `switch period` of `getEffectiveLimit`, on the three limits of a type
abbrev pub limit_for : Period → ℕ → ℕ → ℕ → ℕ
limit_for burst b d m = b
limit_for daily b d m = d
limit_for monthly b d m = m

unfoldable pub number_limit : Option NumberSettings → String → Period → ℕ
number_limit none msg_type period = 0
number_limit (some s) msg_type period =
    if msg_type == mms_type
    then limit_for period s.mms_burst_limit s.mms_daily_limit s.mms_monthly_limit
    else limit_for period s.sms_burst_limit s.sms_daily_limit s.sms_monthly_limit

unfoldable pub client_limit : Option ClientSettings → String → Period → ℕ
client_limit none msg_type period = 0
client_limit (some s) msg_type period =
    if msg_type == mms_type
    then limit_for period s.mms_burst_limit s.mms_daily_limit s.mms_monthly_limit
    else limit_for period s.sms_burst_limit s.sms_daily_limit s.sms_monthly_limit

abbrev pub number_limit_both : Option NumberSettings → Bool
number_limit_both none = false
number_limit_both (some s) = s.limit_both

abbrev pub client_limit_both : Option ClientSettings → Bool
client_limit_both none = false
client_limit_both (some s) = s.limit_both

-- The three results of `getEffectiveLimit`.
pub record EffectiveLimit : Type 0 where
  pub limit : ℕ
  pub is_number_level : Bool
  pub limit_both : Bool

unfoldable pub get_effective_limit :
    Option ClientSettings → Option NumberSettings → String → Period → EffectiveLimit
unfolding number_limit client_limit
get_effective_limit cs ns msg_type period =
    if leb 1 (number_limit ns msg_type period)
    then record {
      limit = number_limit ns msg_type period;
      is_number_level = true;
      limit_both = number_limit_both ns;
    }
    else record {
      limit = client_limit cs msg_type period;
      is_number_level = false;
      limit_both = client_limit_both cs;
    }

unfoldable pub should_enforce_limit : String → Bool → Bool
should_enforce_limit direction limit_both = if direction == "outbound" then true else limit_both

-- The `WHERE` clause of `GetUsageCountByType`; an empty number is no condition.
unfoldable pub counts_for : ℕ → Text → String → ℕ → MsgRecordRow → Bool
counts_for client_id number msg_type since row =
    nat_eq row.client_id client_id
    && leb since row.received_timestamp
    && row.type == msg_type
    && (number == [] || row.from == number)

unfoldable pub count_rows : (MsgRecordRow → Bool) → List MsgRecordRow → ℕ
count_rows p [] = 0
count_rows p (r ∷ rows) = let rest = count_rows p rows in if p r then suc rest else rest

-- The rows of the table, or `none` when the query fails.
unfoldable pub get_usage_count_by_type :
    Option (List MsgRecordRow) → ℕ → Text → String → ℕ → Option ℕ
unfolding count_rows counts_for
get_usage_count_by_type none client_id number msg_type since = none
get_usage_count_by_type (some rows) client_id number msg_type since =
    some (count_rows (counts_for client_id number msg_type since) rows)
