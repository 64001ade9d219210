-- ===== src/Limits/Check.antt =====
-- `CheckMessageLimits` of clients.go. Each period's query sees the table, and the clock, as they
-- are when it runs. The text for the user in the result is not modelled.
use gomsggw.Base.{
  ℕ, Bool, true, false, not, ◌&&◌, ◌||◌, List, [], ◌∷◌, Option, none, some, String, Text, leb, ◌==◌,
  Eq_Text, if◌then◌else◌,
}
use gomsggw.Base.Strings.{contains, trim_plus}
use gomsggw.Client.{Client, ClientNumber, ClientSettings, NumberSettings, MsgRecordRow}
use gomsggw.Limits.{
  Period, burst, daily, monthly, Calendar, get_period_start, EffectiveLimit, get_effective_limit,
  should_enforce_limit, get_usage_count_by_type,
}

-- `LimitCheckResult`; `limit_type` is the period, the message type and the level.
pub record LimitCheckResult : Type 0 where
  pub allowed : Bool
  pub limit_type : Period × String × String
  pub current_usage : ℕ
  pub limit : ℕ
  pub period : Period
  pub number : Text

-- What the environment gives: the table as a period's query sees it, and the clock.
pub record LimitEnv : Type 1 where
  pub calendar : Calendar
  pub table : Period → Option (List MsgRecordRow)
  pub clock : Period → ℕ

unfoldable pub find_limit_number : Text → List ClientNumber → Option ClientNumber
find_limit_number from [] = none
find_limit_number from (n ∷ ns) =
    let rest = find_limit_number from ns in
    if contains from n.number || trim_plus n.number == trim_plus from then some n else rest

abbrev pub number_settings : Option ClientNumber → Option NumberSettings
number_settings none = none
number_settings (some n) = n.settings

abbrev pub is_found : Option ClientNumber → Bool
is_found none = false
is_found (some _) = true

-- The number that a query counts for: "" for the whole client.
abbrev pub counted_number : Bool → Text → Text
counted_number number_level from = if number_level then from else []

unfoldable pub period_usage :
    LimitEnv → Client → Text → Option ClientNumber → String → EffectiveLimit → Period → Option ℕ
period_usage env client from ref msg_type e period =
    get_usage_count_by_type (env.table period) client.id
      (counted_number (e.is_number_level && is_found ref) from) msg_type
      (get_period_start env.calendar (env.clock period) client period)

over_limit : EffectiveLimit → Text → String → Period → Option ℕ → Option LimitCheckResult
over_limit e from msg_type period none = none
over_limit e from msg_type period (some used) =
    if leb e.limit used
    then some (record {
      allowed = false;
      limit_type = (period, msg_type, if e.is_number_level then "number" else "client");
      current_usage = used;
      limit = e.limit;
      period = period;
      number = from;
    })
    else none

-- One round of the loop over the periods.
unfoldable pub check_period :
    LimitEnv
    → Client
    → Text
    → Option ClientNumber
    → String
    → String
    → Period
    → Option LimitCheckResult
unfolding over_limit
check_period env client from ref msg_type direction period =
    let e = get_effective_limit client.settings (number_settings ref) msg_type period in
    if leb e.limit 0
    then none
    else if not (should_enforce_limit direction e.limit_both)
    then none
    else over_limit e from msg_type period (period_usage env client from ref msg_type e period)

abbrev pub or_else : Option LimitCheckResult → Option LimitCheckResult → Option LimitCheckResult
or_else none next = next
or_else (some r) next = some r

check_periods : (Period → Option LimitCheckResult) → Option LimitCheckResult
check_periods round = or_else (round burst) (or_else (round daily) (round monthly))

check_with_settings :
    LimitEnv → Option ClientSettings → Client → Text → String → String → Option LimitCheckResult
check_with_settings env none client from msg_type direction = none
check_with_settings env (some _) client from msg_type direction =
    check_periods
      (check_period env client from (find_limit_number from client.numbers) msg_type direction)

unfoldable pub check_message_limits :
    LimitEnv → Option Client → Text → String → String → Option LimitCheckResult
unfolding check_with_settings check_periods
check_message_limits env none from msg_type direction = none
check_message_limits env (some client) from msg_type direction =
    check_with_settings env client.settings client from msg_type direction
