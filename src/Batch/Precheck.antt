-- ===== src/Batch/Precheck.antt =====
-- POST /messages/batch/check of batch_routes.go: whether a number of messages is within the limits.
-- A usage query that fails counts as no usage. The texts of the answer are not modelled.
use gomsggw.Base.{
  ℕ, ◌-◌, Bool, true, not, ◌&&◌, ◌||◌, List, [], ◌∷◌, Option, none, some, String, Text, codes,
  Eq_Text, Eq_String, ◌==◌, leb, ltb, nat_eq, if◌then◌else◌,
}
use gomsggw.Base.Strings.{trim_plus}
use gomsggw.Client.{Client, ClientNumber, ClientSettings, NumberSettings, MsgRecordRow}
use gomsggw.Limits.{
  Period, burst, daily, monthly, get_effective_limit, get_period_start, get_usage_count_by_type,
  count_rows,
}
use gomsggw.Limits.Check.{LimitEnv}
use gomsggw.Batch.Submit.{SubmitEnv, resolve_from, owns_number, key_has_scope, key_allows}

pub record CheckRequest : Type 0 where
  pub from : Text
  pub message_count : ℕ
  pub msg_type : String

-- `remaining` is null where there is no limit.
pub record PeriodInfo : Type 0 where
  pub current_usage : ℕ
  pub limit : ℕ
  pub remaining : Option ℕ

pub data CheckResult : Type 0 where
  no_scope bad_body bad_count from_required not_owned key_not_allowed : CheckResult
  checked : Bool → Text → (Period → PeriodInfo) → Option PeriodInfo → CheckResult

abbrev pub used_or_zero : Option ℕ → ℕ
used_or_zero none = 0
used_or_zero (some n) = n

abbrev pub limit_part : Option ClientSettings → Option NumberSettings → String → Period → ℕ
limit_part settings number msg_type period =
    (get_effective_limit settings number msg_type period).limit

abbrev pub client_period_limit : Option ClientSettings → String → Period → ℕ
client_period_limit none msg_type period = 0
client_period_limit (some s) msg_type period = limit_part (some s) none msg_type period

abbrev pub number_daily_limit : Option ClientSettings → Option NumberSettings → String → ℕ
number_daily_limit settings none msg_type = 0
number_daily_limit settings (some s) msg_type = limit_part settings (some s) msg_type daily

abbrev pub info : ℕ → ℕ → PeriodInfo
info used limit = record {
  current_usage = used;
  limit = limit;
  remaining = if leb 1 limit then some (limit - used) else none;
}

unfoldable pub build_period_info : LimitEnv → Client → String → Period → PeriodInfo
build_period_info env client msg_type period =
    info
      (used_or_zero (
        get_usage_count_by_type (env.table period) client.id [] msg_type
          (get_period_start env.calendar (env.clock period) client period)))
      (client_period_limit client.settings msg_type period)

-- The conditions of `GetUsageCountWithDirection` of msg_records.go on the number
abbrev pub number_in_direction : Text → String → MsgRecordRow → Bool
number_in_direction number direction row =
    if number == []
    then true
    else if direction == "outbound"
    then row.from == number
    else if direction == "inbound"
    then row.to == number
    else row.from == number || row.to == number

unfoldable pub counts_in_direction : ℕ → Text → String → String → ℕ → MsgRecordRow → Bool
counts_in_direction client_id number msg_type direction since row =
    nat_eq row.client_id client_id
    && leb since row.received_timestamp
    && row.type == msg_type
    && number_in_direction number direction row
    && (direction == "" || direction == "both" || row.direction == direction)

unfoldable pub get_usage_count_with_direction :
    Option (List MsgRecordRow) → ℕ → Text → String → String → ℕ → Option ℕ
unfolding counts_in_direction count_rows
get_usage_count_with_direction none client_id number msg_type direction since = none
get_usage_count_with_direction (some rows) client_id number msg_type direction since =
    some (count_rows (counts_in_direction client_id number msg_type direction since) rows)

-- The first number of the client that the batch is to be sent from.
unfoldable pub find_owned : Text → List ClientNumber → Option ClientNumber
find_owned from [] = none
find_owned from (n ∷ ns) =
    let rest = find_owned from ns in
    if n.number == from || trim_plus n.number == trim_plus from then some n else rest

unfoldable pub number_info : LimitEnv → Client → String → Option ClientNumber → Option PeriodInfo
unfolding get_usage_count_with_direction
number_info env client msg_type none = none
number_info env client msg_type (some n) = some (
    info
      (used_or_zero (
        get_usage_count_with_direction (env.table daily) client.id n.number msg_type "outbound"
          (get_period_start env.calendar (env.clock daily) client daily)))
      (number_daily_limit client.settings n.settings msg_type))

-- The closure `checkRemaining`: whether it leaves `allowed` as it is.
abbrev pub check_remaining : ℕ → Option ℕ → Bool
check_remaining count none = true
check_remaining count (some remaining) = not (ltb remaining count)

abbrev pub remaining_of : Option PeriodInfo → Option ℕ
remaining_of none = none
remaining_of (some i) = i.remaining

abbrev pub all_remaining : ℕ → (Period → PeriodInfo) → Option PeriodInfo → Bool
all_remaining count periods number =
    check_remaining count (periods burst).remaining
    && check_remaining count (periods daily).remaining
    && check_remaining count (periods monthly).remaining
    && check_remaining count (remaining_of number)

abbrev pub default_type : String → String
default_type msg_type = if msg_type == "" then "sms" else msg_type

unfoldable pub check_from : LimitEnv → SubmitEnv → CheckRequest → Option Text → CheckResult
unfolding build_period_info number_info find_owned owns_number
check_from limits env req none = from_required
check_from limits env req (some from) =
    let msg_type = default_type req.msg_type in
    let periods = build_period_info limits env.client msg_type in
    let number = number_info limits env.client msg_type (find_owned from env.client.numbers) in
    if not (owns_number from env.client.numbers)
    then not_owned
    else if not (key_allows from env.api_key)
    then key_not_allowed
    else checked (all_remaining req.message_count periods number) from periods number

unfoldable pub check_read : LimitEnv → SubmitEnv → Option CheckRequest → CheckResult
unfolding check_from resolve_from
check_read limits env none = bad_body
check_read limits env (some req) =
    if leb req.message_count 0
    then bad_count
    else check_from limits env req (resolve_from req.from env.client)

unfoldable pub check_batch : LimitEnv → SubmitEnv → Option CheckRequest → CheckResult
unfolding check_read
check_batch limits env body =
    if not (key_has_scope (codes "batch") env.api_key) then no_scope else check_read limits env body
