-- ===== src/Examples/Routing.antt =====
-- Examples for the limits of clients.go and for `processMessage` of router.go.
use gomsggw.Base.{
  ◌⊎◌, ◌+◌, ◌*◌, ◌≤◌, false, [], ◌∷◌, none, some, codes, length, text_eq, Eq_Text, Eq_String, ◌≡◌,
  ◌↔◌, refl,
}
use gomsggw.Base.Strings.{has_prefix, contains, trim_plus}
use gomsggw.Client.{Client}
use gomsggw.Examples.{sms, alice, bob, client_of, settings_with_burst, limit_env, env_with, start}
use gomsggw.Limits.{
  Period, burst, get_effective_limit, number_limit, client_limit, should_enforce_limit,
  get_period_start, get_usage_count_by_type, count_rows, counts_for,
}
use gomsggw.Limits.Blocked.{Exceeds, Earlier, limit_of, check_message_limits-first}
use gomsggw.Limits.Levels.{NumberReached, ClientReached, check_message_limits_levels}
use gomsggw.Limits.Check.{
  LimitCheckResult, check_message_limits, check_period, find_limit_number, period_usage,
}
use gomsggw.Message.{MsgQueueItem}
use gomsggw.Router.Accounting.{count_done}
use gomsggw.Router.Requeue.{NotQueued, process_message-NotQueued}
use gomsggw.Router.Process.{process_message}
use gomsggw.Router.Runs.{ConvoOutcome, process_message-Accounted, process_message-ConvoOutcome}
use gomsggw.Router.{client, RouterEnv}

-- A client whose limit of two messages a minute is used up, and one without limits.
abbrev limited : Client
limited = client_of 1 alice 2

abbrev free : Client
free = client_of 2 bob 0

abbrev env : RouterEnv
env = env_with (limited ∷ free ∷ [])

abbrev outgoing : MsgQueueItem
outgoing = sms alice "12505550111" "hello"

check_message_limits_levels_example :
    (check_message_limits limit_env (some free) (codes bob) "sms" "outbound" ≡ none) ↔ (
      (period : Period)
      → (NumberReached limit_env free (codes bob) "sms" "outbound" period → ⊥)
        × (ClientReached limit_env free (codes bob) "sms" "outbound" period → ⊥))
check_message_limits_levels_example =
    check_message_limits_levels limit_env free (codes bob) "sms" "outbound" (settings_with_burst 0)
      refl

abbrev blocked_result : LimitCheckResult
blocked_result = record {
  allowed = false;
  limit_type = (burst, "sms", "client");
  current_usage = 2;
  limit = 2;
  period = burst;
  number = codes alice;
}

limited_blocked :
    check_message_limits limit_env (some limited) (codes alice) "sms" "outbound"
    ≡ some blocked_result
unfolding check_message_limits check_period contains has_prefix trim_plus get_effective_limit
    number_limit client_limit should_enforce_limit get_period_start get_usage_count_by_type
    count_rows counts_for find_limit_number period_usage text_eq
limited_blocked = refl

check_message_limits-first_example :
    Exceeds limit_env limited (codes alice) "sms" "outbound" burst
    × ((period : Period)
        → Earlier period burst
        → ¬ Exceeds limit_env limited (codes alice) "sms" "outbound" period)
    × (blocked_result.allowed ≡ false)
    × (blocked_result.limit
        ≡ (limit_of limit_env limited (codes alice) "sms" "outbound" burst).limit)
    × (blocked_result.limit ≤ blocked_result.current_usage)
check_message_limits-first_example =
    check_message_limits-first limit_env limited (codes alice) "sms" "outbound"
      (settings_with_burst 2) refl limited_blocked

process_message-Accounted_example :
    length (process_message env client outgoing start).records + 2 * count_done start.sends
    ≤ length start.records + 2 * count_done (process_message env client outgoing start).sends
process_message-Accounted_example = process_message-Accounted env client outgoing start

process_message-ConvoOutcome_example :
    ConvoOutcome env outgoing start (process_message env client outgoing start)
process_message-ConvoOutcome_example = process_message-ConvoOutcome env outgoing start

process_message-NotQueued_example :
    (count_done (process_message env client outgoing start).sends ≡ count_done start.sends)
    ⊎ NotQueued outgoing start (process_message env client outgoing start)
process_message-NotQueued_example = process_message-NotQueued env client outgoing start
