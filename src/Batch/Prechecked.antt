-- ===== src/Batch/Prechecked.antt =====
-- What the answer of the check route of batch_routes.go says of the limits.
use gomsggw.Base.{
  ℕ, Bool, true, [], Option, none, some, String, Text, Eq_Text, Eq_String, ◌≡◌, ◌≤◌, ◌↔◌, sym,
  subst, ap, ◌∙◌, arith, inl, inr,
}
use gomsggw.Client.{Client, ClientSettings}
use gomsggw.Limits.{
  Period, get_effective_limit, get_period_start, get_usage_count_by_type, number_limit,
}
use gomsggw.Limits.Check.{
  LimitEnv, find_limit_number, number_settings, period_usage, check_message_limits,
}
use gomsggw.Limits.Blocked.{Exceeds, check_message_limits_iff}
use gomsggw.Batch.Submit.{SubmitEnv}
use gomsggw.Batch.Precheck.{
  CheckRequest, PeriodInfo, checked, used_or_zero, client_period_limit, build_period_info,
  find_owned, default_type, check_batch,
}
use gomsggw.Batch.Fits.{check_batch-Answer, Fits, all_remaining-AllFit}

module _ (client : Client) (from : Text) (msg_type : String) where
  bare_limit :
      (s : ClientSettings)
      → client.settings ≡ some s
      → number_settings (find_limit_number from client.numbers) ≡ none
      → (period : Period)
      → (get_effective_limit client.settings
          (number_settings (find_limit_number from client.numbers))
          msg_type
          period).limit
        ≡ client_period_limit client.settings msg_type period
  bare_limit s set bare period = rw (bare, set)

  bare_usage :
      (limits : LimitEnv)
      → number_settings (find_limit_number from client.numbers) ≡ none
      → (period : Period)
      → period_usage limits client from
          (find_limit_number from client.numbers)
          msg_type
          (get_effective_limit client.settings
            (number_settings (find_limit_number from client.numbers))
            msg_type
            period)
          period
        ≡ get_usage_count_by_type
            (limits.table period)
            client.id
            []
            msg_type
            (get_period_start limits.calendar (limits.clock period) client period)
  unfolding period_usage get_effective_limit number_limit
  bare_usage limits bare period = rw bare

Fits-not-Exceeds :
    (limits : LimitEnv) (client : Client) (from : Text) (msg_type : String) (count : ℕ)
    → 1 ≤ count
    → (s : ClientSettings) → client.settings ≡ some s
    → number_settings (find_limit_number from client.numbers) ≡ none
    → (period : Period) → Fits count (build_period_info limits client msg_type period)
    → ¬ Exceeds limits client from msg_type "outbound" period
unfolding build_period_info
Fits-not-Exceeds limits client from msg_type count some_messages s set bare period fits x =
    let limit = bare_limit client from msg_type s set bare period in
    let usage = bare_usage client from msg_type limits bare period in
    let used : used_or_zero (
          get_usage_count_by_type (limits.table period) client.id [] msg_type
            (get_period_start limits.calendar (limits.clock period) client period))
        ≡ x.used =
      ap used_or_zero (sym usage ∙ x.usage_known) in
    elim fits [
      | inl unlimited ↦ omega (arith, limit, x.limit_set)
      | inr room ↦ omega (arith, limit, used, x.reached)
    ]

module _ (limits : LimitEnv) (env : SubmitEnv) (req : CheckRequest) {allowed : Bool} {from : Text}
    {periods : Period → PeriodInfo} {number : Option PeriodInfo}
    (h : check_batch limits env (some req) ≡ checked allowed from periods number) where
  -- The check route answers that a number of messages is allowed exactly when so many fit into the
  -- limit of each period that it reports, and into the daily limit of the number that it reports.
  pub check_batch_iff : (allowed ≡ true) ↔ (
      ((period : Period) → Fits req.message_count (periods period))
      × ((i : PeriodInfo) → number ≡ some i → Fits req.message_count i))
  check_batch_iff =
      let (answer, counted) = check_batch-Answer limits env req allowed from periods number h in
      rw (answer.its_allowed, answer.its_periods, answer.its_number)
        (all_remaining-AllFit limits env.client (default_type req.msg_type) req.message_count
          counted (find_owned from env.client.numbers))

  -- When the check route answers that some number of messages is allowed, the client has settings,
  -- and the number has none, `CheckMessageLimits` lets a message of the client from that number pass
  -- on the same tables and at the same times.
  pub check_batch-check_message_limits :
      (s : ClientSettings)
      → allowed ≡ true
      → env.client.settings ≡ some s
      → number_settings (find_limit_number from env.client.numbers) ≡ none
      → check_message_limits limits (some env.client) from (default_type req.msg_type) "outbound"
        ≡ none
  check_batch-check_message_limits s yes_sent set bare =
      let (answer, counted) = check_batch-Answer limits env req allowed from periods number h in
      (check_message_limits_iff limits env.client from (default_type req.msg_type) "outbound" s
          set).1
        (λ period x.
          Fits-not-Exceeds limits env.client from (default_type req.msg_type) req.message_count
            counted s set bare period
            (subst (λ p. Fits req.message_count (p period)) answer.its_periods
              ((check_batch_iff.0 yes_sent).0 period))
            x)
