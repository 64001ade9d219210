-- ===== src/Limits/Blocked.antt =====
-- When `CheckMessageLimits` of clients.go blocks a message.
use gomsggw.Base.{
  ℕ, ◌≤◌, ◌<◌, true, false, Option, none, some, String, Text, ◌≡◌, ◌↔◌, ◌⊎◌, inl, inr, refl, sym,
  subst, ◌∙◌, Option-cases, arith,
}
use gomsggw.Client.{Client, ClientNumber, ClientSettings}
use gomsggw.Limits.{
  Period, burst, daily, monthly, EffectiveLimit, get_effective_limit, should_enforce_limit,
}
use gomsggw.Limits.Check.{
  LimitCheckResult, LimitEnv, find_limit_number, number_settings, period_usage, check_period,
  check_message_limits, or_else,
}

-- The periods that are checked before one.
abbrev pub Earlier : Period → Period → Type 0
Earlier burst daily = Unit
Earlier burst monthly = Unit
Earlier daily monthly = Unit
Earlier _ _ = ⊥

or_else-eq-some :
    (o next : Option LimitCheckResult) {r : LimitCheckResult}
    → or_else o next ≡ some r
    → (o ≡ some r) ⊎ ((o ≡ none) × (next ≡ some r))
or_else-eq-some none next h = inr (refl, h)
or_else-eq-some (some q) next h = inl h

module _ (env : LimitEnv) (client : Client) (from : Text) (msg_type direction : String) where
  -- The number of the client that the limits are read from, and the limit of a period.
  abbrev pub limited_number : Option ClientNumber
  limited_number = find_limit_number from client.numbers

  abbrev pub limit_of : Period → EffectiveLimit
  limit_of period =
      get_effective_limit client.settings (number_settings limited_number) msg_type period

  -- The limit of a period is set, is enforced in this direction, and is reached by the usage.
  pub record Exceeds (period : Period) : Type 0 where
    pub used : ℕ
    pub limit_set : 0 < (limit_of period).limit
    pub enforced : should_enforce_limit direction (limit_of period).limit_both ≡ true
    pub usage_known :
        period_usage env client from limited_number msg_type (limit_of period) period ≡ some used
    pub reached : (limit_of period).limit ≤ used

  abbrev pub round : Period → Option LimitCheckResult
  round period = check_period env client from limited_number msg_type direction period

  round-none : (period : Period) → round period ≡ none → ¬ Exceeds period
  unfolding check_period
  round-none period h x = ground (arith, x.limit_set, x.enforced, x.usage_known, x.reached)

  round-some :
      (period : Period) {r : LimitCheckResult}
      → round period ≡ some r
      → Exceeds period
        × (r.period ≡ period)
        × (r.limit ≡ (limit_of period).limit)
        × (r.limit ≤ r.current_usage)
        × (r.allowed ≡ false)
  unfolding check_period
  round-some period {r} h =
      elim (Option-cases
        (period_usage env client from limited_number msg_type (limit_of period) period)) [
          | inl unknown ↦ absurd (ground (arith, unknown))
          | inr (used, known) ↦ (
            record {
              used = used;
              limit_set = ground (arith, known);
              enforced = ground (arith, known);
              usage_known = known;
              reached = ground (arith, known);
            },
            ground (arith, known),
            ground (arith, known),
            ground (arith, known),
            ground (arith, known),
          )
        ]

  check_rounds :
      (s : ClientSettings)
      → client.settings ≡ some s
      → check_message_limits env (some client) from msg_type direction
        ≡ or_else (round burst) (or_else (round daily) (round monthly))
  unfolding check_message_limits
  check_rounds s h = rw (h, check_message_limits)

  -- `CheckMessageLimits` lets a message of a client with settings pass exactly when in no period
  -- its limit is set, enforced in this direction, known to be used, and reached. The limit of a
  -- period is that of the number where it is positive, and else that of the client.
  pub check_message_limits_iff :
      (s : ClientSettings)
      → client.settings ≡ some s
      → (check_message_limits env (some client) from msg_type direction ≡ none)
        ↔ ((period : Period) → ¬ Exceeds period)
  check_message_limits_iff s h = (to, back)
    where
      to :
          check_message_limits env (some client) from msg_type direction ≡ none
          → (period : Period) → ¬ Exceeds period
      to e burst = round-none burst (ground (arith, check_rounds s h))
      to e daily = round-none daily (ground (arith, check_rounds s h))
      to e monthly = round-none monthly (ground (arith, check_rounds s h))

      clear : (period : Period) → ¬ Exceeds period → round period ≡ none
      clear period n = elim (Option-cases (round period)) [
        | inl e ↦ e
        | inr (r, e) ↦ absurd (n (round-some period e).0)
      ]

      back :
          ((period : Period) → ¬ Exceeds period)
          → check_message_limits env (some client) from msg_type direction ≡ none
      back n =
          check_rounds s h
          ∙ rw (clear burst (n burst), clear daily (n daily), clear monthly (n monthly))

  none_before_burst : (q : Period) → Earlier q burst → ⊥
  none_before_burst burst e = e
  none_before_burst daily e = e
  none_before_burst monthly e = e

  before_daily : (q : Period) → Earlier q daily → q ≡ burst
  before_daily burst e = refl
  before_daily daily e = absurd e
  before_daily monthly e = absurd e

  before_monthly :
      round burst ≡ none → round daily ≡ none → (q : Period) → Earlier q monthly → ¬ Exceeds q
  before_monthly nb nd burst e = round-none burst nb
  before_monthly nb nd daily e = round-none daily nd
  before_monthly nb nd monthly e = absurd e

  -- What a result tells when it comes from one period's round.
  abbrev FirstBlocked : LimitCheckResult → Type 0
  FirstBlocked r =
      Exceeds r.period
      × ((period : Period) → Earlier period r.period → ¬ Exceeds period)
      × (r.allowed ≡ false)
      × (r.limit ≡ (limit_of r.period).limit)
      × (r.limit ≤ r.current_usage)

  at_period :
      (period : Period) {r : LimitCheckResult}
      → round period ≡ some r
      → ((q : Period) → Earlier q period → ¬ Exceeds q)
      → FirstBlocked r
  at_period period {r} e before =
      let (x, p, l, u, a) = round-some period e in
      subst
        (λ q.
          Exceeds q
          × ((period : Period) → Earlier period q → ¬ Exceeds period)
          × (r.allowed ≡ false)
          × (r.limit ≡ (limit_of q).limit)
          × (r.limit ≤ r.current_usage))
        (sym p) (x, before, a, l, u)

  -- A message that `CheckMessageLimits` blocks is blocked by the first period that it exceeds, in
  -- the order burst, daily, monthly, and the result tells that period, its limit, and a usage that
  -- is at least the limit.
  pub check_message_limits-first :
      (s : ClientSettings) {r : LimitCheckResult}
      → client.settings ≡ some s
      → check_message_limits env (some client) from msg_type direction ≡ some r
      → Exceeds r.period
        × ((period : Period) → Earlier period r.period → ¬ Exceeds period)
        × (r.allowed ≡ false)
        × (r.limit ≡ (limit_of r.period).limit)
        × (r.limit ≤ r.current_usage)
  check_message_limits-first s {r} h e =
      elim (or_else-eq-some (round burst) _ (sym (check_rounds s h) ∙ e)) [
        | inl b ↦ at_period burst b (λ q earlier. elim (none_before_burst q earlier) [ ])
        | inr (nb, rest) ↦ elim (or_else-eq-some (round daily) _ rest) [
          | inl d ↦
              at_period daily d
                (λ q earlier x. round-none burst nb (rw (before_daily q earlier) at x))
          | inr (nd, m) ↦ at_period monthly m (before_monthly nb nd)
        ]
      ]
