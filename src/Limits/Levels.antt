-- ===== src/Limits/Levels.antt =====
-- The two levels of limits that `CheckMessageLimits` of clients.go knows, each by itself.
use gomsggw.Base.{
  ℕ, ◌≤◌, ◌<◌, true, List, [], none, some, String, Text, Eq_String, ◌==◌, ==_iff, leb, ◌≡◌, ◌↔◌,
  ◌⊎◌, inl, inr, refl, Bool-cases, Option-cases, arith,
}
use gomsggw.Client.{Client, ClientNumber, ClientSettings, NumberSettings, MsgRecordRow}
use gomsggw.Limits.{
  Period, number_limit, client_limit, get_effective_limit, should_enforce_limit, get_period_start,
  counts_for, count_rows, get_usage_count_by_type,
}
use gomsggw.Limits.Check.{
  LimitEnv, find_limit_number, number_settings, period_usage, check_message_limits,
}
use gomsggw.Limits.Blocked.{Exceeds, check_message_limits_iff}

module _ (env : LimitEnv) (client : Client) (from : Text) (msg_type direction : String)
    (period : Period) where
  -- The messages of the client in the period that a query finds; no number stands for every number.
  abbrev sent_in : List MsgRecordRow → Text → ℕ
  sent_in rows number =
      count_rows
        (counts_for client.id number msg_type
          (get_period_start env.calendar (env.clock period) client period))
        rows

  -- The sender's number has a limit of its own, which its own messages have reached.
  pub record NumberReached : Type 0 where
    pub number : ClientNumber
    pub its_number : find_limit_number from client.numbers ≡ some number
    pub settings : NumberSettings
    pub its_settings : number.settings ≡ some settings
    pub limit_set : 0 < number_limit (some settings) msg_type period
    pub enforced : (direction ≡ "outbound") ⊎ (settings.limit_both ≡ true)
    pub rows : List MsgRecordRow
    pub table : env.table period ≡ some rows
    pub reached : number_limit (some settings) msg_type period ≤ sent_in rows from

  -- The sender's number has no limit of its own, and the messages of all numbers of the client have
  -- reached the client's.
  pub record ClientReached : Type 0 where
    pub no_number_limit :
        number_limit (number_settings (find_limit_number from client.numbers)) msg_type period ≡ 0
    pub settings : ClientSettings
    pub its_settings : client.settings ≡ some settings
    pub limit_set : 0 < client_limit (some settings) msg_type period
    pub enforced : (direction ≡ "outbound") ⊎ (settings.limit_both ≡ true)
    pub rows : List MsgRecordRow
    pub table : env.table period ≡ some rows
    pub reached : client_limit (some settings) msg_type period ≤ sent_in rows []

  enforced_iff :
      (both : _)
      → (should_enforce_limit direction both ≡ true) ↔ ((direction ≡ "outbound") ⊎ (both ≡ true))
  unfolding should_enforce_limit
  enforced_iff both = elim (Bool-cases (direction == "outbound")) [
    | inl out ↦ (λ e. inl ((==_iff direction "outbound").0 out), λ e. rw out refl)
    | inr other ↦ (
      λ e. inr (rw other at e),
      λ e. elim e [
        | inl out ↦ absurd (ground (arith, other, (==_iff direction "outbound").1 out))
        | inr both_ways ↦ rw other both_ways
      ],
    )
  ]

  number-Exceeds : NumberReached → Exceeds env client from msg_type direction period
  unfolding get_effective_limit period_usage get_usage_count_by_type
  number-Exceeds r =
      let positive : leb 1 (number_limit (some r.settings) msg_type period) ≡ true =
        ground (arith, r.limit_set) in
      record {
        used = sent_in r.rows from;
        limit_set = rw (r.its_number, r.its_settings, positive) r.limit_set;
        enforced = rw (r.its_number, r.its_settings, positive) ((enforced_iff _).1 r.enforced);
        usage_known = rw (r.its_number, r.its_settings, positive, r.table) refl;
        reached = rw (r.its_number, r.its_settings, positive) r.reached;
      }

  client-Exceeds : ClientReached → Exceeds env client from msg_type direction period
  unfolding get_effective_limit period_usage get_usage_count_by_type get_period_start
  client-Exceeds r = record {
    used = sent_in r.rows [];
    limit_set = rw (r.no_number_limit, r.its_settings) r.limit_set;
    enforced = rw (r.no_number_limit, r.its_settings) ((enforced_iff _).1 r.enforced);
    usage_known = rw (r.no_number_limit, r.table) refl;
    reached = rw (r.no_number_limit, r.its_settings) r.reached;
  }

  pub level-Exceeds :
      NumberReached ⊎ ClientReached → Exceeds env client from msg_type direction period
  level-Exceeds (inl r) = number-Exceeds r
  level-Exceeds (inr r) = client-Exceeds r

  module _ (x : Exceeds env client from msg_type direction period) where
    by_number :
        (number : ClientNumber) (settings : NumberSettings) (rows : List MsgRecordRow)
        → find_limit_number from client.numbers ≡ some number
        → number.settings ≡ some settings
        → env.table period ≡ some rows
        → leb 1 (number_limit (some settings) msg_type period) ≡ true
        → NumberReached
    unfolding get_effective_limit period_usage get_usage_count_by_type
    by_number number settings rows found has table positive = record {
      number = number;
      its_number = found;
      settings = settings;
      its_settings = has;
      limit_set = ground (arith, positive);
      enforced = (enforced_iff _).0 (rw (found, has, positive) at x.enforced);
      rows = rows;
      table = table;
      reached =
          let used : some (sent_in rows from) ≡ some x.used =
            rw (found, has, positive, table) at x.usage_known in
          let most : number_limit (some settings) msg_type period ≤ x.used =
            rw (found, has, positive) at x.reached in
          ground (arith, used, most);
    }

    by_client :
        (settings : ClientSettings) (rows : List MsgRecordRow)
        → number_limit (number_settings (find_limit_number from client.numbers)) msg_type period ≡ 0
        → client.settings ≡ some settings
        → env.table period ≡ some rows
        → ClientReached
    unfolding get_effective_limit period_usage get_usage_count_by_type get_period_start
    by_client settings rows no_limit has table = record {
      no_number_limit = no_limit;
      settings = settings;
      its_settings = has;
      limit_set = rw (no_limit, has) at x.limit_set;
      enforced = (enforced_iff _).0 (rw (no_limit, has) at x.enforced);
      rows = rows;
      table = table;
      reached =
          let used : some (sent_in rows []) ≡ some x.used = rw (no_limit, table) at x.usage_known in
          let most : client_limit (some settings) msg_type period ≤ x.used =
            rw (no_limit, has) at x.reached in
          ground (arith, used, most);
    }

    no_table : env.table period ≡ none → ⊥
    unfolding period_usage get_usage_count_by_type
    no_table missing = ground (arith, rw missing at x.usage_known)

    reached_by :
        (settings : ClientSettings)
        → client.settings ≡ some settings
        → NumberReached ⊎ ClientReached
    unfolding number_limit
    reached_by settings has = elim (Option-cases (env.table period)) [
      | inl missing ↦ absurd (no_table missing)
      | inr (rows, table) ↦ elim (Option-cases (find_limit_number from client.numbers)) [
        | inl unknown ↦ inr (by_client settings rows (rw unknown refl) has table)
        | inr (number, found) ↦ elim (Option-cases number.settings) [
          | inl unset ↦ inr (by_client settings rows (rw (found, unset) refl) has table)
          | inr (own, set) ↦ elim (Bool-cases (leb 1 (number_limit (some own) msg_type period))) [
            | inl positive ↦ inl (by_number number own rows found set table positive)
            | inr zero_limit ↦
                inr
                  (by_client settings rows (rw (found, set) (ground (arith, zero_limit))) has table)
          ]
        ]
      ]
    ]

-- `CheckMessageLimits` lets a message of a client with settings pass exactly when in no period the
-- sender's number has a limit of its own that its messages have reached, and in no period in which
-- it has none the client has a limit that the messages of all its numbers have reached. A limit
-- counts if the message is outbound or the level of the limit holds for both directions, and if the
-- query for the messages of the period does not fail.
pub check_message_limits_levels :
    (env : LimitEnv) (client : Client) (from : Text) (msg_type direction : String)
    (s : ClientSettings)
    → client.settings ≡ some s
    → (check_message_limits env (some client) from msg_type direction ≡ none) ↔ (
        (period : Period)
        → (NumberReached env client from msg_type direction period → ⊥)
          × (ClientReached env client from msg_type direction period → ⊥))
check_message_limits_levels env client from msg_type direction s h =
    let law = check_message_limits_iff env client from msg_type direction s h in
    (
      λ passes period. (
        λ r. law.0 passes period (number-Exceeds env client from msg_type direction period r),
        λ r. law.0 passes period (client-Exceeds env client from msg_type direction period r),
      ),
      λ free. law.1 (λ period x. elim (reached_by env client from msg_type direction period x s h) [
        | inl r ↦ (free period).0 r
        | inr r ↦ (free period).1 r
      ]),
    )
