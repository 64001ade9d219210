-- ===== src/Batch/Fits.antt =====
-- What the check route of batch_routes.go counts as fitting into the limits.
use gomsggw.Base.{
  ℕ, ◌+◌, Bool, true, Option, none, some, String, Text, codes, Eq_Text, Eq_String, leb, ◌≡◌, ◌≤◌,
  ◌↔◌, ◌⊎◌, refl, subst, arith, Bool-cases, inl, inr,
}
use gomsggw.Client.{Client, ClientNumber}
use gomsggw.Limits.{Period, burst, daily, monthly}
use gomsggw.Limits.Check.{LimitEnv}
use gomsggw.Batch.Submit.{SubmitEnv, resolve_from, owns_number, key_has_scope, key_allows}
use gomsggw.Batch.Precheck.{
  CheckRequest, info, PeriodInfo, checked, build_period_info, number_info, find_owned,
  check_remaining, remaining_of, all_remaining, default_type, check_from, check_read, check_batch,
}

-- What a request that was answered is answered with.
pub record Answer (limits : LimitEnv) (env : SubmitEnv) (req : CheckRequest) (allowed : Bool)
    (periods : Period → PeriodInfo) (number : Option PeriodInfo) (from : Text) : Type 0 where
  pub its_allowed : allowed ≡ all_remaining req.message_count periods number
  pub its_periods : periods ≡ build_period_info limits env.client (default_type req.msg_type)
  pub its_number :
      number
      ≡ number_info limits env.client
          (default_type req.msg_type)
          (find_owned from env.client.numbers)

module _ (limits : LimitEnv) (env : SubmitEnv) (req : CheckRequest) (allowed : Bool) (from : Text)
    (periods : Period → PeriodInfo) (number : Option PeriodInfo) where
  check_from-Answer :
      (o : Option Text)
      → check_from limits env req o ≡ checked allowed from periods number
      → Answer limits env req allowed periods number from
  unfolding check_from
  check_from-Answer none h = cc
  check_from-Answer (some f) h = elim (Bool-cases (owns_number f env.client.numbers)) [
    | inr foreign ↦ absurd (ground (arith, h, foreign))
    | inl owned ↦ elim (Bool-cases (key_allows f env.api_key)) [
      | inr kept_out ↦ absurd (ground (arith, h, owned, kept_out))
      | inl let_in ↦ answered f (rw (owned, let_in) at h)
    ]
  ]
    where
      answered :
          (f : Text)
          → checked
              (all_remaining req.message_count
                (build_period_info limits env.client (default_type req.msg_type))
                (number_info limits env.client
                  (default_type req.msg_type)
                  (find_owned f env.client.numbers)))
              f
              (build_period_info limits env.client (default_type req.msg_type))
              (number_info limits env.client
                (default_type req.msg_type)
                (find_owned f env.client.numbers))
            ≡ checked allowed from periods number
          → Answer limits env req allowed periods number from
      answered f e = record { its_allowed = cc e; its_periods = cc e; its_number = cc e }

  pub check_batch-Answer :
      check_batch limits env (some req) ≡ checked allowed from periods number
      → Answer limits env req allowed periods number from × (1 ≤ req.message_count)
  unfolding check_batch check_read
  check_batch-Answer h = elim (Bool-cases (key_has_scope (codes "batch") env.api_key)) [
    | inr unscoped ↦ absurd (ground (arith, h, unscoped))
    | inl scoped ↦ elim (Bool-cases (leb req.message_count 0)) [
      | inl no_count ↦ absurd (ground (arith, h, scoped, no_count))
      | inr counted ↦ (
        check_from-Answer (resolve_from req.from env.client) (ground (arith, h, scoped, counted)),
        ground (arith, counted),
      )
    ]
  ]

-- There is no limit, or so many messages more stay within it.
abbrev pub Fits : ℕ → PeriodInfo → Type 0
Fits count i = (i.limit ≡ 0) ⊎ (i.current_usage + count ≤ i.limit)

info-Fits :
    (count used limit : ℕ)
    → 1 ≤ count
    → (check_remaining count (info used limit).remaining ≡ true) ↔ Fits count (info used limit)
info-Fits count used limit h = (ground (arith, h), ground (arith, h))

Fits-some : (count : ℕ) (a i : PeriodInfo) → some a ≡ some i → Fits count a → Fits count i
Fits-some count a i h fits = let same : a ≡ i = cc h in subst (Fits count) same fits

abbrev pub AllFit : (count : ℕ) → (Period → PeriodInfo) → Option PeriodInfo → Type 0
AllFit count periods number =
    ((period : Period) → Fits count (periods period))
    × ((i : PeriodInfo) → number ≡ some i → Fits count i)

module _ (limits : LimitEnv) (client : Client) (msg_type : String) (count : ℕ)
    (some_messages : 1 ≤ count) where
  period-Fits :
      (period : Period)
      → (check_remaining count (build_period_info limits client msg_type period).remaining ≡ true)
        ↔ Fits count (build_period_info limits client msg_type period)
  unfolding build_period_info
  period-Fits period = info-Fits count _ _ some_messages

  number-Fits :
      (o : Option ClientNumber)
      → (check_remaining count (remaining_of (number_info limits client msg_type o)) ≡ true)
        ↔ ((i : PeriodInfo) → number_info limits client msg_type o ≡ some i → Fits count i)
  unfolding number_info
  number-Fits none = ((λ e i h. cc), (λ e. refl))
  number-Fits (some n) = (
    (λ e i h. Fits-some count _ i h ((info-Fits count _ _ some_messages).0 e)),
    (λ all. (info-Fits count _ _ some_messages).1 (all _ refl)),
  )

  pub all_remaining-AllFit :
      (o : Option ClientNumber)
      → (all_remaining count
            (build_period_info limits client msg_type)
            (number_info limits client msg_type o)
          ≡ true)
        ↔ AllFit count
            (build_period_info limits client msg_type)
            (number_info limits client msg_type o)
  all_remaining-AllFit o = (to, back)
    where
      to :
          all_remaining count
              (build_period_info limits client msg_type)
              (number_info limits client msg_type o)
            ≡ true
          → AllFit count
              (build_period_info limits client msg_type)
              (number_info limits client msg_type o)
      to h = (each, (number-Fits o).0 (ground (arith, h)))
        where
          each : (period : Period) → Fits count (build_period_info limits client msg_type period)
          each burst = (period-Fits burst).0 (ground (arith, h))
          each daily = (period-Fits daily).0 (ground (arith, h))
          each monthly = (period-Fits monthly).0 (ground (arith, h))

      back :
          AllFit count
            (build_period_info limits client msg_type)
            (number_info limits client msg_type o)
          → all_remaining count
              (build_period_info limits client msg_type)
              (number_info limits client msg_type o)
            ≡ true
      back h = ground (
        arith,
        (period-Fits burst).1 (h.0 burst),
        (period-Fits daily).1 (h.0 daily),
        (period-Fits monthly).1 (h.0 monthly),
        (number-Fits o).1 h.1,
      )
