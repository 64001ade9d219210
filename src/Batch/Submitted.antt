-- ===== src/Batch/Submitted.antt =====
-- Which batches the submit route of batch_routes.go takes.
use gomsggw.Base.{
  true, List, Option, none, some, Text, codes, Eq_Text, leb, nat_eq, length, ◌≡◌, ◌≤◌, ◌↔◌, refl,
  sym, ◌∙◌, arith, Bool-cases, inl, inr,
}
use gomsggw.Batch.{BatchJob}
use gomsggw.Batch.Messages.{BatchMessage}
use gomsggw.Batch.Submit.{
  BatchRequest, json, SubmitResult, accepted, SubmitEnv, resolve_from, owns_number, key_has_scope,
  key_allows, new_job, submit_from, submit_read, submit_batch,
}

-- What the submit route asks of a request.
pub record MaySend (env : SubmitEnv) (req : BatchRequest) (from : Text) : Type 0 where
  pub scoped : key_has_scope (codes "batch") env.api_key ≡ true
  pub some_messages : 1 ≤ length req.messages
  pub few_messages : length req.messages ≤ 10000
  pub from_number : resolve_from req.from env.client ≡ some from
  pub owned : owns_number from env.client.numbers ≡ true
  pub allowed : key_allows from env.api_key ≡ true
  pub kept : env.stored ≡ true

abbrev Accepted : SubmitEnv → BatchRequest → Text → SubmitResult
Accepted env req from = accepted (new_job env req from) req.messages req.text_template

submit_from_accepts :
    (env : SubmitEnv) (req : BatchRequest) (from : Text)
    → owns_number from env.client.numbers ≡ true
    → key_allows from env.api_key ≡ true
    → env.stored ≡ true
    → submit_from env req (some from) ≡ Accepted env req from
unfolding submit_from
submit_from_accepts env req from owned allowed kept = rw (owned, allowed, kept)

submit_from_steps :
    (env : SubmitEnv) (req : BatchRequest) (o : Option Text) (job : BatchJob)
    (messages : List BatchMessage) (template : Text)
    → submit_from env req o ≡ accepted job messages template
    → (from : Text) × (o ≡ some from)
      × (owns_number from env.client.numbers ≡ true)
      × (key_allows from env.api_key ≡ true)
      × (env.stored ≡ true)
unfolding submit_from
submit_from_steps env req none job messages template h = cc
submit_from_steps env req (some from) job messages template h =
    (from, refl, ground (arith, h), ground (arith, h), ground (arith, h))

module _ (env : SubmitEnv) (req : BatchRequest) (job : BatchJob) (messages : List BatchMessage)
    (template : Text) where
  submit_accepts :
      (from : Text)
      → MaySend env req from
      → submit_batch env (json (some req)) ≡ Accepted env req from
  unfolding submit_batch submit_read
  submit_accepts from may =
      rw (may.scoped, may.from_number)
        (ground (
          arith,
          may.some_messages,
          may.few_messages,
          submit_from_accepts env req from may.owned may.allowed may.kept,
        ))

  submit_steps :
      submit_batch env (json (some req)) ≡ accepted job messages template
      → (from : Text) × MaySend env req from
  unfolding submit_batch submit_read
  submit_steps h = elim (Bool-cases (key_has_scope (codes "batch") env.api_key)) [
    | inr unscoped ↦ absurd (ground (arith, h, unscoped))
    | inl scoped ↦ elim (Bool-cases (nat_eq (length req.messages) 0)) [
      | inl empty ↦ absurd (ground (arith, h, scoped, empty))
      | inr some_messages ↦ elim (Bool-cases (leb (length req.messages) 10000)) [
        | inr many ↦ absurd (ground (arith, h, scoped, some_messages, many))
        | inl few ↦
            let (from, is, owned, allowed, kept) =
              submit_from_steps env req (resolve_from req.from env.client) job messages template
                (ground (arith, h, scoped, some_messages, few)) in
            (
              from,
              record {
                scoped = scoped;
                some_messages = ground (arith, some_messages);
                few_messages = ground (arith, few);
                from_number = is;
                owned = owned;
                allowed = allowed;
                kept = kept;
              },
            )
      ]
    ]
  ]

  -- The submit route takes a JSON request exactly when the API key, if there is one, has the scope
  -- "batch", there are 1 to 10,000 messages, a number to send from is given or the client has just
  -- one, the client owns the number, the key allows it, and the job is stored. The job is then the
  -- new one for that number, with the messages and the template of the request.
  pub submit_batch_iff : (submit_batch env (json (some req)) ≡ accepted job messages template) ↔ (
      (from : Text) × MaySend env req from
      × (accepted (new_job env req from) req.messages req.text_template
          ≡ accepted job messages template))
  submit_batch_iff = (
    λ h. let (from, may) = submit_steps h in (from, may, sym (submit_accepts from may) ∙ h),
    λ k. submit_accepts k.0 k.1 ∙ k.2,
  )
