-- ===== src/WebSend/Texts.antt =====
-- What becomes of the text of a message with media, in web_server.go.
use gomsggw.Base.{
  ℕ, [], ◌∷◌, Option, none, some, Text, codes, text_eq, ◌≡◌, subst, sym, ap, arith, inl, inr,
  Bool-cases,
}
use gomsggw.Batch.Submit.{key_has_scope, key_allows}
use gomsggw.Limits.Check.{LimitEnv, LimitCheckResult}
use gomsggw.WebSend.{
  ParsedMessage, SendBody, MediaMessage, to_transcoder, SendResult, queued, WebSendEnv,
}
use gomsggw.WebSend.Media.{Prepared, prepared, broken, prepare}
use gomsggw.WebSend.Route.{
  parsed, parse_body, From, from_number, no_number, push_of, send_prepared, send_checked, send_from,
  send_parsed, send_message,
}

-- A message for the transcoder with neither a body nor headers.
pub record NoText (mm : MediaMessage) : Type 0 where
  pub no_content : mm.content ≡ []
  pub no_headers : mm.headers ≡ []

-- A result for the transcoder is one for every text, and has none.
abbrev Textless : SendResult → SendResult → Type 0
Textless r r' =
    (status : ℕ) (mm : MediaMessage)
    → r ≡ queued status (to_transcoder mm)
    → (r' ≡ queued status (to_transcoder mm)) × NoText mm

pushed_or : MediaMessage → SendResult → MediaMessage
pushed_or mm (queued status (to_transcoder pushed)) = pushed
pushed_or mm _ = mm

module _ (limits : LimitEnv) (env : WebSendEnv) (m : ParsedMessage) (text : Text) where
  abbrev retold : ParsedMessage
  retold = record m { text = text }

  prepared-Textless :
      (from : Text) (p : Prepared)
      → Textless (send_prepared env from m p) (send_prepared env from retold p)
  unfolding send_prepared push_of pushed_or
  prepared-Textless from (broken e) status mm h = absurd (ground (arith, h))
  prepared-Textless from (prepared [] size) status mm h = absurd (ground (arith, h))
  prepared-Textless from (prepared (file ∷ files) size) status mm h =
      let same = ap (pushed_or mm) h in
      (
        h,
        record {
          no_content = sym (ap (λ (x : MediaMessage). x.content) same);
          no_headers = sym (ap (λ (x : MediaMessage). x.headers) same);
        },
      )

  checked-Textless :
      (from : Text) (o : Option LimitCheckResult)
      → Textless (send_checked env from m o) (send_checked env from retold o)
  unfolding send_checked
  checked-Textless from none status mm h =
      prepared-Textless from (prepare env m.media [] 0) status mm h
  checked-Textless from (some r) status mm h = elim (Bool-cases r.allowed) [
    | inl passes ↦
        rw passes (prepared-Textless from (prepare env m.media [] 0) status mm (rw passes at h))
    | inr blocked ↦ absurd (ground (arith, h, blocked))
  ]

  from-Textless : (f : From) → Textless (send_from limits env m f) (send_from limits env retold f)
  unfolding send_from
  from-Textless (no_number s e) status mm h = absurd (ground (arith, h))
  from-Textless (from_number from) status mm h = elim (Bool-cases (key_allows from env.api_key)) [
    | inl key ↦ rw key (checked-Textless from _ status mm (rw key at h))
    | inr foreign ↦ absurd (ground (arith, h, foreign))
  ]

  parsed-Textless :
      Textless (send_parsed limits env (parsed m)) (send_parsed limits env (parsed retold))
  unfolding send_parsed
  parsed-Textless status mm h = elim (Bool-cases (text_eq m.to [])) [
    | inl empty ↦ absurd (ground (arith, h, empty))
    | inr given ↦ rw given (from-Textless _ status mm (rw given at h))
  ]

-- Where a request with media is handed to the transcoder, one that differs in its text only gets the
-- same answer and hands over the same message, which has neither a body nor headers.
pub send_message-text :
    (limits : LimitEnv) (env : WebSendEnv) (body other : SendBody) (m : ParsedMessage) (text : Text)
    (status : ℕ) (mm : MediaMessage)
    → parse_body env.client body ≡ parsed m
    → parse_body env.client other ≡ parsed (record m { text = text })
    → send_message limits env body ≡ queued status (to_transcoder mm)
    → (send_message limits env other ≡ queued status (to_transcoder mm)) × NoText mm
unfolding send_message
send_message-text limits env body other m text status mm p q h =
    elim (Bool-cases (key_has_scope (codes "send") env.api_key)) [
      | inr foreign ↦ absurd (ground (arith, h, foreign))
      | inl scope ↦
          rw (scope, q)
            (parsed-Textless limits env m text status mm (
              subst (λ r. send_parsed limits env r ≡ queued status (to_transcoder mm)) p
                (rw scope at h)))
    ]
