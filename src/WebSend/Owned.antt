-- ===== src/WebSend/Owned.antt =====
-- From which numbers the send routes of web_server.go let a client send.
use mathlib.Core.List.{Memᴰ}
use gomsggw.Base.{
  ℕ, true, List, [], ◌∷◌, Option, none, some, Text, codes, text_eq, ◌==◌, ==_iff, Eq_Text, ◌≡◌,
  refl, sym, ◌∙◌, ap, subst, arith, inl, inr, Bool-cases,
}
use gomsggw.Base.Strings.{trim_plus}
use gomsggw.Batch.Submit.{key_has_scope, key_allows, only_number}
use gomsggw.Client.{ClientNumber}
use gomsggw.Limits.Check.{LimitEnv, LimitCheckResult, check_message_limits}
use gomsggw.Message.{MsgFile}
use gomsggw.WebSend.{ParsedMessage, SendBody, Push, to_router, to_transcoder, queued, WebSendEnv}
use gomsggw.WebSend.Media.{Prepared, prepared, broken, prepare}
use gomsggw.WebSend.Route.{
  parsed, parse_body, From, from_number, no_number, owned_from, resolve_from, or_required,
  or_foreign, type_of, push_of, send_prepared, send_checked, send_from, send_parsed, send_message,
}

abbrev pub sender : Push → Text
sender (to_router item) = item.from
sender (to_transcoder m) = m.from

abbrev pub recipient : Push → Text
recipient (to_router item) = item.to
recipient (to_transcoder m) = m.to

abbrev pub Passes : Option LimitCheckResult → Type 0
Passes none = Unit
Passes (some r) = r.allowed ≡ true

-- A number of the client, as it is stored.
abbrev pub Owns : List ClientNumber → Text → Type 0
Owns numbers from = (n : ClientNumber) × Memᴰ n numbers × (from ≡ n.number)

-- The message comes from a number of the client that the key may use and whose limits let it pass.
pub record Allowed (limits : LimitEnv) (env : WebSendEnv) (m : ParsedMessage) (push : Push)
    : Type 0 where
  pub scope : key_has_scope (codes "send") env.api_key ≡ true
  pub owned : Owns env.client.numbers (sender push)
  pub key : key_allows (sender push) env.api_key ≡ true
  pub within :
      Passes (check_message_limits limits (some env.client) (sender push) (type_of m) "outbound")
  pub to_same : recipient push ≡ m.to

owned_from_sound :
    (from x : Text) (numbers : List ClientNumber)
    → owned_from from numbers ≡ some x
    → Owns numbers x
unfolding owned_from
owned_from_sound from x [] h = absurd (ground (arith, h))
owned_from_sound from x (n ∷ ns) h = elim (Bool-cases (n.number == from)) [
  | inl same ↦ (n, Memᴰ.head refl, ground (arith, h, same, ==_iff n.number from))
  | inr other ↦ elim (Bool-cases (trim_plus n.number == trim_plus from)) [
    | inl same ↦ (n, Memᴰ.head refl, ground (arith, h, other, same))
    | inr foreign ↦
        let (m, member, e) = owned_from_sound from x ns (ground (arith, h, other, foreign)) in
        (m, Memᴰ.tail member, e)
  ]
]

only_number_sound :
    (x : Text) (numbers : List ClientNumber) → only_number numbers ≡ some x → Owns numbers x
only_number_sound x [] h = absurd (ground (arith, h))
only_number_sound x (n ∷ []) h = (n, Memᴰ.head refl, ground (arith, h))
only_number_sound x (n ∷ m ∷ ns) h = absurd (ground (arith, h))

or_required_sound : (o : Option Text) (x : Text) → or_required o ≡ from_number x → o ≡ some x
unfolding or_required
or_required_sound none x h = absurd (ground (arith, h))
or_required_sound (some y) x h = ground (arith, h)

or_foreign_sound : (o : Option Text) (x : Text) → or_foreign o ≡ from_number x → o ≡ some x
unfolding or_foreign
or_foreign_sound none x h = absurd (ground (arith, h))
or_foreign_sound (some y) x h = ground (arith, h)

resolve_from_sound :
    (from x : Text) (numbers : List ClientNumber)
    → resolve_from from numbers ≡ from_number x
    → Owns numbers x
unfolding resolve_from
resolve_from_sound from x numbers h = elim (Bool-cases (text_eq from [])) [
  | inl empty ↦
      only_number_sound x numbers (or_required_sound (only_number numbers) x (rw empty at h))
  | inr given ↦
      owned_from_sound from x numbers (or_foreign_sound (owned_from from numbers) x (rw given at h))
]

module _ (limits : LimitEnv) (env : WebSendEnv) (m : ParsedMessage) where
  push_of-sender :
      (from : Text) (files : List MsgFile) (size : ℕ)
      → (sender (push_of env from m files size) ≡ from)
        × (recipient (push_of env from m files size) ≡ m.to)
  unfolding push_of
  push_of-sender from [] size = (refl, refl)
  push_of-sender from (file ∷ files) size = (refl, refl)

  prepared-Allowed :
      (from : Text) (p : Prepared) (status : ℕ) (push : Push)
      → send_prepared env from m p ≡ queued status push
      → key_has_scope (codes "send") env.api_key ≡ true
      → Owns env.client.numbers from
      → key_allows from env.api_key ≡ true
      → Passes (check_message_limits limits (some env.client) from (type_of m) "outbound")
      → Allowed limits env m push
  unfolding send_prepared
  prepared-Allowed from (broken e) status push h scope owned key within = absurd (ground (arith, h))
  prepared-Allowed from (prepared files size) status push h scope owned key within =
      let same : push_of env from m files size ≡ push = cc h in
      let named : sender push ≡ from = ap sender (sym same) ∙ (push_of-sender from files size).0 in
      record {
        scope = scope;
        owned = subst (Owns env.client.numbers) (sym named) owned;
        key = subst (λ f. key_allows f env.api_key ≡ true) (sym named) key;
        within =
            subst
              (λ f. Passes (check_message_limits limits (some env.client) f (type_of m) "outbound"))
              (sym named) within;
        to_same = ap recipient (sym same) ∙ (push_of-sender from files size).1;
      }

  checked-Allowed :
      (from : Text) (o : Option LimitCheckResult) (status : ℕ) (push : Push)
      → check_message_limits limits (some env.client) from (type_of m) "outbound" ≡ o
      → send_checked env from m o ≡ queued status push
      → key_has_scope (codes "send") env.api_key ≡ true
      → Owns env.client.numbers from
      → key_allows from env.api_key ≡ true
      → Allowed limits env m push
  unfolding send_checked
  checked-Allowed from none status push e h scope owned key =
      prepared-Allowed from _ status push h scope owned key (subst Passes (sym e) tt)
  checked-Allowed from (some r) status push e h scope owned key = elim (Bool-cases r.allowed) [
    | inl passes ↦
        prepared-Allowed from (prepare env m.media [] 0) status push (ground (arith, h, passes))
          scope owned key (subst Passes (sym e) passes)
    | inr blocked ↦ absurd (ground (arith, h, blocked))
  ]

  from-Allowed :
      (f : From) (status : ℕ) (push : Push)
      → resolve_from m.from env.client.numbers ≡ f
      → send_from limits env m f ≡ queued status push
      → key_has_scope (codes "send") env.api_key ≡ true
      → Allowed limits env m push
  unfolding send_from
  from-Allowed (no_number s e) status push r h scope = absurd (ground (arith, h))
  from-Allowed (from_number from) status push r h scope =
      elim (Bool-cases (key_allows from env.api_key)) [
        | inl key ↦
            checked-Allowed from _ status push refl (rw key at h) scope
              (resolve_from_sound m.from from env.client.numbers r) key
        | inr foreign ↦ absurd (ground (arith, h, foreign))
      ]

  parsed-Allowed :
      (status : ℕ) (push : Push)
      → send_parsed limits env (parsed m) ≡ queued status push
      → key_has_scope (codes "send") env.api_key ≡ true
      → Allowed limits env m push
  unfolding send_parsed
  parsed-Allowed status push h scope = elim (Bool-cases (text_eq m.to [])) [
    | inl empty ↦ absurd (ground (arith, h, empty))
    | inr given ↦ from-Allowed _ status push refl (rw given at h) scope
  ]

-- A message that a send route puts on a channel goes to the number that the request names, and comes
-- from a number of the client in its stored form; the key has the scope and may use the number, and
-- the limits let the message pass.
pub send_message-Allowed :
    (limits : LimitEnv) (env : WebSendEnv) (body : SendBody) (m : ParsedMessage) (status : ℕ)
    (push : Push)
    → parse_body env.client body ≡ parsed m
    → send_message limits env body ≡ queued status push
    → Allowed limits env m push
unfolding send_message
send_message-Allowed limits env body m status push p h =
    elim (Bool-cases (key_has_scope (codes "send") env.api_key)) [
      | inr foreign ↦ absurd (ground (arith, h, foreign))
      | inl scope ↦
          parsed-Allowed limits env m status push
            (subst (λ r. send_parsed limits env r ≡ queued status push) p (rw scope at h)) scope
    ]
