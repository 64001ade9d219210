-- ===== src/Router/Accounting.antt =====
-- What the small steps of a delivery in router.go do to the records, the attempts and the channels.
use gomsggw.Base.{
  false, ◌⊎◌, ℕ, ◌+◌, ◌*◌, ◌≤◌, Bool, true, List, [], ◌∷◌, ◌++◌, Option, none, some, String,
  Eq_String, length, length-append, ◌≡◌, refl, ◌∙◌, inl, inr, arith, if◌then◌else◌,
}
use gomsggw.Client.{Client, MsgRecord}
use gomsggw.Message.{MsgQueueItem, retry}
use gomsggw.Router.{
  Origin, client, carrier, RouterEnv, RouterState, Send, push_queued, push_records, push_send,
  retry_message, delivery_records, outbound_record,
}

-- The attempts that succeeded.
abbrev pub count_done : List Send → ℕ
count_done [] = 0
count_done (s ∷ sends) = (if s.done then 1 else 0) + count_done sends

pub count_done-append : (xs ys : List Send) → count_done (xs ++ ys) ≡ count_done xs + count_done ys
count_done-append [] ys = omega arith
count_done-append (x ∷ xs) ys = omega (arith, count_done-append xs ys)

-- From `st` to `st'` at most two records are added for each attempt that succeeded.
abbrev pub Accounted : RouterState → RouterState → Type 0
Accounted st st' =
    length st'.records + 2 * count_done st.sends ≤ length st.records + 2 * count_done st'.sends

-- The two channels are as they were.
pub record SameChannels (st st' : RouterState) : Type 0 where
  pub same_client_msg_chan : st'.client_msg_chan ≡ st.client_msg_chan
  pub same_carrier_msg_chan : st'.carrier_msg_chan ≡ st.carrier_msg_chan

-- No further attempt succeeded, or nothing was put on a channel.
abbrev pub Exclusive : RouterState → RouterState → Type 0
Exclusive st st' = (count_done st'.sends ≡ count_done st.sends) ⊎ SameChannels st st'

pub unchanged : (st : RouterState) → SameChannels st st
unchanged st = record { same_client_msg_chan = refl; same_carrier_msg_chan = refl }

-- A delivery to a client leaves the conversations and the cooldowns alone.
pub record Delivers (st st' : RouterState) : Type 0 where
  pub same_convos : st'.convos ≡ st.convos
  pub same_last_sent : st'.last_sent ≡ st.last_sent
  pub accounted : Accounted st st'
  pub exclusive : Exclusive st st'

pub Delivers-refl : (st : RouterState) → Delivers st st
Delivers-refl st = record {
  same_convos = refl;
  same_last_sent = refl;
  accounted = omega arith;
  exclusive = inl refl;
}

pub Delivers-trans :
    {a b c : RouterState} → Delivers a b → Delivers b c → Exclusive a c → Delivers a c
Delivers-trans p q once = record {
  same_convos = q.same_convos ∙ p.same_convos;
  same_last_sent = q.same_last_sent ∙ p.same_last_sent;
  accounted = omega (arith, p.accounted, q.accounted);
  exclusive = once;
}

pub push_queued-Delivers :
    (origin : Origin) (o : Option MsgQueueItem) (st : RouterState)
    → Delivers st (push_queued origin o st)
push_queued-Delivers origin none st = Delivers-refl st
push_queued-Delivers client (some m) st = record {
  same_convos = refl;
  same_last_sent = refl;
  accounted = omega arith;
  exclusive = inl refl;
}
push_queued-Delivers carrier (some m) st = record {
  same_convos = refl;
  same_last_sent = refl;
  accounted = omega arith;
  exclusive = inl refl;
}

pub retry_message-Delivers :
    (env : RouterEnv) (origin : Origin) (err : String) (m : MsgQueueItem) (st : RouterState)
    → Delivers st (retry_message env origin err m st).0
unfolding retry_message
retry_message-Delivers env origin err m st =
    push_queued-Delivers origin (retry env.now err m).queued st

pub push_send-Delivers : (s : Send) (st : RouterState) → Delivers st (push_send s st)
push_send-Delivers s st = record {
  same_convos = refl;
  same_last_sent = refl;
  accounted = omega (arith, count_done-append st.sends (s ∷ []));
  exclusive = inr (record { same_client_msg_chan = refl; same_carrier_msg_chan = refl });
}

-- What follows an attempt that failed.
pub failed_then-Delivers :
    (s : Send) (st : RouterState) {st' : RouterState}
    → s.done ≡ false
    → Delivers (push_send s st) st'
    → Delivers st st'
failed_then-Delivers s st {st'} failed law =
    Delivers-trans (push_send-Delivers s st) law (elim law.exclusive [
      | inl same_count ↦
          inl (same_count ∙ rw (count_done-append st.sends (s ∷ []), failed) (omega arith))
      | inr channels ↦ inr (record {
        same_client_msg_chan = channels.same_client_msg_chan;
        same_carrier_msg_chan = channels.same_carrier_msg_chan;
      })
    ])

-- A successful attempt and the records for it.
pub push_records-Delivers :
    (s : Send) (rs : List MsgRecord) (st : RouterState)
    → s.done ≡ true
    → length rs ≤ 2
    → Delivers st (push_records rs (push_send s st))
push_records-Delivers s rs st ok few = record {
  same_convos = refl;
  same_last_sent = refl;
  accounted =
      rw (count_done-append st.sends (s ∷ []), ok) (omega (arith, length-append st.records rs));
  exclusive = inr (record { same_client_msg_chan = refl; same_carrier_msg_chan = refl });
}

pub outbound_record-few :
    (base : MsgRecord) (c : Option Client) (internal : Bool) (to_type method name : String)
    → length (outbound_record base c internal to_type method name) ≤ 1
unfolding outbound_record
outbound_record-few base none internal to_type method name = omega arith
outbound_record-few base (some c) internal to_type method name = omega arith

pub delivery_records-few :
    (base : MsgRecord) (to_client : Client) (from_client : Option Client) (to_type method : String)
    → length (delivery_records base to_client from_client to_type method) ≤ 2
unfolding delivery_records outbound_record
delivery_records-few base to_client none to_type method = omega arith
delivery_records-few base to_client (some c) to_type method = omega arith
