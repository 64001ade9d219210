-- ===== src/SmppServer/Delivered.antt =====
-- What a client reads that gets a message by sendSMPP of sms_server.go.
use mathlib.Core.List.{flatten, append_assoc, append-nil}
use gomsggw.Base.{
  ℕ, suc, Bool, true, false, List, [], ◌∷◌, ◌++◌, Option, none, some, Text, nat_eq, text_eq, ◌||◌,
  if◌then◌else◌, Eq_ℕ, ◌≡◌, refl, sym, subst, ◌∙◌, ap, arith, inl, inr, Bool-cases,
}
use gomsggw.Coding.{best_safe_coding, split_sms, gsm7bit_coding}
use gomsggw.Coding.Segments.{split_sms-Sent}
use gomsggw.Gsm7.{init_maps, encode_unpacked_gsm7, decode_unpacked_gsm7}
use gomsggw.Gsm7.RoundTrip.{Visits, decode_unpacked_gsm7-encode}
use gomsggw.Gsm7.Tables.{gsm7_reverse_map, gsm7_ext_reverse_map}
use gomsggw.Message.{MsgQueueItem}
use gomsggw.SmppServer.Sending.{
  SendError, DeliverSm, Ack, send_failed, no_answer, acked, SendEnv, Sending, encode_segment,
  after_ack, send_encoded, send_segments, send_split, send_on, send_smpp,
}

abbrev pub joined : Option Text → Option Text → Option Text
joined none later = none
joined (some t) none = none
joined (some t) (some later) = some (t ++ later)

-- The texts of the parts, in their order, read as unpacked GSM 7 bit.
abbrev pub received : List DeliverSm → Option Text
received [] = some []
received (sm ∷ sms) = joined (decode_unpacked_gsm7 sm.message) (received sms)

-- A send without an error has added parts that read as the text.
abbrev Reads : Sending → Text → Sending → Type 0
Reads st text after =
    after.error ≡ none
    → (more : List DeliverSm) × (after.sent ≡ st.sent ++ more) × (received more ≡ some text)

module _ (env : SendEnv) (msg : MsgQueueItem)
    (readable : (segment : Text) (bytes : List ℕ)
      → encode_unpacked_gsm7 env.maps segment ≡ some bytes
      → decode_unpacked_gsm7 bytes ≡ some segment) where
  -- The status decides whether the next part is sent.
  status-Reads :
      (more : Sending → Sending) (sm : DeliverSm) (ok : Bool) (e : SendError)
      (answered st : Sending) (segment text : Text)
      → answered.sent ≡ st.sent ++ sm ∷ []
      → decode_unpacked_gsm7 sm.message ≡ some segment
      → ((st' : Sending) → Reads st' text (more st'))
      → Reads st
          (segment ++ text)
          (if ok then more answered else record answered { error = some e })
  status-Reads more sm true e answered st segment text s d next h =
      let (ms, same, reads) = next answered h in
      (sm ∷ ms, same ∙ ap (λ l. l ++ ms) s ∙ append_assoc st.sent (sm ∷ []) ms, rw (d, reads) refl)
  status-Reads more sm false e answered st segment text s d next h = cc

  after_ack-Reads :
      (more : Sending → Sending) (sm : DeliverSm) (a : Ack) (st : Sending) (segment text : Text)
      → decode_unpacked_gsm7 sm.message ≡ some segment
      → ((st' : Sending) → Reads st' text (more st'))
      → Reads st (segment ++ text) (after_ack more sm a st)
  unfolding after_ack
  after_ack-Reads more sm send_failed st segment text d next h = cc
  after_ack-Reads more sm no_answer st segment text d next h = cc
  after_ack-Reads more sm (acked status) st segment text d next h =
      status-Reads more sm (nat_eq status 0) _ _ st segment text refl d next h

  send_encoded-Reads :
      (more : Sending → Sending) (n : ℕ) (o : Option (List ℕ)) (st : Sending) (segment text : Text)
      → encode_unpacked_gsm7 env.maps segment ≡ o
      → ((st' : Sending) → Reads st' text (more st'))
      → Reads st (segment ++ text) (send_encoded env more msg gsm7bit_coding n o st)
  unfolding send_encoded
  send_encoded-Reads more n none st segment text e next h = cc
  send_encoded-Reads more n (some bytes) st segment text e next h =
      after_ack-Reads more _ (env.ack _) _ segment text (readable segment bytes e) next h

  send_segments-Reads :
      (n : ℕ) (segments : List Text) (st : Sending)
      → Reads st (flatten segments) (send_segments env msg gsm7bit_coding n segments st)
  unfolding send_segments flatten encode_segment
  send_segments-Reads n [] st h = ([], sym (append-nil st.sent), refl)
  send_segments-Reads n (segment ∷ segments) st h =
      send_encoded-Reads (send_segments env msg gsm7bit_coding (suc n) segments) n _ st segment
        (flatten segments) refl (λ st'. send_segments-Reads (suc n) segments st') h

  send_split-Reads :
      (o : Option (List Text)) (st : Sending)
      → best_safe_coding msg.message ≡ gsm7bit_coding
      → split_sms msg.message (best_safe_coding msg.message) ≡ o
      → Reads st msg.message (send_split env msg o st)
  unfolding send_split
  send_split-Reads none st coding e h = cc
  send_split-Reads (some segments) st coding e h =
      let (found, same, lossless, shape) =
        split_sms-Sent msg.message (best_safe_coding msg.message) in
      let joined_up : flatten segments ≡ msg.message = ap flatten (cc (e, same)) ∙ lossless in
      subst (λ t. Reads st t (send_segments env msg (best_safe_coding msg.message) 0 segments st))
        joined_up
        (subst (λ c. Reads st (flatten segments) (send_segments env msg c 0 segments st))
          (sym coding) (send_segments-Reads 0 segments st))
        h

  send_on-Reads :
      (st : Sending)
      → best_safe_coding msg.message ≡ gsm7bit_coding
      → Reads st msg.message (send_on env msg st)
  unfolding send_on
  send_on-Reads st coding = elim (Bool-cases (text_eq msg.from [] || text_eq msg.to [])) [
    | inl empty ↦ rw empty (λ h. absurd (ground (arith, h)))
    | inr filled ↦ rw filled (send_split-Reads _ st coding refl)
  ]

-- When sendSMPP returns no error for a message that is sent as GSM 7 bit, the client that decodes the
-- parts one after the other reads the message; init is taken to visit entries of the tables.
pub send_smpp-received :
    (visit visit_ext : List (ℕ × ℕ)) (env : SendEnv) (msg : MsgQueueItem) (session : Option ℕ)
    (pending : List (ℕ × Unit {0}))
    → Visits gsm7_reverse_map visit
    → Visits gsm7_ext_reverse_map visit_ext
    → env.maps ≡ init_maps visit visit_ext
    → best_safe_coding msg.message ≡ gsm7bit_coding
    → (send_smpp env msg session pending).error ≡ none
    → received (send_smpp env msg session pending).sent ≡ some msg.message
unfolding send_smpp
send_smpp-received visit visit_ext env msg none pending v w built coding h = cc
send_smpp-received visit visit_ext env msg (some session) pending v w built coding h =
    let (ms, same, reads) =
      send_on-Reads env msg
        (λ segment bytes e.
          decode_unpacked_gsm7-encode visit visit_ext segment bytes v w
            (subst (λ maps. encode_unpacked_gsm7 maps segment ≡ some bytes) built e))
        _ coding h in
    ap received same ∙ reads
