-- ===== src/MmsServer/Queued.antt =====
-- The messages that a session of mms_server.go puts on `MediaTranscodeChan`.
use gomsggw.Base.{
  refl, sym, subst, ◌∙◌, [], ◌∷◌, ◌++◌, none, some, String, Text, ltb, length, length-append,
  count-append, All-append, if_cases, arith, ap, All, count, Eq_String,
}
use gomsggw.MmsServer.{Mm4Env, Mm4Message, Session, says, write_response, Reply}
use gomsggw.MmsServer.Commands.{Handled, handle_command, data_command, answered_with}
use gomsggw.MmsServer.Input.{to_upper, first_word, after_word}
use gomsggw.MmsServer.Sequence.{Consumes, dispatch_cases, Ends, handle_session-Ends}
use gomsggw.MmsServer.Envelope.{
  is_taken, Proper, Advances, write_response-Proper, write_response-Advances, reset-Advances,
  mail_command-Advances, rcpt_command-Advances,
}
use gomsggw.MmsServer.Sessions.{handle_session}
use gomsggw.MmsServer.Reading.{Complete, Kept, Reads, handle_data-Reads}

module _ (client : String) where
  -- The reply to DATA comes before the text is read, and the message goes with its own reply.
  taken-Proper :
      (s t : Session) (m : Mm4Message)
      → Proper client s
      → Complete client m
      → Kept (record s { transcode = s.transcode ++ m ∷ [] }) t
      → Proper client
          (write_response (says 250 "Message queued for processing") (record t { state = 1 }))
  unfolding write_response
  taken-Proper s t m p c k = record {
    in_order = omega arith;
    addressed = λ h. absurd (omega arith);
    answered = omega (
      arith,
      p.answered,
      count-append is_taken t.output (says 250 "Message queued for processing" ∷ []),
      ap (count is_taken) k.same_output,
      ap length k.same_transcode,
      length-append s.transcode (m ∷ []),
    );
    complete =
        subst (All (Complete client)) (sym k.same_transcode)
          (All-append (Complete client) s.transcode (m ∷ []) p.complete (c, tt));
    of_client = k.same_client ∙ p.of_client;
  }

  Kept-Proper : (s t : Session) → Proper client s → Kept s t → Proper client t
  Kept-Proper s t p k = record {
    in_order = omega (arith, k.same_state, p.in_order);
    addressed =
        λ h. omega (arith, ap length k.same_to, p.addressed (omega (arith, k.same_state, h)));
    answered =
        omega (arith, p.answered, ap (count is_taken) k.same_output, ap length k.same_transcode);
    complete = subst (All (Complete client)) (sym k.same_transcode) p.complete;
    of_client = k.same_client ∙ p.of_client;
  }

  data_replied-Advances :
      (s : Session) (h : Handled)
      → Proper client s
      → Reads s h
      → Advances client s (answered_with 554 1 "Message queued for processing" h, none)
  unfolding answered_with write_response
  data_replied-Advances s (t, some e) p k = record {
    proper = write_response-Proper client t _ refl (Kept-Proper s t p k);
    shorter = k.shorter;
  }
  data_replied-Advances s (t, none) p (m, c, k) = record {
    proper = taken-Proper s t m p (subst (λ x. Complete x m) p.of_client c) k;
    shorter = k.shorter;
  }

  after_response :
      (s : Session) (r : Reply) (h : Handled)
      → Advances client (write_response r s) h
      → Advances client s h
  unfolding write_response
  after_response s r h a = record { proper = a.proper; shorter = a.shorter }

  data_command-Advances :
      (env : Mm4Env) (s : Session)
      → Consumes env
      → Proper client s
      → Advances client s (data_command env s, none)
  unfolding data_command
  data_command-Advances env s reads p =
      if_cases (λ t. Advances client s (t, none)) (ltb s.state 3)
        (write_response-Advances client s _ none refl p)
        (after_response s _ _ (
          data_replied-Advances _ _ (write_response-Proper client s _ refl p)
            (handle_data-Reads env reads _)))

  pub handle_command-Advances :
      (env : Mm4Env) (line : Text) (s : Session)
      → Consumes env
      → Proper client s
      → Advances client s (handle_command env line s)
  unfolding handle_command
  handle_command-Advances env line s reads p =
      dispatch_cases env (Advances client s) (after_word line) s (to_upper env (first_word line))
        (reset-Advances client s _ refl p) (mail_command-Advances client env _ s p)
        (rcpt_command-Advances client env _ s p) (data_command-Advances env s reads p)
        (reset-Advances client s _ refl p) (write_response-Advances client s _ none refl p)
        (write_response-Advances client s _ _ refl p)
        (λ c. write_response-Advances client s _ none refl p)

-- Every session ends, with the state, the recipients and the replies in order; each message that it
-- gave the channel was answered, is complete and of the client.
pub handle_session-Proper :
    (env : Mm4Env) (s : Session)
    → Consumes env
    → Proper s.client s
    → Ends (Proper s.client) (handle_session env s)
handle_session-Proper env s reads p =
    handle_session-Ends env (Proper s.client)
      (λ lines t q. record {
        in_order = q.in_order;
        addressed = q.addressed;
        answered = q.answered;
        complete = q.complete;
        of_client = q.of_client;
      })
      (λ line t q.
        let a = handle_command-Advances s.client env line t reads q in (a.proper, a.shorter))
      s p
