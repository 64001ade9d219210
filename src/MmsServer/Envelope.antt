-- ===== src/MmsServer/Envelope.antt =====
-- What a session of mms_server.go keeps between commands, and its replies to MAIL and RCPT.
use gomsggw.Base.{
  ℕ, ◌≤◌, ◌≡◌, refl, [], ◌∷◌, Option, none, some, String, Text, codes, ltb, length, length-append,
  count-append, if_cases, Bool-cases, inl, inr, false, arith, Bool, ap, if◌then◌else◌, All, count,
  ◌==◌, Eq_String, nat_eq, ◌&&◌,
}
use gomsggw.MmsServer.{
  Mm4Env, Session, SessionError, says, not_implemented, write_response, failure, Reply,
}
use gomsggw.MmsServer.Commands.{
  Handled, mail_command, rcpt_command, answered_with, handle_mail, handle_rcpt,
}
use gomsggw.ApiKeys.{trim_space}
use gomsggw.Base.Strings.{has_prefix, drop}
use gomsggw.MmsServer.Input.{to_upper}
use gomsggw.MmsServer.Reading.{Complete}

-- the reply to a message that was taken
abbrev pub is_taken : Reply → Bool
is_taken (says code text) = nat_eq code 250 && text == "Message queued for processing"
is_taken (failure code e) = false
is_taken (not_implemented cmd) = false

-- What holds of a session between two commands.
pub record Proper (client : String) (s : Session) : Type 0 where
  pub in_order : s.state ≤ 3
  pub addressed : 3 ≤ s.state → 1 ≤ length s.to
  pub answered : count is_taken s.output ≡ length s.transcode
  pub complete : All (Complete client) s.transcode
  pub of_client : s.client ≡ client

-- What a command leaves, and that it puts no line back.
pub record Advances (client : String) (s : Session) (h : Handled) : Type 0 where
  pub proper : Proper client h.0
  pub shorter : length h.0.input ≤ length s.input

module _ (client : String) where
  -- A reply other than the one to a taken message.
  pub write_response-Proper :
      (s : Session) (r : Reply)
      → is_taken r ≡ false
      → Proper client s
      → Proper client (write_response r s)
  unfolding write_response
  write_response-Proper s r e p = record {
    in_order = p.in_order;
    addressed = p.addressed;
    answered = omega (
      arith,
      p.answered,
      count-append is_taken s.output (r ∷ []),
      ap {B = ℕ} (λ b. if b then 1 else 0) e,
    );
    complete = p.complete;
    of_client = p.of_client;
  }

  pub write_response-Advances :
      (s : Session) (r : Reply) (e : Option SessionError)
      → is_taken r ≡ false
      → Proper client s
      → Advances client s (write_response r s, e)
  unfolding write_response
  write_response-Advances s r e fact p = record {
    proper = write_response-Proper s r fact p;
    shorter = omega arith;
  }

  set_state-Proper :
      (s : Session) (n : ℕ)
      → n ≤ 3
      → (3 ≤ n → 1 ≤ length s.to)
      → Proper client s
      → Proper client (record s { state = n })
  set_state-Proper s n bound to p = record {
    in_order = bound;
    addressed = to;
    answered = p.answered;
    complete = p.complete;
    of_client = p.of_client;
  }

  pub reset-Advances :
      (s : Session) (text : String)
      → is_taken (says 250 text) ≡ false
      → Proper client s
      → Advances client s (write_response (says 250 text) (record s { state = 1 }), none)
  unfolding write_response
  reset-Advances s text e p = record {
    proper =
        write_response-Proper _ _ e
          (set_state-Proper s 1 (omega arith) (λ h. absurd (omega arith)) p);
    shorter = omega arith;
  }

  -- A handler that fills the session, and then the state with its reply.
  answered_with-Advances :
      (s : Session) (refusal n : ℕ) (h : Handled)
      → n ≤ 3
      → (3 ≤ n → h.1 ≡ none → 1 ≤ length h.0.to)
      → Advances client s h
      → Advances client s (answered_with refusal n "OK" h, none)
  unfolding answered_with write_response
  answered_with-Advances s refusal n (t, some e) bound to h = record {
    proper = write_response-Proper t _ refl h.proper;
    shorter = h.shorter;
  }
  answered_with-Advances s refusal n (t, none) bound to h = record {
    proper = write_response-Proper _ _ refl (set_state-Proper t n bound (λ k. to k refl) h.proper);
    shorter = h.shorter;
  }

  handle_mail-Advances :
      (env : Mm4Env) (arg : Text) (s : Session)
      → Proper client s
      → Advances client s (handle_mail env arg s)
  unfolding handle_mail
  handle_mail-Advances env arg s p =
      elim (Bool-cases (has_prefix (codes "FROM:") (to_upper env arg))) [
        | inl e ↦ rw e (record {
          proper = record {
            in_order = p.in_order;
            addressed = p.addressed;
            answered = p.answered;
            complete = p.complete;
            of_client = p.of_client;
          };
          shorter = omega arith;
        })
        | inr e ↦ rw e (record { proper = p; shorter = omega arith })
      ]

  handle_rcpt-Advances :
      (env : Mm4Env) (arg : Text) (s : Session)
      → Proper client s
      → Advances client s (handle_rcpt env arg s)
  unfolding handle_rcpt
  handle_rcpt-Advances env arg s p =
      elim (Bool-cases (has_prefix (codes "TO:") (to_upper env arg))) [
        | inl e ↦ rw e (record {
          proper = record {
            in_order = p.in_order;
            addressed = λ h. omega (arith, length-append s.to (trim_space (drop 3 arg) ∷ []));
            answered = p.answered;
            complete = p.complete;
            of_client = p.of_client;
          };
          shorter = omega arith;
        })
        | inr e ↦ rw e (record { proper = p; shorter = omega arith })
      ]

  handle_rcpt-to :
      (env : Mm4Env) (arg : Text) (s : Session)
      → (handle_rcpt env arg s).1 ≡ none
      → 1 ≤ length (handle_rcpt env arg s).0.to
  unfolding handle_rcpt
  handle_rcpt-to env arg s h = elim (Bool-cases (has_prefix (codes "TO:") (to_upper env arg))) [
    | inl e ↦ rw e (omega (arith, length-append s.to (trim_space (drop 3 arg) ∷ [])))
    | inr e ↦ absurd (ground (arith, h, e))
  ]

  pub mail_command-Advances :
      (env : Mm4Env) (arg : Text) (s : Session)
      → Proper client s
      → Advances client s (mail_command env arg s, none)
  unfolding mail_command
  mail_command-Advances env arg s p =
      if_cases (λ t. Advances client s (t, none)) (ltb s.state 1)
        (write_response-Advances s _ none refl p)
        (answered_with-Advances s 550 2 _ (omega arith) (λ h. absurd (omega arith))
          (handle_mail-Advances env arg s p))

  pub rcpt_command-Advances :
      (env : Mm4Env) (arg : Text) (s : Session)
      → Proper client s
      → Advances client s (rcpt_command env arg s, none)
  unfolding rcpt_command
  rcpt_command-Advances env arg s p =
      if_cases (λ t. Advances client s (t, none)) (ltb s.state 2)
        (write_response-Advances s _ none refl p)
        (answered_with-Advances s 550 3 _ (omega arith) (λ h. handle_rcpt-to env arg s)
          (handle_rcpt-Advances env arg s p))
