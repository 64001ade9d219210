-- ===== src/MmsServer/Reading.antt =====
-- What handleData of mms_server.go reads, and what it puts on `MediaTranscodeChan`.
use gomsggw.Base.{
  ◌≤◌, ◌≡◌, ◌≢◌, refl, List, [], ◌∷◌, ◌++◌, Option, none, some, String, Text, text_eq, text_eq_iff,
  length, Bool-cases, Option-cases, inl, inr, arith, ap, Eq_String,
}
use gomsggw.MmsServer.{Mm4Env, Mm4Message, Part, Session, HeaderResult, fields, refused}
use gomsggw.MmsServer.Commands.{Handled, or_kept, handle_data, read_headers, read_text}
use gomsggw.MmsServer.Input.{dot_body, without_cr}
use gomsggw.MmsServer.Mime.{
  Result, ok, err, handle_mm4_message, with_headers, with_files, mm4_message, missing_of,
  required_headers,
}
use gomsggw.MmsServer.Sequence.{Consumes, left_of}

-- A message of the client with content and the headers that the code asks for.
pub record Complete (client : String) (m : Mm4Message) : Type 0 where
  pub content_kept : m.content ≢ []
  pub headers_kept : missing_of required_headers m.headers ≡ none
  pub client_kept : m.client ≡ client

-- A step that reads of the input and leaves the rest of the session, but for text and headers.
pub record Kept (s s' : Session) : Type 0 where
  pub same_output : s'.output ≡ s.output
  pub same_state : s'.state ≡ s.state
  pub same_to : s'.to ≡ s.to
  pub same_client : s'.client ≡ s.client
  pub same_transcode : s'.transcode ≡ s.transcode
  pub shorter : length s'.input ≤ length s.input

-- Without an error the channel has one more message, else nothing more.
abbrev pub Reads : Session → Handled → Type 0
Reads s (s', some e) = Kept s s'
Reads s (s', none) =
    (m : Mm4Message) × Complete s.client m
    × Kept (record s { transcode = s.transcode ++ m ∷ [] }) s'

parsed-Reads :
    (s0 s : Session) (r : Result (List Part))
    → s.body ≢ []
    → missing_of required_headers s.headers ≡ none
    → Kept s0 s
    → Reads s0 (or_kept s (with_files s r))
unfolding with_files or_kept mm4_message
parsed-Reads s0 s (err e) h k kept = kept
parsed-Reads s0 s (ok files) h k kept = (
  mm4_message s files,
  record { content_kept = h; headers_kept = k; client_kept = kept.same_client },
  record {
    same_output = kept.same_output;
    same_state = kept.same_state;
    same_to = kept.same_to;
    same_client = kept.same_client;
    same_transcode = ap (λ l. l ++ mm4_message s files ∷ []) kept.same_transcode;
    shorter = kept.shorter;
  },
)

checked_response-Reads :
    (env : Mm4Env) (s0 s : Session) (o : Option String)
    → missing_of required_headers s.headers ≡ o
    → s.body ≢ []
    → Kept s0 s
    → Reads s0 (or_kept s (with_headers env s o))
unfolding with_headers or_kept
checked_response-Reads env s0 s (some name) e h kept = kept
checked_response-Reads env s0 s none e h kept = parsed-Reads s0 s _ h e kept

handle_mm4_message-Reads :
    (env : Mm4Env) (s0 s : Session) → Kept s0 s → Reads s0 (or_kept s (handle_mm4_message env s))
unfolding handle_mm4_message or_kept
handle_mm4_message-Reads env s0 s kept = elim (Bool-cases (text_eq s.body [])) [
  | inl e ↦ rw e kept
  | inr e ↦
      rw e (checked_response-Reads env s0 s _ refl (λ p. cc (e, (text_eq_iff s.body []).1 p)) kept)
]

dot_body-shorter :
    (lines : List Text) (text : Text) (rest : List Text)
    → dot_body lines ≡ some (text, rest)
    → length rest ≤ length lines
unfolding dot_body
dot_body-shorter [] text rest h = cc
dot_body-shorter (line ∷ lines) text rest h =
    elim (Bool-cases (text_eq (without_cr line) (b'.' ∷ []))) [
      | inl e ↦ ground (arith, e)
      | inr e ↦ elim (Option-cases (dot_body lines)) [
        | inl none_left ↦ ground (arith, e, none_left)
        | inr ((t, l), more) ↦ ground (arith, e, more, dot_body-shorter lines t l more)
      ]
    ]

read_text-Reads :
    (env : Mm4Env) (s0 s : Session) (o : Option (Text × List Text))
    → dot_body s.input ≡ o
    → Kept s0 s
    → Reads s0 (read_text env s o)
unfolding read_text
read_text-Reads env s0 s none e kept = record {
  same_output = kept.same_output;
  same_state = kept.same_state;
  same_to = kept.same_to;
  same_client = kept.same_client;
  same_transcode = kept.same_transcode;
  shorter = omega arith;
}
read_text-Reads env s0 s (some (text, rest)) e kept = handle_mm4_message-Reads env s0 _ (record {
  same_output = kept.same_output;
  same_state = kept.same_state;
  same_to = kept.same_to;
  same_client = kept.same_client;
  same_transcode = kept.same_transcode;
  shorter = omega (arith, kept.shorter, dot_body-shorter s.input text rest e);
})

read_headers-Reads :
    (env : Mm4Env) (s : Session) (r : HeaderResult)
    → length (left_of r) ≤ length s.input
    → Reads s (read_headers env s r)
unfolding read_headers
read_headers-Reads env s (refused e rest) h = record {
  same_output = refl;
  same_state = refl;
  same_to = refl;
  same_client = refl;
  same_transcode = refl;
  shorter = h;
}
read_headers-Reads env s (fields headers rest) h = read_text-Reads env s _ _ refl (record {
  same_output = refl;
  same_state = refl;
  same_to = refl;
  same_client = refl;
  same_transcode = refl;
  shorter = h;
})

-- handleData reads some of the input, and gives the channel at most one message, a complete one.
pub handle_data-Reads : (env : Mm4Env) → Consumes env → (s : Session) → Reads s (handle_data env s)
unfolding handle_data
handle_data-Reads env reads s = read_headers-Reads env s _ (reads s.input)
