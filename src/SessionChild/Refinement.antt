-- ===== src/SessionChild/Refinement.antt =====
-- The dialogue over the pipes of src/session.c and src/session-child.c is PAM talking to whoever
-- answers.
use lightdm.Base.{
  ℕ, ◌<◌, ◌≢◌, ◌≡◌, refl, ap, subst, ◌∙◌, Bool, true, false, not, List, [], ◌∷◌, ◌++◌, append_assoc,
  append-nil, Option, some, ◌==◌, length, All, arith, if-true, if-false, ne→==-false,
}
use lightdm.Session.Authentication.{
  Str, PamMessage, Session, SessionOutput, wrote_number, pam_success, got_messages, session_respond,
  session_respond_error, write_responses,
}
use lightdm.XAuthorityFile.Records.{Read, and_then, pure}
use lightdm.SessionChild.Pipe.{
  number_octets, string_octets, pipe_octets, message_octets, conversation_octets,
}
use lightdm.SessionChild.Fields.{
  IsLineOrNull, read_number-octets, pipe_string-octets, Reads, Reads-number, Reads-string,
  Reads-pure, Reads-last,
}
use lightdm.SessionChild.Dialogue.{
  Answer, answered, refused, Pam, asks, returns, Reply, answer_alone, read_responses, read_answer,
  messages_of, read_messages, read_report, reply_with, hear, Ended, over_pipe,
}

-- What can be said over the pipes: a message, an answer to `n` messages, and what PAM says.
abbrev pub IsMessage : PamMessage → Type 0
IsMessage m = (m.msg_style < 4294967296) × IsLineOrNull m.msg

abbrev pub IsAnswer : ℕ → Answer → Type 0
IsAnswer n (answered responses) = (length responses ≡ n) × All IsLineOrNull responses
IsAnswer n (refused error) = (error ≢ 0) × (error < 4294967296)

abbrev pub CanSay : Pam → Type 0
CanSay (asks username messages next) =
    IsLineOrNull username
    × All IsMessage messages
    × (length messages < 4294967296)
    × ((answer : Answer) → CanSay (next answer))
CanSay (returns result username) = (result < 4294967296) × IsLineOrNull username

-- PAM talks to whoever answers; the session keeps the user and the messages of the last question
-- that had an error for an answer.
abbrev pub spoken : Option Str → List PamMessage → Answer → Session → Session
spoken username messages (answered responses) session = record session {
  username = username;
  messages = [];
}
spoken username messages (refused error) session = record session {
  username = username;
  messages = messages;
}

abbrev pub directly : Bool → Reply → Pam → Session → Ended
directly is_interactive reply (returns result username) session = (result, username, session)
directly true reply (asks username messages next) session =
    let answer = reply username messages in
    directly true reply (next answer) (spoken username messages answer session)
directly false reply (asks username messages next) session =
    directly false reply (next (answer_alone messages)) session

read_messages-octets :
    (messages : List PamMessage) (rest : List ℕ)
    → All IsMessage messages
    → read_messages (length messages) (message_octets messages ++ rest) ≡ some (messages, rest)
unfolding read_messages message_octets
read_messages-octets [] rest h = refl
read_messages-octets (m ∷ messages) rest ((style, text), hs) = rw (
  append_assoc (number_octets 4 m.msg_style) (string_octets m.msg ++ message_octets messages) rest,
  append_assoc (string_octets m.msg) (message_octets messages) rest,
  read_number-octets 4 m.msg_style (string_octets m.msg ++ (message_octets messages ++ rest))
      (omega arith),
  pipe_string-octets m.msg (message_octets messages ++ rest) text,
  read_messages-octets messages rest hs,
)

report_lem :
    (username : Option Str) (messages : List PamMessage)
    → IsLineOrNull username
    → All IsMessage messages
    → length messages < 4294967296
    → read_report (conversation_octets username messages) ≡ some (messages_of username messages, [])
unfolding read_report conversation_octets
report_lem username messages h hs few =
    rw
      (
        pipe_string-octets username
            (number_octets 4 0 ++ (number_octets 4 (length messages) ++ message_octets messages)) h,
        read_number-octets 4 0 (number_octets 4 (length messages) ++ message_octets messages) refl,
        read_number-octets 4 (length messages) (message_octets messages) (omega arith),
      )
      (ap (λ o. and_then o (λ read. pure (messages_of username read))) whole)
  where
    whole : read_messages (length messages) (message_octets messages) ≡ some (messages, [])
    whole =
        subst (λ bs. read_messages (length messages) bs ≡ some (messages, []))
          (append-nil (message_octets messages)) (read_messages-octets messages [] hs)

Reads-responses :
    (responses : List (Option Str))
    → All IsLineOrNull responses
    → Reads (write_responses responses) (read_responses (length responses)) responses
unfolding write_responses read_responses
Reads-responses [] h = Reads-pure []
Reads-responses (resp ∷ responses) (h, hs) = Reads-string _ resp h (
    Reads-number _ 0 (omega arith) (
      Reads-last (read_responses (length responses)) (λ read. resp ∷ read)
        (Reads-responses responses hs)))

Reads-answered :
    (responses : List (Option Str))
    → All IsLineOrNull responses
    → Reads
        (wrote_number pam_success ∷ write_responses responses)
        (read_answer (length responses))
        (answered responses)
unfolding read_answer
Reads-answered responses h =
    Reads-number _ 0 (omega arith)
      (Reads-last (read_responses (length responses)) answered (Reads-responses responses h))

Reads-refused :
    (n error : ℕ)
    → error ≢ 0
    → error < 4294967296
    → Reads (wrote_number error ∷ []) (read_answer n) (refused error)
unfolding read_answer pipe_octets
Reads-refused n error h small = Reads-number _ error (omega (arith, small)) (record {
  reads = λ rest.
      ap (λ (read : Read Answer). read rest)
        (if-true (not (error == pam_success)) _ _ (ap not (ne→==-false error 0 h)));
})

nothing_left :
    {outputs : List SessionOutput} {read : Read Answer} {answer : Answer}
    → Reads outputs read answer
    → read (pipe_octets outputs) ≡ some (answer, [])
nothing_left {outputs} {read} {answer} h =
    subst (λ bs. read bs ≡ some (answer, [])) (append-nil (pipe_octets outputs)) (h.reads [])

answer_lem :
    (n : ℕ) (answer : Answer) (session : Session)
    → IsAnswer n answer
    → read_answer n (pipe_octets (reply_with answer session).1) ≡ some (answer, [])
unfolding reply_with session_respond session_respond_error
answer_lem n (answered responses) session (e, h) =
    subst
      (λ k.
        read_answer k (pipe_octets (wrote_number pam_success ∷ write_responses responses))
        ≡ some (answered responses, []))
      e (nothing_left (Reads-answered responses h))
answer_lem n (refused error) session (h, small) =
    ap (λ outputs. read_answer n (pipe_octets outputs))
      (if-false (error == pam_success) _ _ (ne→==-false error 0 h))
    ∙ nothing_left (Reads-refused n error h small)

heard_lem :
    (username : Option Str) (messages : List PamMessage) (answer : Answer) (session : Session)
    → (reply_with answer (got_messages username messages session)).0
      ≡ spoken username messages answer session
unfolding reply_with session_respond got_messages
heard_lem username messages (answered responses) session = refl
heard_lem username messages (refused error) session = refl

-- The dialogue over the pipes is PAM talking to whoever answers: both sides understand all that is
-- said, every question is answered by the reply to it, in the order of the questions, and PAM ends
-- with the same result; a session that is not interactive refuses where PAM wants input. What is
-- said can be said over the pipes: texts have no NUL and fewer than 65536 octets, and an answer has as
-- many responses as there are messages or is an error.
pub dialogue_refines :
    (is_interactive : Bool) (reply : Reply) (pam : Pam) (session : Session)
    → CanSay pam
    → ((username : Option Str) (messages : List PamMessage)
        → IsAnswer (length messages) (reply username messages))
    → over_pipe is_interactive reply pam session ≡ some (directly is_interactive reply pam session)
unfolding over_pipe hear
dialogue_refines is_interactive reply (returns result username) session h answers = refl
dialogue_refines false reply (asks username messages next) session (user, said, few, more) answers =
    dialogue_refines false reply (next (answer_alone messages)) session
      (more (answer_alone messages)) answers
dialogue_refines true reply (asks username messages next) session (user, said, few, more) answers =
    let answer = reply username messages in
    rw
      (
        report_lem username messages user said few,
        answer_lem (length messages) answer (got_messages username messages session)
            (answers username messages),
        heard_lem username messages answer session,
      )
      (dialogue_refines true reply (next answer) (spoken username messages answer session)
        (more answer) answers)
