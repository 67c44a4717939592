-- ===== src/Greeter/Messages.antt =====
-- Every message that src/greeter.c writes to a greeter, against its description.
use lightdm.Base.{
  ℕ, ◌+◌, ◌≤◌, ◌<◌, ◌≡◌, refl, ap, ◌∙◌, List, [], ◌++◌, Option, some, length, length-append, leb,
  ◌==◌, arith, if◌then◌else◌, Bool, true, false,
}
use lightdm.Session.Authentication.{Str, PamMessage}
use lightdm.Greeter.Writer.{
  Write, ◌>>◌, octets, text_of, write_header, string_length, hints_length, prompts_length,
  connected_message, prompt_message, end_authentication_message, session_result_message,
  shared_dir_message, idle_message, reset_message,
}
use lightdm.Greeter.Frame.{
  text_field, hint_fields, prompt_fields, frame, Writes, Writes->>, Writes-int, Writes-string,
  Writes-header, Writes-nothing, Writes-hints, Writes-prompts, length-text_field, hints_length_lem,
  prompts_length_lem,
}

-- The messages of the daemon. An old greeter, of version 0, is sent the first form of CONNECTED.
pub data ServerMessage : Type 0 where
  connected : Str → ℕ → List (Str × Str) → ServerMessage
  prompt_authentication : ℕ → Option Str → List PamMessage → ServerMessage
  end_authentication : ℕ → Option Str → ℕ → ServerMessage
  session_result : Bool → ServerMessage
  shared_dir_result : Option Str → ServerMessage
  idle : ServerMessage
  reset : List (Str × Str) → ServerMessage

-- What the code writes.
abbrev pub written : ServerMessage → List ℕ
written (connected version api_version hints) = connected_message version api_version hints
written (prompt_authentication n username messages) = prompt_message n username messages
written (end_authentication n username result) = end_authentication_message n username result
written (session_result result) = session_result_message result
written (shared_dir_result dir) = shared_dir_message dir
written idle = idle_message
written (reset hints) = reset_message hints

-- The id and the payload of each message.
abbrev pub id_of : ServerMessage → ℕ
id_of (connected version api_version hints) = if api_version == 0 then 0 else 7
id_of (prompt_authentication n username messages) = 1
id_of (end_authentication n username result) = 2
id_of (session_result result) = 3
id_of (shared_dir_result dir) = 4
id_of idle = 5
id_of (reset hints) = 6

abbrev pub connected_payload : Str → ℕ → List (Str × Str) → List ℕ
connected_payload version api_version hints =
    if api_version == 0
    then text_field (some version) ++ hint_fields hints
    else octets (if leb api_version 1 then api_version else 1)
      ++ (text_field (some version) ++ (octets (length hints) ++ hint_fields hints))

abbrev pub payload_of : ServerMessage → List ℕ
payload_of (connected version api_version hints) = connected_payload version api_version hints
payload_of (prompt_authentication n username messages) =
    octets n ++ (text_field username ++ (octets (length messages) ++ prompt_fields messages))
payload_of (end_authentication n username result) =
    octets n ++ (text_field username ++ octets result)
payload_of (session_result result) = octets (if result then 0 else 1)
payload_of (shared_dir_result dir) = text_field dir
payload_of idle = []
payload_of (reset hints) = hint_fields hints

-- A message of a header with the length `n` and the writes of a payload of that length.
record Frames (id n : ℕ) (message payload : List ℕ) : Type 0 where
  written_by : Write
  payload_writes : Writes written_by payload
  whole : message ≡ (write_header id n >> written_by) []
  counts : n ≡ length payload

framed :
    {id n : ℕ} {f : Write} {payload : List ℕ}
    → Writes f payload
    → n ≡ length payload
    → Frames id n ((write_header id n >> f) []) payload
framed {f} w e = record { written_by = f; payload_writes = w; whole = refl; counts = e }

abbrev Framed : ℕ → List ℕ → List ℕ → Type 0
Framed id message payload = (n : ℕ) × Frames id n message payload

Framed-if :
    (b : Bool) (i j : ℕ) (m m' p p' : List ℕ)
    → Framed i m p
    → Framed j m' p'
    → Framed (if b then i else j) (if b then m else m') (if b then p else p')
Framed-if true i j m m' p p' f g = f
Framed-if false i j m m' p p' f g = g

length-text : (value : Option Str) → length (text_field value) ≡ 4 + length (text_of value)
length-text value = omega arith

Framed-message : (m : ServerMessage) → Framed (id_of m) (written m) (payload_of m)
unfolding connected_message prompt_message end_authentication_message session_result_message
    shared_dir_message idle_message reset_message string_length
Framed-message (connected version api_version hints) =
    Framed-if (api_version == 0) _ _ _ _ _ _
      (
        string_length (some version) + hints_length hints,
        framed (Writes->> (Writes-string (some version)) (Writes-hints hints))
            (omega (arith, hints_length_lem hints, length-append version (hint_fields hints))),
      )
      (
        string_length (some version) + 8 + hints_length hints,
        framed
            (Writes->> (Writes-int _) (
              Writes->> (Writes-string (some version))
                (Writes->> (Writes-int (length hints)) (Writes-hints hints))))
            (omega (
              arith,
              hints_length_lem hints,
              length-append version (octets (length hints) ++ hint_fields hints),
            )),
      )
Framed-message (prompt_authentication n username messages) = (
  4 + string_length username + 4 + prompts_length messages,
  framed
      (Writes->> (Writes-int n) (
        Writes->> (Writes-string username)
          (Writes->> (Writes-int (length messages)) (Writes-prompts messages))))
      (omega (
        arith,
        prompts_length_lem messages,
        length-append (text_of username) (octets (length messages) ++ prompt_fields messages),
      )),
)
Framed-message (end_authentication n username result) = (
  4 + string_length username + 4,
  framed (Writes->> (Writes-int n) (Writes->> (Writes-string username) (Writes-int result)))
      (omega (arith, length-append (text_of username) (octets result))),
)
Framed-message (session_result result) = (4, framed (Writes-int _) refl)
Framed-message (shared_dir_result dir) =
    (string_length dir, framed (Writes-string dir) (length-text_field dir))
Framed-message idle = (0, framed Writes-nothing refl)
Framed-message (reset hints) =
    (hints_length hints, framed (Writes-hints hints) (hints_length_lem hints))

module _ {id n : ℕ} {message payload : List ℕ} (f : Frames id n message payload) where
  whole-Writes : Writes (write_header id n >> f.written_by) ((octets id ++ octets n) ++ payload)
  whole-Writes = Writes->> (Writes-header id n) f.payload_writes

  whole_framed : 8 + length payload < 1024 → message ≡ frame id payload
  whole_framed h =
      let w = whole-Writes in
      f.whole ∙ w.fits [] (omega arith) ∙ ap (λ k. (octets id ++ octets k) ++ payload) f.counts

  whole_bounded : length message < 1024
  whole_bounded = let w = whole-Writes in rw f.whole (w.bounded [] (omega arith))

  header_first : (more : List ℕ) × (message ≡ (octets id ++ octets (length payload)) ++ more)
  header_first =
      let header = Writes-header id n in
      let w = f.payload_writes in
      let (more, e) = w.extends (write_header id n []) in
      (
        more,
        f.whole
            ∙ e
            ∙ ap (λ b. b ++ more) (header.fits [] (omega arith))
            ∙ ap (λ k. (octets id ++ octets k) ++ more) f.counts,
      )

-- A message that has room in the buffer of 1024 octets is written as its description says: its id,
-- the length of its payload, and its payload, each number as four octets.
pub message_framed :
    (m : ServerMessage)
    → 8 + length (payload_of m) < 1024
    → written m ≡ frame (id_of m) (payload_of m)
message_framed m h = let (n, f) = Framed-message m in whole_framed f h

-- A message that has no room is sent all the same: its header promises the whole payload, but fewer
-- octets follow.
pub message_truncated :
    (m : ServerMessage)
    → 1024 ≤ 8 + length (payload_of m)
    → (more : List ℕ) × (written m ≡ (octets (id_of m) ++ octets (length (payload_of m))) ++ more)
      × (length more < length (payload_of m))
message_truncated m h =
    let (n, f) = Framed-message m in
    let (more, e) = header_first f in
    let bound = whole_bounded f in (more, e, omega (arith, bound, ap length e, h))
