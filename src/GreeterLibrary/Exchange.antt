-- ===== src/GreeterLibrary/Exchange.antt =====
-- What the library sends (liblightdm-gobject/greeter.c) is what the daemon reads (src/greeter.c).
use lightdm.Base.{
  ℕ, ◌+◌, ◌≤◌, ◌<◌, ◌≢◌, ◌≡◌, refl, sym, ap, ◌∙◌, subst, false, List, ◌∷◌, map, none, some, length,
  All, arith,
}
use lightdm.Greeter.Reader.{get_message_length}
use lightdm.Greeter.Frame.{frame}
use lightdm.Greeter.Fields.{read_int-octets}
use lightdm.Greeter.State.{Greeter, GreeterOutput, World}
use lightdm.Greeter.Framing.{get_message_length_lem}
use lightdm.Greeter.Delivery.{Callback, Delivers, arrives, message_handled_once}
use lightdm.Greeter.Dispatch.{
  is_refused, handle_message, clear_buffer, run, GreeterMessage, read_message,
}
use lightdm.GreeterLibrary.State.{LightdmGreeter}
use lightdm.GreeterLibrary.Calls.{
  Request, connects, authenticates, authenticates_guest, authenticates_remote, responds, cancels,
  sets_language, starts_session, ensures_dir, sent_by, meaning, request_id, request_payload,
  CanCall, texts_of,
}
use lightdm.GreeterLibrary.Sent.{sent_lem}
use lightdm.GreeterLibrary.Meaning.{some-injective, length-frame, read_message-frame, means_lem}

id_small : (request : Request) → request_id request < 4294967296
id_small (connects version) = omega arith
id_small (authenticates username) = omega arith
id_small authenticates_guest = omega arith
id_small (authenticates_remote session username) = omega arith
id_small (responds response) = omega arith
id_small cancels = omega arith
id_small (sets_language language) = omega arith
id_small (starts_session session) = omega arith
id_small (ensures_dir username) = omega arith

-- A message that fits in 1024 octets is sent, and the daemon reads it as what the greeter asked: the
-- greeter is connected, or is about to connect, an answer is the last that the daemon waits for, and
-- no text holds a NUL. A text NULL is read as the empty text.
pub request_delivered :
    (request : Request) (greeter : LightdmGreeter)
    → CanCall request greeter
    → All (All (λ c. c ≢ 0)) (texts_of request greeter)
    → 8 + length (request_payload request greeter) < 1024
    → (m : List ℕ) × (sent_by request greeter ≡ some m) × (read_message m ≡ meaning request greeter)
request_delivered request greeter can h small =
    let payload = request_payload request greeter in
    let m = frame (request_id request) payload in
    (
      m,
      (sent_lem request greeter can).sent small,
      read_message-frame (request_id request) payload (id_small request) small
          ∙ means_lem request greeter h small,
    )

-- A message that does not fit is not sent at all.
pub request_refused :
    (request : Request) (greeter : LightdmGreeter)
    → CanCall request greeter
    → 1024 ≤ 8 + length (request_payload request greeter)
    → sent_by request greeter ≡ none
request_refused request greeter can large = (sent_lem request greeter can).refused large

message_length-frame :
    (id : ℕ) (payload : List ℕ)
    → 8 + length payload < 1024
    → get_message_length (frame id payload) ≡ length (frame id payload)
message_length-frame id payload h =
    (get_message_length_lem (frame id payload) (length payload) payload
        (read_int-octets (length payload) payload (omega arith)) (omega arith)).0
      (omega arith)
    ∙ sym (length-frame id payload)

accepted_lem :
    (request : Request) (greeter : LightdmGreeter) → is_refused (meaning request greeter) ≡ false
unfolding is_refused
accepted_lem (connects version) greeter = refl
accepted_lem (authenticates username) greeter = refl
accepted_lem authenticates_guest greeter = refl
accepted_lem (authenticates_remote session username) greeter = refl
accepted_lem (responds response) greeter = refl
accepted_lem cancels greeter = refl
accepted_lem (sets_language language) greeter = refl
accepted_lem (starts_session session) greeter = refl
accepted_lem (ensures_dir username) greeter = refl

-- What the daemon's greeter does with a request that reaches it as a direct call of its handler.
abbrev pub called_directly :
    World → GreeterMessage → List ℕ → Greeter → Greeter × List GreeterOutput
called_directly world message m daemon =
    let (daemon', outputs) = handle_message world message (record daemon { read_buffer = m }) in
    (clear_buffer daemon', outputs)

-- The protocol behaves like a direct call: however the channel cuts what the library writes, into
-- callbacks and into the two reads of a callback that completes the header, the
-- daemon ends as if the handler of the request had been called once with its arguments. The request
-- has a payload and fits in 1024 octets, and may be made; no text holds a NUL; each read gives some
-- octets and no more than asked for.
pub request_refines :
    (world : World) (request : Request) (greeter : LightdmGreeter) (daemon : Greeter) (m : List ℕ)
    (callback : Callback) (cs : List Callback)
    → CanCall request greeter
    → All (All (λ b. b ≢ 0)) (texts_of request greeter)
    → 0 < length (request_payload request greeter)
    → 8 + length (request_payload request greeter) < 1024
    → sent_by request greeter ≡ some m
    → Delivers m daemon.read_buffer (callback ∷ cs)
    → run (map (arrives world) (callback ∷ cs)) daemon
      ≡ called_directly world (meaning request greeter) m daemon
request_refines world request greeter daemon m callback cs can texts some_payload small sent
      delivers =
    let payload = request_payload request greeter in
    let id = request_id request in
    let whole : m ≡ frame id payload =
      some-injective (sym sent ∙ (sent_lem request greeter can).sent small) in
    let read : read_message m ≡ meaning request greeter =
      ap read_message whole
      ∙ read_message-frame id payload (id_small request) small
      ∙ means_lem request greeter texts small in
    message_handled_once world m callback cs daemon
      (subst (λ k. 8 < length k) (sym whole) (omega arith))
      (subst (λ k. get_message_length k ≡ length k) (sym whole)
        (message_length-frame id payload small))
      (ap is_refused read ∙ accepted_lem request greeter) delivers
    ∙ ap (λ message. called_directly world message m daemon) read
