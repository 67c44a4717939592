-- ===== src/GreeterLibrary/Sent.antt =====
-- Every call of the library (liblightdm-gobject/greeter.c) sends the message that describes it, or
-- none.
use lightdm.Base.{
  ℕ, ◌≡◌, refl, sym, subst, Bool, true, false, List, ◌++◌, Option, none, some, ◌==◌, length,
  length-append, if◌then◌else◌, arith,
}
use lightdm.Greeter.Writer.{octets, text_of, string_length}
use lightdm.Greeter.Frame.{text_field}
use lightdm.GreeterLibrary.State.{LightdmGreeter}
use lightdm.GreeterLibrary.Requests.{
  send_connect, send_start_session, send_ensure_shared_data_dir, queue_if_sent, end_responses,
  send_responses, lightdm_greeter_authenticate, lightdm_greeter_authenticate_as_guest,
  lightdm_greeter_authenticate_remote, lightdm_greeter_respond,
  lightdm_greeter_cancel_authentication, lightdm_greeter_set_language,
  lightdm_greeter_connect_to_daemon, lightdm_greeter_start_session,
  lightdm_greeter_ensure_shared_data_dir,
}
use lightdm.GreeterLibrary.Sending.{
  Sends, Sends-message, Sends-header, Appends-int, Appends->=>, Appends-string, Appends-strings,
  responses_length_lem,
}
use lightdm.GreeterLibrary.Calls.{
  Request, connects, authenticates, authenticates_guest, authenticates_remote, responds, cancels,
  sets_language, starts_session, ensures_dir, sent_by, next_number, all_responses, request_id,
  request_payload, CanCall,
}

connected_lem :
    (id : ℕ) (payload : List ℕ) (connected : Bool) (greeter : LightdmGreeter)
    (next : LightdmGreeter × Option (List ℕ))
    → connected ≡ true
    → Sends next.1 id payload
    → Sends (if connected then next else (greeter, none)).1 id payload
connected_lem id payload true greeter next e h = h
connected_lem id payload false greeter next e h = cc

queue_lem :
    (id : ℕ) (payload : List ℕ) (n : ℕ) (greeter : LightdmGreeter) (message : Option (List ℕ))
    → Sends message id payload
    → Sends (queue_if_sent n greeter message).1 id payload
queue_lem id payload n greeter none h = h
queue_lem id payload n greeter (some message) h = h

end_lem :
    (id : ℕ) (payload : List ℕ) (responded : LightdmGreeter) (message : Option (List ℕ))
    → Sends message id payload
    → Sends (end_responses responded message).1 id payload
end_lem id payload responded none h = h
end_lem id payload responded (some message) h = h

responded_lem :
    (id : ℕ) (payload : List ℕ) (waiting : ℕ) (greeter responded : LightdmGreeter)
    (message : Option (List ℕ))
    → waiting ≡ 1
    → Sends message id payload
    → Sends
        (if waiting == 0
          then (greeter, none)
          else if waiting == 1
          then end_responses responded message
          else (responded, none)).1
        id
        payload
responded_lem id payload waiting greeter responded message e h =
    subst
      (λ w.
        Sends
          (if w == 0
            then (greeter, none)
            else if w == 1
            then end_responses responded message
            else (responded, none)).1
          id payload)
      (sym e) (end_lem id payload responded message h)

pub sent_lem :
    (request : Request) (greeter : LightdmGreeter)
    → CanCall request greeter
    → Sends (sent_by request greeter) (request_id request) (request_payload request greeter)
unfolding lightdm_greeter_authenticate lightdm_greeter_authenticate_as_guest
    lightdm_greeter_authenticate_remote lightdm_greeter_cancel_authentication
    lightdm_greeter_respond lightdm_greeter_set_language lightdm_greeter_connect_to_daemon
    lightdm_greeter_start_session lightdm_greeter_ensure_shared_data_dir send_connect
    send_start_session send_ensure_shared_data_dir send_responses string_length
sent_lem (connects version) greeter e = queue_lem 0 _ 0 greeter _ (
    Sends-message 0 _
      (Appends->=> (Appends-string (some version)) (Appends->=> (Appends-int _) (Appends-int 1)))
      (omega
        (arith, length-append version (octets (if greeter.resettable then 1 else 0) ++ octets 1))))
sent_lem (authenticates username) greeter e = connected_lem 1 _ greeter.connected greeter _ e (
    Sends-message 1 _ (Appends->=> (Appends-int (next_number greeter)) (Appends-string username))
      (omega arith))
sent_lem authenticates_guest greeter e =
    connected_lem 2 _ greeter.connected greeter _ e
      (Sends-message 2 _ (Appends-int (next_number greeter)) refl)
sent_lem (authenticates_remote session username) greeter e =
    connected_lem 7 _ greeter.connected greeter _ e (
      Sends-message 7 _
        (Appends->=> (Appends-int (next_number greeter))
          (Appends->=> (Appends-string session) (Appends-string username)))
        (omega (arith, length-append (text_of session) (text_field username))))
sent_lem (responds response) greeter (e, waiting) =
    connected_lem 3 _ greeter.connected greeter _ e (
      responded_lem 3 _ greeter.n_responses_waiting greeter _ _ waiting (
        Sends-message 3 _
          (Appends->=> (Appends-int (length (all_responses response greeter)))
            (Appends-strings (all_responses response greeter)))
          (omega (arith, responses_length_lem (all_responses response greeter)))))
sent_lem cancels greeter e = connected_lem 5 _ greeter.connected greeter _ e (Sends-header 5)
sent_lem (sets_language language) greeter e =
    connected_lem 6 _ greeter.connected greeter _ e
      (Sends-message 6 _ (Appends-string language) (omega arith))
sent_lem (starts_session session) greeter e =
    Sends-message 4 _ (Appends-string session) (omega arith)
sent_lem (ensures_dir username) greeter e =
    Sends-message 8 _ (Appends-string username) (omega arith)
