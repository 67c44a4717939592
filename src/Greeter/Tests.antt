-- ===== src/Greeter/Tests.antt =====
-- Runs of a greeter (src/greeter.c).
use lightdm.Base.{
  ℕ, zero, suc, ◌+◌, ◌≤◌, ◌<◌, ◌≡◌, refl, true, false, List, [], ◌∷◌, ◌++◌, some, none, length,
  codes, arith, map,
}
use lightdm.Session.Authentication.{Str, Session, pam_success}
use lightdm.Greeter.State.{
  Greeter, sent_message, emitted_start_session, session_type_local, World, new_greeter, ◌>>◌,
}
use lightdm.Xdmcp.Reader.{c_string}
use lightdm.Greeter.Writer.{octets, end_authentication_message, session_result_message}
use lightdm.Greeter.Reader.{header_plus, sign_extend, read_int, read_string, get_message_length}
use lightdm.Greeter.Handlers.{
  authenticated, has_user, nonempty, handle_authenticate, handle_authenticate_remote,
  handle_start_session,
}
use lightdm.Greeter.Dispatch.{
  ReadChars, read_cb, authenticate, read_payload, read_authenticate, handle_message, is_refused,
  clear_buffer, read_message, Event, readable, chars, child_reports, step, run,
}
use lightdm.Greeter.Locked.{any_start}
use lightdm.Greeter.Safety.{run_starts_nothing}
use lightdm.Greeter.Revocation.{authenticate_revokes}
use lightdm.Greeter.Login.{login_starts}
use lightdm.Greeter.Messages.{
  ServerMessage, end_authentication, prompt_authentication, written, payload_of, message_framed,
  message_truncated,
}
use lightdm.Greeter.Frame.{frame}
use lightdm.Greeter.Framing.{get_message_length_lem}
use lightdm.Greeter.Fuel.{read_cb_ends}
use lightdm.Greeter.Delivery.{Callback, arrives, message_handled_once}

abbrev new_session : Session
new_session = record {
  pid = 0;
  username = none;
  is_guest = false;
  pam_service = none;
  do_authenticate = false;
  is_interactive = false;
  messages = [];
  authentication_started = false;
  authentication_complete = false;
  authentication_result = 0;
  login1_session_id = none;
  tty = none;
  xdisplay = none;
  remote_host_name = none;
  x_authority = none;
  command_run = false;
  stopping = false;
}

abbrev zeros : ℕ → List ℕ
zeros zero = []
zeros (suc n) = 0 ∷ zeros n

abbrev world : World
world = record {
  version = codes "1.19";
  created = some new_session;
  start_results = record { pipes = true; guest_account = none; child = some 42 };
  takes = true;
  started = true;
  user_exists = λ name. true;
  remote_service = λ name. none;
  shared_dir = λ name. none;
}

abbrev text : Str → List ℕ
text s = octets (length s) ++ s

abbrev authenticate_header : List ℕ
authenticate_header = octets 1 ++ octets 11

abbrev authenticate_payload : List ℕ
authenticate_payload = octets 7 ++ text (codes "bob")

abbrev authenticate_bob : List ℕ
authenticate_bob = authenticate_header ++ authenticate_payload

abbrev start_ubuntu : List ℕ
start_ubuntu = octets 4 ++ (octets 10 ++ text (codes "ubuntu"))

abbrev header_then_rest : List ℕ → List ℕ → World × Event
header_then_rest header rest = (world, readable (chars header ∷ chars rest ∷ []))

-- A greeter asks for bob, PAM says no, and the greeter asks to start a session.
abbrev refused_login : List (World × Event)
refused_login =
    header_then_rest authenticate_header authenticate_payload
    ∷ (world, child_reports (some (codes "bob")) 7)
    ∷ header_then_rest (octets 4 ++ octets 10) (text (codes "ubuntu"))
    ∷ []

run_starts_nothing_example : any_start (run refused_login new_greeter).1 ≡ false
unfolding authenticated
run_starts_nothing_example =
    run_starts_nothing refused_login new_greeter refl refl refl
      ((refl, tt), ((refl, λ e. absurd (omega (arith, e))), ((refl, tt), tt)))

reads_bob : read_message authenticate_bob ≡ authenticate 7 (codes "bob")
unfolding read_message read_int read_payload read_authenticate read_string c_string
reads_bob = refl

-- Somebody is logged in already.
abbrev logged_in : Greeter
logged_in = record new_greeter {
  authentication_session =
      some (record new_session { authentication_complete = true; username = some (codes "eve") });
  listening = true;
}

authenticate_revokes_example :
    (any_start ((handle_authenticate world 8 (codes "bob") >> run refused_login) logged_in).1
      ≡ false)
    × (any_start
          ((handle_authenticate_remote world (codes "vnc") (codes "bob") 8 >> run refused_login)
            logged_in).1
        ≡ false)
authenticate_revokes_example =
    authenticate_revokes world 8 (codes "bob") (codes "vnc") refused_login logged_in refl refl
      ((refl, tt), ((refl, λ e. absurd (omega (arith, e))), ((refl, tt), tt)))

abbrev waiting : Greeter
waiting = record new_greeter {
  authentication_session = some new_session;
  listening = true;
  authentication_sequence_number = 7;
}

login_starts_example :
    ((step world (child_reports (some (codes "bob")) pam_success)
        >> handle_start_session world (codes "ubuntu"))
      waiting).1
    ≡ sent_message (end_authentication_message 7 (some (codes "bob")) 0)
      ∷ emitted_start_session session_type_local (some (codes "ubuntu"))
      ∷ sent_message (session_result_message true)
      ∷ []
unfolding has_user nonempty
login_starts_example =
    login_starts world world waiting new_session (some (codes "bob")) (codes "ubuntu") refl refl
      refl

abbrev long_prompt : ServerMessage
long_prompt = prompt_authentication 7 none (record { msg_style = 1; msg = some (zeros 1000) } ∷ [])

message_framed_example :
    written (end_authentication 7 (some (codes "bob")) 0)
    ≡ frame 2 (octets 7 ++ (text (codes "bob") ++ octets 0))
message_framed_example = message_framed (end_authentication 7 (some (codes "bob")) 0) (omega arith)

message_truncated_example :
    (more : List ℕ) × (written long_prompt
      ≡ (octets 1 ++ octets (length (payload_of long_prompt))) ++ more)
    × (length more < length (payload_of long_prompt))
message_truncated_example = message_truncated long_prompt (omega arith)

get_message_length_lem_example :
    (2147483648 < 2147483640 → get_message_length (octets 0 ++ octets 2147483648) ≡ 8 + 2147483648)
    × (4294967288 ≤ 2147483648 → get_message_length (octets 0 ++ octets 2147483648) ≡ 8)
    × (2147483640 ≤ 2147483648
        → 2147483648 < 4294967288
        → 9223372036854775808 < get_message_length (octets 0 ++ octets 2147483648))
unfolding read_int
get_message_length_lem_example =
    get_message_length_lem (octets 0 ++ octets 2147483648) 2147483648 [] refl (omega arith)

-- The header comes in two callbacks, the second of which reads on behind it.
abbrev rest_of_bob : List Callback
rest_of_bob = (octets 11, some (octets 7)) ∷ (text (codes "bob"), none) ∷ []

message_handled_once_example :
    run (map (arrives world) ((octets 1, none) ∷ rest_of_bob)) new_greeter ≡ (
      let (greeter', outputs) =
        handle_message world
          (read_message authenticate_bob)
          (record new_greeter { read_buffer = authenticate_bob }) in
      (clear_buffer greeter', outputs))
unfolding get_message_length read_int read_message is_refused header_plus sign_extend read_payload
    read_authenticate
message_handled_once_example =
    message_handled_once world authenticate_bob (octets 1, none) rest_of_bob new_greeter
      (omega arith) refl refl
      ((
        omega arith,
        λ h. omega arith,
        (omega arith, refl, omega arith, (omega arith, λ h. absurd (omega (arith, h)), refl)),
      ))

abbrev two_reads : List ReadChars
two_reads = chars authenticate_header ∷ chars authenticate_payload ∷ []

read_cb_ends_example : read_cb 5 world two_reads new_greeter ≡ read_cb 2 world two_reads new_greeter
read_cb_ends_example = read_cb_ends 3 world two_reads new_greeter
