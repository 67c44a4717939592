-- ===== src/GreeterLibrary/History.antt =====
-- What a greeter knows of its authentication after any history of messages
-- (liblightdm-gobject/greeter.c).
use lightdm.Base.{
  ℕ, ◌≡◌, refl, ap, ◌∙◌, subst, Bool, true, false, List, [], ◌∷◌, Option, some, none, ◌==◌, if-true,
  if◌then◌else◌, arith, ◌>>=◌,
}
use lightdm.Session.Authentication.{Str}
use lightdm.GreeterLibrary.State.{LightdmGreeter}
use lightdm.GreeterLibrary.Receiving.{
  Received, connected_to, asked, ended, session_answer, dir_answer, went_idle, was_reset,
  unknown_message, handle_received, handle_connected, handle_prompt_authentication,
  handle_end_authentication, handle_session_result, handle_shared_dir_result, handle_reset,
  receive_message, read_received,
}
use lightdm.GreeterLibrary.Requests.{lightdm_greeter_authenticate, begin_authentication}
use lightdm.GreeterLibrary.Calls.{next_number}

-- The messages that `read_cb` hands over, one after the other.
unfoldable pub receive_all : List (List ℕ) → LightdmGreeter → Option LightdmGreeter
receive_all [] greeter = some greeter
receive_all (m ∷ messages) greeter =
    receive_message m greeter >>= λ received. receive_all messages received.0

-- The result that a message tells of the authentication n, in front of those behind it.
unfoldable pub told_of : ℕ → Option Received → List ℕ → List ℕ
told_of n none results = results
told_of n (some (ended number username result)) results =
    if number == n then result ∷ results else results
told_of n (some (connected_to api_version version hints)) results = results
told_of n (some (asked number username messages)) results = results
told_of n (some (session_answer code)) results = results
told_of n (some (dir_answer dir)) results = results
told_of n (some went_idle) results = results
told_of n (some (was_reset hints)) results = results
told_of n (some (unknown_message id)) results = results

unfoldable pub results_of : ℕ → List (List ℕ) → List ℕ
results_of n [] = []
results_of n (m ∷ messages) = told_of n (read_received m) (results_of n messages)

-- Whether the last of the results is that of PAM for success; what counts where there is none.
unfoldable pub last_succeeds : Bool → List ℕ → Bool
last_succeeds b [] = b
last_succeeds b (result ∷ results) = last_succeeds (result == 0) results

number_kept :
    (received : Received) (greeter : LightdmGreeter)
    → (handle_received received greeter).0.authenticate_sequence_number
      ≡ greeter.authenticate_sequence_number
unfolding handle_received handle_connected handle_prompt_authentication handle_end_authentication
    handle_session_result handle_shared_dir_result handle_reset
number_kept (connected_to api_version version hints) greeter = ground arith
number_kept (asked number username messages) greeter = ground arith
number_kept (ended number username result) greeter = ground arith
number_kept (session_answer code) greeter = refl
number_kept (dir_answer dir) greeter = refl
number_kept went_idle greeter = refl
number_kept (was_reset hints) greeter = refl
number_kept (unknown_message id) greeter = refl

connected_keeps :
    (api_version : ℕ) (hints : List (Str × Str)) (greeter : LightdmGreeter)
    → (handle_connected api_version hints greeter).0.is_authenticated ≡ greeter.is_authenticated
unfolding handle_connected
connected_keeps api_version hints greeter = ground arith

prompt_keeps :
    (number : ℕ) (username : Str) (messages : List (ℕ × Str)) (greeter : LightdmGreeter)
    → (handle_prompt_authentication number username messages greeter).0.is_authenticated
      ≡ greeter.is_authenticated
unfolding handle_prompt_authentication
prompt_keeps number username messages greeter = ground arith

told :
    (received : Received) (greeter : LightdmGreeter) (results : List ℕ)
    → last_succeeds (handle_received received greeter).0.is_authenticated results
      ≡ last_succeeds greeter.is_authenticated
          (told_of greeter.authenticate_sequence_number (some received) results)
unfolding handle_received handle_connected handle_prompt_authentication handle_end_authentication
    handle_session_result handle_shared_dir_result handle_reset told_of last_succeeds
told (connected_to api_version version hints) greeter results =
    ap (λ b. last_succeeds b results) (connected_keeps api_version hints greeter)
told (asked number username messages) greeter results =
    ap (λ b. last_succeeds b results) (prompt_keeps number username messages greeter)
told (ended number username result) greeter results = ground arith
told (session_answer code) greeter results = refl
told (dir_answer dir) greeter results = refl
told went_idle greeter results = refl
told (was_reset hints) greeter results = refl
told (unknown_message id) greeter results = refl

-- A message does not return, or the others follow on what it leaves.
after_message :
    (read : Option Received) (messages : List (List ℕ)) (greeter final : LightdmGreeter)
    → ((next : LightdmGreeter)
        → receive_all messages next ≡ some final
        → final.is_authenticated
          ≡ last_succeeds next.is_authenticated
              (results_of next.authenticate_sequence_number messages))
    → ((read >>= λ received. some (handle_received received greeter)) >>= λ received.
        receive_all messages received.0)
      ≡ some final
    → final.is_authenticated
      ≡ last_succeeds greeter.is_authenticated (
          told_of greeter.authenticate_sequence_number read
            (results_of greeter.authenticate_sequence_number messages))
after_message none messages greeter final go_on e = cc
after_message (some received) messages greeter final go_on e =
    go_on (handle_received received greeter).0 e
    ∙ ap
        (λ n.
          last_succeeds (handle_received received greeter).0.is_authenticated
            (results_of n messages))
        (number_kept received greeter)
    ∙ told received greeter (results_of greeter.authenticate_sequence_number messages)

history_told :
    (messages : List (List ℕ)) (greeter final : LightdmGreeter)
    → receive_all messages greeter ≡ some final
    → final.is_authenticated
      ≡ last_succeeds greeter.is_authenticated
          (results_of greeter.authenticate_sequence_number messages)
unfolding receive_all results_of last_succeeds receive_message
history_told [] greeter final e = cc
history_told (m ∷ messages) greeter final e =
    after_message (read_received m) messages greeter final
      (λ next left. history_told messages next final left) e

-- From the call that starts an authentication, a connected greeter that has received any messages,
-- whatever their octets, counts as authenticated exactly if a message told a result of this very
-- authentication and the last such result is success: results of earlier authentications and all
-- other messages change nothing. Each message is one that `handle_message` returns from.
pub authenticated_only :
    (username : Option Str) (messages : List (List ℕ)) (greeter final : LightdmGreeter)
    → greeter.connected ≡ true
    → receive_all messages (lightdm_greeter_authenticate username greeter).0 ≡ some final
    → final.is_authenticated ≡ last_succeeds false (results_of (next_number greeter) messages)
unfolding lightdm_greeter_authenticate
authenticated_only username messages greeter final connected e =
    let called : (lightdm_greeter_authenticate username greeter).0
        ≡ begin_authentication username greeter =
      ap (λ (called : LightdmGreeter × Option (List ℕ)). called.0)
        (if-true greeter.connected _ _ connected) in
    history_told messages (begin_authentication username greeter) final
      (subst (λ start. receive_all messages start ≡ some final) called e)
