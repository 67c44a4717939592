-- ===== src/Greeter/Safety.antt =====
-- No START_SESSION without PAM's success (src/greeter.c).
use lightdm.Base.{
  ℕ, zero, suc, ◌≡◌, ◌≢◌, refl, Bool, false, List, [], ◌∷◌, ◌++◌, Option, none, some, All,
  if-either, arith, ne→==-false, if◌then◌else◌, ◌==◌,
}
use lightdm.Session.Authentication.{
  Str, Session, session_get_is_authenticated, got_messages, got_result, child_exited, pam_success,
}
use lightdm.Greeter.State.{
  Greeter, emitted_disconnected, World, Act, do_nothing, greeter_take_authentication_session,
  greeter_stop,
}
use lightdm.Greeter.Handlers.{
  handle_connect, handle_ensure_shared_dir, pam_messages_cb, authentication_complete_cb,
  send_end_authentication, authenticated, count_prompts, no_responses,
}
use lightdm.Greeter.Dispatch.{
  is_refused, with_length, GreeterMessage, connect, authenticate, authenticate_as_guest,
  continue_authentication, start_session, cancel_authentication, set_language, authenticate_remote,
  ensure_shared_dir, too_many_secrets, unknown, read_message, handle_message, dispatch, ReadChars,
  chars, eof, not_normal, ReadResult, received, octets_to_read, append_chars, read_cb, Event,
  readable, hung_up, child_asks, child_reports, child_exits, taken, stopped, with_session,
  session_exits, on_session, step, run,
}
use lightdm.Greeter.Locked.{
  IsLocked, Locked, Locked->>, Locked-put, Locked-nothing, Locked-modify, set-session,
  act-if_either, on-session, any_start, is_start, StaysLocked, IsFresh,
}
use lightdm.Greeter.LockedHandlers.{
  Locked-authenticate, Locked-authenticate_as_guest, Locked-authenticate_remote, respond_locked,
  Locked-continue, Locked-cancel, Locked-start, Locked-language,
}

pub Locked-connect : (world : World) (r : Bool) (api : ℕ) → Locked (handle_connect world r api)
unfolding handle_connect any_start is_start
Locked-connect world r api = record {
  locked = λ greeter l. (
    record {
      no_guest = l.no_guest;
      not_guest = l.not_guest;
      not_authenticated = l.not_authenticated;
    },
    refl,
  );
}

Locked-message :
    (world : World) (message : GreeterMessage)
    → IsFresh world.created
    → Locked (handle_message world message)
unfolding handle_message handle_ensure_shared_dir is_start
Locked-message world (connect resettable api_version) fresh =
    Locked-connect world resettable api_version
Locked-message world (authenticate n username) fresh = Locked-authenticate world n username fresh
Locked-message world (authenticate_as_guest n) fresh = Locked-authenticate_as_guest n
Locked-message world (continue_authentication secrets) fresh = Locked-continue secrets
Locked-message world (start_session session_name) fresh = Locked-start world session_name
Locked-message world cancel_authentication fresh = Locked-cancel
Locked-message world (set_language language) fresh = Locked-language language
Locked-message world (authenticate_remote n session_name username) fresh =
    Locked-authenticate_remote world session_name username n fresh
Locked-message world (ensure_shared_dir username) fresh = Locked-put _ refl
Locked-message world too_many_secrets fresh = Locked-nothing
Locked-message world (unknown id) fresh = Locked-nothing

set-buffer :
    (greeter : Greeter) (octets : List ℕ)
    → IsLocked greeter
    → IsLocked (record greeter { read_buffer = octets })
set-buffer greeter octets l = record {
  no_guest = l.no_guest;
  not_guest = l.not_guest;
  not_authenticated = l.not_authenticated;
}

-- The same of what a callback leaves.
abbrev pub LeavesLocked : ReadResult → Type 0
LeavesLocked r = IsLocked r.greeter × (any_start r.outputs ≡ false)

dispatch_locked :
    (world : World) (greeter : Greeter)
    → IsFresh world.created
    → IsLocked greeter
    → LeavesLocked (dispatch world greeter)
unfolding dispatch any_start
dispatch_locked world greeter fresh l =
    let message = read_message greeter.read_buffer in
    let act = Locked-message world message fresh in
    let (l', e) = act.locked greeter l in
    if-either LeavesLocked (is_refused message) (l, refl)
      (set-buffer (handle_message world message greeter).0 [] l', e)

received_locked :
    (world : World) (again : Greeter → ReadResult) (n_to_read : ℕ) (greeter : Greeter)
    → IsFresh world.created
    → ((g : Greeter) → IsLocked g → LeavesLocked (again g))
    → IsLocked greeter
    → LeavesLocked (received world again n_to_read greeter)
unfolding received any_start
received_locked world again n_to_read greeter fresh more l =
    if-either LeavesLocked _ (l, refl)
      (if-either LeavesLocked _ (more greeter l) (dispatch_locked world greeter fresh l))

with_length_locked :
    (greeter : Greeter) (n : Option ℕ) (f : ℕ → ReadResult)
    → IsLocked greeter
    → ((k : ℕ) → LeavesLocked (f k))
    → LeavesLocked (with_length greeter n f)
unfolding any_start
with_length_locked greeter none f l h = (l, refl)
with_length_locked greeter (some k) f l h = h k

read_cb_locked :
    (fuel : ℕ) (world : World) (reads : List ReadChars) (greeter : Greeter)
    → IsFresh world.created
    → IsLocked greeter
    → LeavesLocked (read_cb fuel world reads greeter)
unfolding read_cb any_start is_start append_chars
read_cb_locked zero world reads greeter fresh l = (l, refl)
read_cb_locked (suc fuel) world [] greeter fresh l = (l, refl)
read_cb_locked (suc fuel) world (eof ∷ reads) greeter fresh l =
    with_length_locked greeter (octets_to_read greeter.read_buffer) _ l (λ k. (l, refl))
read_cb_locked (suc fuel) world (not_normal ∷ reads) greeter fresh l =
    with_length_locked greeter (octets_to_read greeter.read_buffer) _ l (λ k. (l, refl))
read_cb_locked (suc fuel) world (chars octets ∷ reads) greeter fresh l =
    with_length_locked greeter (octets_to_read greeter.read_buffer) _ l (λ k.
      received_locked world (read_cb fuel world reads) k _ fresh
        (λ g. read_cb_locked fuel world reads g fresh)
        (set-buffer greeter (greeter.read_buffer ++ octets) l))

-- PAM's success is not reported in the event.
abbrev pub IsNoSuccess : Event → Type 0
IsNoSuccess (child_reports username status) = status ≢ pam_success
IsNoSuccess event = Unit

failed :
    (session : Session) (username : Option Str) (status : ℕ)
    → status ≢ pam_success
    → session_get_is_authenticated (got_result username status session) ≡ false
unfolding session_get_is_authenticated got_result
failed session username status h = rw (ne→==-false status pam_success h) refl

exited :
    (session : Session)
    → session_get_is_authenticated session ≡ false
    → session_get_is_authenticated (child_exited session).0 ≡ false
unfolding session_get_is_authenticated child_exited
exited session h = ground arith

with_session_locked :
    (session : Session) (callback : Act) (greeter : Greeter)
    → IsLocked greeter
    → session_get_is_authenticated session ≡ false
    → ((g : Greeter) → IsLocked g → StaysLocked (callback g))
    → StaysLocked (with_session session callback greeter)
unfolding with_session any_start
with_session_locked session callback greeter l e h =
    let set = set-session greeter session greeter.listening l e in
    if-either StaysLocked greeter.listening (h _ set) (set, refl)

prompted_locked :
    (session : Session) (greeter : Greeter)
    → session_get_is_authenticated session ≡ false
    → IsLocked greeter
    → StaysLocked (pam_messages_cb session greeter)
unfolding pam_messages_cb any_start is_start
prompted_locked session greeter e l =
    if-either StaysLocked (count_prompts session.messages == 0)
      (respond_locked (no_responses session.messages) session greeter l e) (l, refl)

completed_locked :
    (world : World) (session : Session) (greeter : Greeter)
    → IsLocked greeter
    → StaysLocked (authentication_complete_cb world session greeter)
unfolding authentication_complete_cb send_end_authentication any_start is_start
completed_locked world session greeter l = (l, refl)

Locked-on_session :
    (f : Session → Act)
    → ((session : Session) (greeter : Greeter)
        → session_get_is_authenticated session ≡ false
        → IsLocked greeter
        → StaysLocked (f session greeter))
    → Locked (on_session f)
unfolding on_session
Locked-on_session f h = record {
  locked = λ greeter l.
      on-session f greeter greeter.authentication_session l l.not_authenticated Locked-nothing
        (λ session e. h session greeter e l);
}

exits_locked :
    (world : World) (session : Session) (greeter : Greeter)
    → session_get_is_authenticated session ≡ false
    → IsLocked greeter
    → StaysLocked (session_exits world session greeter)
unfolding session_exits any_start
exits_locked world session greeter e l =
    let (session', emits) = child_exited session in
    with_session_locked session'
      (if emits then authentication_complete_cb world session' else do_nothing) greeter l
      (exited session e)
      (λ g l'. act-if_either emits _ _ (completed_locked world session' g l') (l', refl))

Locked-step :
    (world : World) (event : Event)
    → IsFresh world.created
    → IsNoSuccess event
    → Locked (step world event)
unfolding step is_start any_start authenticated greeter_take_authentication_session greeter_stop
    session_get_is_authenticated got_messages
Locked-step world (readable reads) fresh h = record {
  locked = λ greeter l. read_cb_locked 2 world reads greeter fresh l;
}
Locked-step world hung_up fresh h = Locked-put emitted_disconnected refl
Locked-step world (child_asks username messages) fresh h =
    Locked-on_session _ λ session greeter e l.
      let session' = got_messages username messages session in
      with_session_locked session' (pam_messages_cb session') greeter l e
        (λ g. prompted_locked session' g e)
Locked-step world (child_reports username status) fresh h =
    Locked-on_session _ λ session greeter e l.
      let session' = got_result username status session in
      with_session_locked session' (authentication_complete_cb world session') greeter l
        (failed session username status h) (completed_locked world session')
Locked-step world child_exits fresh h = Locked-on_session (session_exits world) (exits_locked world)
Locked-step world taken fresh h =
    Locked-modify greeter_take_authentication_session λ greeter l. record {
      no_guest = l.no_guest;
      not_guest = l.not_guest;
      not_authenticated = refl;
    }
Locked-step world stopped fresh h = Locked-modify greeter_stop λ greeter l. record {
  no_guest = l.no_guest;
  not_guest = l.not_guest;
  not_authenticated = l.not_authenticated;
}

-- Neither a session that is authenticated when it is created, nor PAM's success in the event.
abbrev pub IsUnsuccessful : World × Event → Type 0
IsUnsuccessful (world, event) = IsFresh world.created × IsNoSuccess event

pub Locked-run : (events : List (World × Event)) → All IsUnsuccessful events → Locked (run events)
unfolding run
Locked-run [] h = Locked-nothing
Locked-run ((world, event) ∷ events) ((fresh, no_success), h) =
    Locked->> (Locked-step world event fresh no_success) (Locked-run events h)

-- Whatever octets a greeter sends, in whatever order, and whatever its sessions ask or the seat
-- does: where guests are not allowed and nobody is logged in, the signal START_SESSION is not
-- emitted in a run in which no session child reports PAM's success and sessions are created
-- unauthenticated.
pub run_starts_nothing :
    (events : List (World × Event)) (greeter : Greeter)
    → greeter.allow_guest ≡ false
    → greeter.guest_account_authenticated ≡ false
    → authenticated greeter.authentication_session ≡ false
    → All IsUnsuccessful events
    → any_start (run events greeter).1 ≡ false
run_starts_nothing events greeter no_guest not_guest not_authenticated h =
    let act = Locked-run events h in
    let lock : IsLocked greeter = record {
      no_guest = no_guest;
      not_guest = not_guest;
      not_authenticated = not_authenticated;
    } in
    let (_, e) = act.locked greeter lock in e
