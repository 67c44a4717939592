-- ===== src/Seat/Objects.antt =====
-- Access to the objects of a seat, and the operations of its sessions (src/session.c,
-- src/greeter-session.c) and display servers (src/display-server.c) that the seat calls. The part
-- of a session that takes part in authentication is Session.Authentication; a ConsoleKit cookie
-- counts as NULL.
use lightdm.Base.{
  ℕ, ◌+◌, Bool, true, false, List, [], ◌∷◌, ◌++◌, Option, none, some, ◌&&◌, ◌||◌, not, ◌==◌,
  if◌then◌else◌, is_some, length, take, drop, str_eq, codes,
}
use lightdm.Session.Authentication
use lightdm.Session.Authentication.{
  no_child, Str, Session, SessionOutput, signalled_stopped, killed, session_get_is_authenticated,
}
use lightdm.Seat.State.{
  Pointer, SeatSession, DisplayServer, SeatAction, did, session_did, ran_session, locked, unlocked,
  activated, connected_session, disconnected_session, Seat, Answers, Environment, Act, ◌>>=◌, ◌>>◌,
  pure, gets, nothing, when, if_null, returned,
}

unfoldable pub modify : (Seat → Seat) → Act Unit
modify f seat = returned tt (f seat)

abbrev pub set {ℓ} : {A : Type ℓ} → ℕ → (A → A) → (ℕ → A) → ℕ → A
set n f objects m = if m == n then f (objects m) else objects m

-- The primitive actions: an output, a change of an object, a question to the system.
unfoldable pub put_out : SeatAction → Act Unit
unfolding modify
put_out action = modify λ seat. record seat { done = did action ∷ seat.done }

unfoldable pub update_session : ℕ → (SeatSession → SeatSession) → Act Unit
unfolding modify
update_session n f = modify λ seat. record seat { session_of = set n f seat.session_of }

unfoldable pub update_server : ℕ → (DisplayServer → DisplayServer) → Act Unit
unfolding modify
update_server n f = modify λ seat. record seat { server_of = set n f seat.server_of }

unfoldable pub ask : {A : Type 0} → Environment → (Answers → A) → Act A
ask env f seat = returned (f (env.answers seat.time)) (record seat { time = seat.time + 1 })

unfoldable pub session_at : ℕ → Act SeatSession
unfolding gets
session_at n = gets λ seat. seat.session_of n

unfoldable pub server_at : ℕ → Act DisplayServer
unfolding gets
server_at n = gets λ seat. seat.server_of n

-- A getter of a session: NULL gives `null`.
abbrev pub read_session : {A : Type 0} → A → (SeatSession → A) → Pointer → Act A
read_session null f p = if_null p (pure null) (λ n. do s ← session_at n; pure (f s))

abbrev pub is_greeter : SeatSession → Bool
is_greeter s = is_some s.greeter

abbrev pub same : Pointer → Pointer → Bool
same none none = true
same none (some n) = false
same (some m) none = false
same (some m) (some n) = m == n

-- `find_env_entry` looks for the entries `NAME=value`.
abbrev pub starts_entry : Str → Str → Bool
starts_entry name entry = str_eq (take (length name + 1) entry) (name ++ codes "=")

abbrev pub set_entry : Str → Str → List Str → List Str
set_entry name value [] = (name ++ (codes "=" ++ value)) ∷ []
set_entry name value (entry ∷ entries) =
    if starts_entry name entry
    then (name ++ (codes "=" ++ value)) ∷ entries
    else entry ∷ set_entry name value entries

unfoldable pub session_set_env : Str → Option Str → SeatSession → SeatSession
session_set_env name value s = if_null value s (λ v. record s { env = set_entry name v s.env })

abbrev find_entry : Str → List Str → Option Str
find_entry name [] = none
find_entry name (entry ∷ entries) =
    if starts_entry name entry then some entry else find_entry name entries

unfoldable pub session_get_env : Str → SeatSession → Option Str
session_get_env name s =
    if_null (find_entry name s.env) none (λ entry. some (drop (length name + 1) entry))

unfoldable pub session_set_display_server : Pointer → Pointer → Act Unit
session_set_display_server session display_server = if_null session nothing λ n.
    if_null display_server nothing λ d. do
      s ← session_at n
      if same s.display_server (some d) then nothing else do
        if_null s.display_server nothing (λ old. put_out (disconnected_session old n))
        update_session n (λ s'. record s' { display_server = some d })

module _ (env : Environment) where
  unfoldable pub session_lock : ℕ → Act Unit
  session_lock n = do
    s ← session_at n
    when (env.is_root && is_some s.session.login1_session_id) (put_out (locked n))

  unfoldable pub session_unlock : ℕ → Act Unit
  session_unlock n = do
    s ← session_at n
    when (env.is_root && is_some s.session.login1_session_id) (put_out (unlocked n))

  unfoldable pub session_activate : ℕ → Act Unit
  session_activate n = do
    s ← session_at n
    when (env.is_root && is_some s.session.login1_session_id) (put_out (activated n))

  -- What a display server sets on the session that is connected to it, its authority and terminal, is
  -- left out.
  unfoldable pub session_real_start : ℕ → Act Bool
  session_real_start n = do
    s ← session_at n
    if not (s.session.pid == 0) then pure false else do
      if_null s.display_server nothing (λ d. put_out (connected_session d n))
      results ← ask env (λ a. a.start_results)
      let (session, outputs) = Authentication.session_start results s.session
      update_session n (λ s'. record s' { session = session })
      put_out (session_did n outputs)
      pure (not (session.pid == 0 || session.pid == no_child))

  unfoldable pub greeter_session_start : ℕ → Act Bool
  greeter_session_start n = do
    pipes ← ask env (λ a. a.greeter_pipes)
    if_null pipes (pure false) λ (fds : Str × Str). do
      update_session n (session_set_env (codes "LIGHTDM_TO_SERVER_FD") (some fds.0))
      update_session n (session_set_env (codes "LIGHTDM_FROM_SERVER_FD") (some fds.1))
      session_real_start n

  unfoldable pub session_start : Pointer → Act Bool
  session_start session = if_null session (pure false) λ n. do
    s ← session_at n
    if is_greeter s then greeter_session_start n else session_real_start n

  -- `session_run` and `session_real_run` up to what is written to the child, and the session id that
  -- the child answers.
  unfoldable pub session_run : ℕ → Act Unit
  session_run n = do
    s ← session_at n
    if_null s.display_server nothing λ d.
        if s.session.command_run
          || not (session_get_is_authenticated s.session)
          || not (is_some s.argv)
          || s.session.pid == 0
        then nothing
        else do
          put_out (connected_session d n)
          update_session n (λ s'. record s' { session = record s'.session { command_run = true } })
          put_out (ran_session n)
          id ← ask env (λ a. a.login1_session_id)
          update_session n
              (λ s'. record s' { session = record s'.session { login1_session_id = id } })
