-- ===== src/Seat/Stop.antt =====
-- How sessions, display servers and the seat itself are told to stop (src/seat.c,
-- src/session.c, src/display-server.c). `call` runs what an object that is told to stop calls before
-- it returns.
use lightdm.Base.{ℕ, Bool, true, false, List, [], ◌∷◌, some, ◌&&◌, not, if◌then◌else◌}
use lightdm.Session.Authentication
use lightdm.Session.Authentication.{
  Str, SessionOutput, signalled_stopped, killed, wrote_number, wrote_size, wrote_short, wrote_data,
  wrote_string, terminated_login1,
}
use lightdm.Greeter.State.{greeter_stop}
use lightdm.Seat.State.{
  Pointer, SeatSession, session_did, stopped_server, seat_stopped, started_server, Seat,
  Environment, ServerStart, start_fails, start_stops, start_waits, start_ready, Call,
  session_stopped, server_stopped, server_ready, Act, ◌>>=◌, ◌>>◌, pure, gets, nothing, when,
  if_null,
}
use lightdm.Seat.Objects.{
  modify, put_out, update_session, update_server, ask, session_at, server_at,
}

-- What `session_stop` did last tells whether it called `stop` of the session's class, and whether
-- that emitted STOPPED.
abbrev pub emits_stopped : List SessionOutput → Bool
emits_stopped [] = false
emits_stopped (signalled_stopped ∷ outputs) = true
emits_stopped (killed pid ∷ outputs) = emits_stopped outputs
emits_stopped (wrote_number n ∷ outputs) = emits_stopped outputs
emits_stopped (wrote_size n ∷ outputs) = emits_stopped outputs
emits_stopped (wrote_short n ∷ outputs) = emits_stopped outputs
emits_stopped (wrote_data octets ∷ outputs) = emits_stopped outputs
emits_stopped (wrote_string text ∷ outputs) = emits_stopped outputs
emits_stopped (terminated_login1 id ∷ outputs) = emits_stopped outputs

abbrev pub calls_class : List SessionOutput → Bool
calls_class [] = false
calls_class (signalled_stopped ∷ outputs) = true
calls_class (killed pid ∷ outputs) = true
calls_class (wrote_number n ∷ outputs) = calls_class outputs
calls_class (wrote_size n ∷ outputs) = calls_class outputs
calls_class (wrote_short n ∷ outputs) = calls_class outputs
calls_class (wrote_data octets ∷ outputs) = calls_class outputs
calls_class (wrote_string text ∷ outputs) = calls_class outputs
calls_class (terminated_login1 id ∷ outputs) = calls_class outputs

-- `greeter_session_stop` stops the greeter first.
abbrev pub stop_greeter : List SessionOutput → SeatSession → SeatSession
stop_greeter outputs s =
    if calls_class outputs
    then if_null s.greeter s (λ greeter. record s { greeter = some (greeter_stop greeter) })
    else s

unfoldable pub is_empty : List ℕ → Bool
is_empty [] = true
is_empty (n ∷ ns) = false

unfoldable pub is_done : Seat → Bool
unfolding is_empty
is_done seat =
    seat.stopping && (not seat.stopped && (is_empty seat.display_servers && is_empty seat.sessions))

unfoldable pub check_stopped : Act Unit
unfolding is_done modify
check_stopped = modify λ seat.
    if is_done seat then record seat { stopped = true; done = seat_stopped ∷ seat.done } else seat

module _ (env : Environment) (call : Call → Act Unit) where
  -- The signals of the objects, where the seat's handlers are connected.
  unfoldable pub emit_session_stopped : ℕ → Act Unit
  emit_session_stopped n = do s ← session_at n; when s.connected (call (session_stopped n))

  unfoldable pub emit_server_stopped : ℕ → Act Unit
  emit_server_stopped d = do server ← server_at d; when server.connected (call (server_stopped d))

  unfoldable pub emit_server_ready : ℕ → Act Unit
  emit_server_ready d = do server ← server_at d; when server.connected (call (server_ready d))

  unfoldable pub session_stop : ℕ → Act Unit
  session_stop n = do
    s ← session_at n
    let (session, outputs) = Authentication.session_stop s.session
    update_session n (λ s'. stop_greeter outputs (record s' { session = session }))
    put_out (session_did n outputs)
    when (emits_stopped outputs) (emit_session_stopped n)

  unfoldable pub display_server_stop : Pointer → Act Unit
  display_server_stop display_server = if_null display_server nothing λ d. do
    server ← server_at d
    if server.stopping then nothing else do
      update_server d (λ server'. record server' { stopping = true })
      put_out (stopped_server d)
      at_once ← ask env (λ a. a.stops_at_once)
      when at_once (emit_server_stopped d)

  -- The bodies of the two loops of `seat_real_stop`.
  unfoldable pub tell_server : ℕ → Act Unit
  tell_server d = do server ← server_at d; when (not server.stopping) (display_server_stop (some d))

  unfoldable pub tell_session : ℕ → Act Unit
  tell_session n = do s ← session_at n; when (not s.session.stopping) (session_stop n)

  unfoldable pub stop_servers : List ℕ → Act Unit
  stop_servers [] = nothing
  stop_servers (d ∷ ds) = do tell_server d; stop_servers ds

  unfoldable pub stop_sessions : List ℕ → Act Unit
  stop_sessions [] = nothing
  stop_sessions (n ∷ ns) = do tell_session n; stop_sessions ns

  unfoldable pub stop_all : Act Unit
  stop_all = do
    display_servers ← gets (λ seat. seat.display_servers)
    stop_servers display_servers
    sessions ← gets (λ seat. seat.sessions)
    stop_sessions sessions

  unfoldable pub seat_real_stop : Act Unit
  seat_real_stop = do
    check_stopped
    stopped ← gets (λ seat. seat.stopped)
    when (not stopped) stop_all

  unfoldable pub seat_stop : Act Unit
  seat_stop = do
    stopping ← gets (λ seat. seat.stopping)
    when (not stopping) do modify (λ seat. record seat { stopping = true }); seat_real_stop

  abbrev pub react : ℕ → ServerStart → Act Bool
  react d start_fails = pure false
  react d start_stops = do emit_server_stopped d; pure false
  react d start_waits = pure true
  react d start_ready = do
    update_server d (λ server. record server { is_ready = true })
    emit_server_ready d
    pure true

  unfoldable pub display_server_start : Pointer → Act Bool
  display_server_start display_server =
      if_null display_server (pure false)
        λ d. do put_out (started_server d); result ← ask env (λ a. a.server_start); react d result
