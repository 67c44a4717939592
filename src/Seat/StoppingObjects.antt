-- ===== src/Seat/StoppingObjects.antt =====
-- The operations of src/seat.c on single objects keep a seat in time to say that it has stopped.
use lightdm.Base.{
  ℕ, Bool, true, false, List, [], ◌∷◌, ◌++◌, Option, none, some, ◌&&◌, not, ◌≡◌, refl, if-either,
}
use lightdm.Session.Authentication.{Str}
use lightdm.Seat.State.{
  Seat, Environment, SeatSession, Pointer, DisplayServer, ServerChoice, no_server, kept_server,
  new_server, Act,
}
use lightdm.Seat.Objects.{
  session_set_display_server, session_lock, session_unlock, session_activate, session_real_start,
  greeter_session_start, session_start, session_run, read_session,
}
use lightdm.Seat.Create.{
  append_session, has, remember_server, allocate_server, take_server, wrap, run_script,
  create_session, create_user_session, create_guest_session, create_greeter_session,
  create_display_server, greeter_create_session_cb,
}
use lightdm.Seat.Switch.{run_optional_script}
use lightdm.Seat.Stop.{is_empty, is_done}
use lightdm.Seat.Keeps.{Keeps, keeps_rules, Keeps-modify, Keeps->>=, Keeps-gets, Keeps-pure}
use lightdm.Seat.Stopping.{InTime, in_time_rules}

pub Keeps-read_session :
    {A : Type 0} (null : A) (f : SeatSession → A) (p : Pointer)
    → Keeps InTime (read_session null f p)
Keeps-read_session null f p = search in_time_rules

pub Keeps-set_display_server :
    (session server : Pointer) → Keeps InTime (session_set_display_server session server)
unfolding session_set_display_server
Keeps-set_display_server session server = search in_time_rules depth 12

module _ (env : Environment) where
  pub Keeps-lock : (n : ℕ) → Keeps InTime (session_lock env n)
  unfolding session_lock
  Keeps-lock n = search in_time_rules depth 12

  pub Keeps-unlock : (n : ℕ) → Keeps InTime (session_unlock env n)
  unfolding session_unlock
  Keeps-unlock n = search in_time_rules depth 12

  pub Keeps-activate : (n : ℕ) → Keeps InTime (session_activate env n)
  unfolding session_activate
  Keeps-activate n = search in_time_rules depth 12

  pub Keeps-real_start : (n : ℕ) → Keeps InTime (session_real_start env n)
  unfolding session_real_start
  Keeps-real_start n = search in_time_rules depth 16

  pub Keeps-greeter_start : (n : ℕ) → Keeps InTime (greeter_session_start env n)
  unfolding greeter_session_start
  Keeps-greeter_start n = search (in_time_rules, Keeps-real_start) depth 16

  pub Keeps-session_start : (p : Pointer) → Keeps InTime (session_start env p)
  unfolding session_start
  Keeps-session_start p = search (in_time_rules, Keeps-real_start, Keeps-greeter_start) depth 12

  pub Keeps-session_run : (n : ℕ) → Keeps InTime (session_run env n)
  unfolding session_run
  Keeps-session_run n = search in_time_rules depth 20

  pub Keeps-run_script : (p : Pointer) (name : Str) → Keeps InTime (run_script env p name)
  unfolding run_script
  Keeps-run_script p name = search in_time_rules depth 12

  pub Keeps-optional_script :
      (p : Pointer) (name : Option Str) → Keeps InTime (run_optional_script env p name)
  unfolding run_optional_script
  Keeps-optional_script p none = search in_time_rules
  Keeps-optional_script p (some name) = Keeps-run_script p name

is_empty-append : (ns : List ℕ) (n : ℕ) → is_empty (ns ++ n ∷ []) ≡ false
unfolding is_empty
is_empty-append [] n = refl
is_empty-append (m ∷ ms) n = refl

not_yet :
    (stopping stopped servers : Bool) → (stopping && (not stopped && (servers && false))) ≡ false
not_yet true true servers = refl
not_yet true false true = refl
not_yet true false false = refl
not_yet false stopped servers = refl

not_with :
    (stopping stopped sessions : Bool) → (stopping && (not stopped && (false && sessions))) ≡ false
not_with true true sessions = refl
not_with true false sessions = refl
not_with false stopped sessions = refl

-- A seat with a session or a display server more has something to wait for.
pub Keeps-append_session : (s : SeatSession) → Keeps InTime (append_session s)
unfolding append_session is_done
Keeps-append_session s = Keeps->>= _ _ (Keeps-gets _) λ n.
    Keeps->>= _ _
      (Keeps-modify _ λ seat h. record {
        late = record { count = h.late.count; sound = h.late.sound };
        exact =
            rw (is_empty-append seat.sessions n)
              (not_yet seat.stopping seat.stopped (is_empty seat.display_servers));
      })
      (λ _. Keeps-pure n)

remember_lem : (d : ℕ) (seat : Seat) → InTime seat → InTime (remember_server d seat)
unfolding is_done
remember_lem d seat h = if-either InTime (has d seat.display_servers) h (record {
  late = record { count = h.late.count; sound = h.late.sound };
  exact =
      rw (is_empty-append seat.display_servers d)
        (not_with seat.stopping seat.stopped (is_empty seat.sessions));
})

allocate_lem :
    (server : DisplayServer) (seat : Seat) → InTime seat → InTime (allocate_server server seat)
unfolding is_done
allocate_lem server seat h = record {
  late = record { count = h.late.count; sound = h.late.sound };
  exact = h.exact;
}

pub Keeps-take_server : (choice : ServerChoice) → Keeps InTime (take_server choice)
unfolding take_server
Keeps-take_server no_server = search in_time_rules
Keeps-take_server (kept_server d) = search (in_time_rules, Keeps-modify, remember_lem) depth 12
Keeps-take_server (new_server server) =
    search (in_time_rules, Keeps-modify, remember_lem, allocate_lem) depth 12

module _ (env : Environment) where
  pub Keeps-create_server : (p : Pointer) → Keeps InTime (create_display_server env p)
  unfolding create_display_server
  Keeps-create_server p = search (in_time_rules, Keeps-take_server) depth 12

  pub Keeps-create_session : (b : Bool) → Keeps InTime (create_session env b)
  unfolding create_session
  Keeps-create_session b = search (in_time_rules, Keeps-append_session) depth 12

  pub Keeps-create_user : (name : Str) (b : Bool) → Keeps InTime (create_user_session env name b)
  unfolding create_user_session
  Keeps-create_user name b = search (in_time_rules, Keeps-create_session) depth 20

  Keeps-wrap :
      (argv : Option (List Str)) (wrapper : Option Str) (f : Option (List Str) → Act Pointer)
      → ((v : Option (List Str)) → Keeps InTime (f v))
      → Keeps InTime (wrap env argv wrapper f)
  Keeps-wrap argv none f h = h argv
  Keeps-wrap argv (some wrapper) f h = search (keeps_rules, h) depth 8

  pub Keeps-create_guest : (name : Option Str) → Keeps InTime (create_guest_session env name)
  unfolding create_guest_session
  Keeps-create_guest name = search (in_time_rules, Keeps-create_session, Keeps-wrap) depth 20

  pub Keeps-create_greeter : Keeps InTime (create_greeter_session env)
  unfolding create_greeter_session
  Keeps-create_greeter = search (in_time_rules, Keeps-append_session, Keeps-wrap) depth 20

  pub Keeps-greeter_creates : Keeps InTime (greeter_create_session_cb env)
  unfolding greeter_create_session_cb
  Keeps-greeter_creates =
      search (in_time_rules, Keeps-create_session, Keeps-read_session, Keeps-set_display_server)
        depth 20
