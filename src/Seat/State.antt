-- ===== src/Seat/State.antt =====
-- The objects behind a seat (src/seat.c): its own fields, its sessions and its display servers.
-- Objects are numbers, and the seat's record holds the objects under their numbers; a pointer is an
-- `Option`, with NULL as `none`.
use lightdm.Base.{ℕ, Bool, List, Option, none, some, if◌then◌else◌}
use lightdm.Session.Authentication.{Str, Session, SessionOutput, StartResults}
use lightdm.Greeter.State.{Greeter}

abbrev pub Pointer : Type 0
Pointer = Option ℕ

-- What is read of a file of a session (src/session-config.c).
pub record SessionConfig : Type 0 where
  pub session_type : Str
  pub command : Str
  pub desktop_names : Option (List Str)

-- The handler that the seat has connected to AUTHENTICATION_COMPLETE of a session.
pub data Handler : Type 0 where
  no_handler : Handler
  autostart : Handler
  switch : Handler

-- A session of the seat: `greeter` is NULL unless it is a greeter session, and `connected` tells
-- whether `session_stopped_cb` is connected to its signal STOPPED.
pub record SeatSession : Type 0 where
  pub session : Session
  pub greeter : Option Greeter
  pub display_server : Pointer
  pub config : Option SessionConfig
  pub env : List Str
  pub argv : Option (List Str)
  pub handler : Handler
  pub connected : Bool

-- A display server (src/display-server.c); `connected` tells whether the seat's callbacks are.
pub record DisplayServer : Type 0 where
  pub session_type : Str
  pub parent : Pointer
  pub can_share : Bool
  pub is_ready : Bool
  pub stopping : Bool
  pub connected : Bool

-- What the seat does, apart from the changes of its own state.
pub data SeatAction : Type 0 where
  ran_script : Str → Pointer → SeatAction
  session_did : ℕ → List SessionOutput → SeatAction
  ran_session : ℕ → SeatAction
  locked : ℕ → SeatAction
  unlocked : ℕ → SeatAction
  activated : ℕ → SeatAction
  connected_session : ℕ → ℕ → SeatAction
  disconnected_session : ℕ → ℕ → SeatAction
  queued_idle : ℕ → SeatAction
  reset_greeter : ℕ → SeatAction
  class_set_active : Pointer → SeatAction
  class_set_next : Pointer → SeatAction
  class_setup : SeatAction
  emitted_upstart : Str → SeatAction
  started_server : ℕ → SeatAction
  stopped_server : ℕ → SeatAction
  set_xsession : Str → Option Str → SeatAction
  session_added : ℕ → SeatAction
  running_user_session : ℕ → SeatAction
  session_removed : ℕ → SeatAction

-- What is seen of a seat: what it did, and its signal STOPPED.
pub data SeatOutput : Type 0 where
  did : SeatAction → SeatOutput
  seat_stopped : SeatOutput

-- `SeatPrivate`, the objects, the time (how often the system was asked) and what was done, the
-- latest first.
pub record Seat : Type 0 where
  pub name : Str
  pub properties : List (Str × Str)
  pub supports_multi_session : Bool
  pub share_display_server : Bool
  pub display_servers : List ℕ
  pub sessions : List ℕ
  pub active_session : Pointer
  pub next_session : Pointer
  pub session_to_activate : Pointer
  pub started : Bool
  pub stopping : Bool
  pub stopped : Bool
  pub replacement_greeter : Pointer
  pub session_of : ℕ → SeatSession
  pub server_of : ℕ → DisplayServer
  pub created : ℕ
  pub time : ℕ
  pub done : List SeatOutput

-- A user of the accounts service.
pub record Account : Type 0 where
  pub user_name : Str
  pub xsession : Option Str
  pub language : Option Str

-- What `create_display_server` of the seat's class gives: NULL, an object that it keeps, or a new
-- one.
pub data ServerChoice : Type 0 where
  no_server : ServerChoice
  kept_server : ℕ → ServerChoice
  new_server : DisplayServer → ServerChoice

-- What `start` of a display server's class does: it fails, with or without STOPPED; it returns TRUE
-- and READY comes later; or it emits READY first, as the base class does.
pub data ServerStart : Type 0 where
  start_fails : ServerStart
  start_stops : ServerStart
  start_waits : ServerStart
  start_ready : ServerStart

-- The answers of the system at one time. `greeter_pipes` are the numbers of two descriptors.
-- `stops_at_once` tells whether a display server emits STOPPED while it is told to stop.
pub record Answers : Type 0 where
  pub script_succeeds : Bool
  pub greeter_pipes : Option (Str × Str)
  pub start_results : StartResults
  pub login1_session_id : Option Str
  pub server : ServerChoice
  pub server_start : ServerStart
  pub stops_at_once : Bool
  pub active : Pointer

-- The system: GLib's lookups, the configuration (section LightDM), the files of sessions, the
-- accounts, and its answers over time.
pub record Environment : Type 0 where
  pub is_root : Bool
  pub getenv : Str → Option Str
  pub find_program : Str → Option Str
  pub parse_argv : Str → Option (List Str)
  pub build_filename : Str → Str → Str
  pub config_string : Str → Option Str
  pub wayland_sessions_dir : Str
  pub read_config : Str → Str → Option SessionConfig
  pub get_user : Str → Option Account
  pub current_user : Str
  pub guest_installed : Bool
  pub answers : ℕ → Answers

-- What is called from inside an object that the seat called, and what calls itself through others:
-- the handlers of STOPPED of a session and of a display server and of READY, and `start_session`.
pub data Call : Type 0 where
  session_stopped : ℕ → Call
  server_stopped : ℕ → Call
  server_ready : ℕ → Call
  starts_session : Pointer → Call

-- A call returns, crashes on a NULL that is read, or is nested deeper than the model follows.
pub data Outcome (A : Type 0) : Type 0 where
  returned : A → Seat → Outcome A
  crashed : Outcome A
  too_deep : Outcome A

abbrev pub Act : Type 0 → Type 0
Act A = Seat → Outcome A

abbrev pub continue : {A B : Type 0} → Outcome A → (A → Act B) → Outcome B
continue (returned a seat) f = f a seat
continue crashed f = crashed
continue too_deep f = too_deep

infixl 10 ◌>>=◌ ◌>>◌
unfoldable pub ◌>>=◌ : {A B : Type 0} → Act A → (A → Act B) → Act B
◌>>=◌ m f seat = continue (m seat) f

abbrev pub ◌>>◌ : {A B : Type 0} → Act A → Act B → Act B
m >> n = m >>= λ _. n

unfoldable pub pure : {A : Type 0} → A → Act A
pure a seat = returned a seat

unfoldable pub crash : {A : Type 0} → Act A
crash seat = crashed

unfoldable pub gets : {A : Type 0} → (Seat → A) → Act A
gets f seat = returned (f seat) seat

abbrev pub nothing : Act Unit
nothing = pure tt

abbrev pub when : Bool → Act Unit → Act Unit
when b act = if b then act else nothing

abbrev pub if_null {ℓ κ} : {A : Type ℓ} {B : Type κ} → Option A → B → (A → B) → B
if_null none x f = x
if_null (some a) x f = f a
