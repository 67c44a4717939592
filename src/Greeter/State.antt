-- ===== src/Greeter/State.antt =====
-- The state of a greeter and what it does to the outside (src/greeter.c).
use lightdm.Base.{ℕ, Bool, false, List, [], ◌∷◌, ◌++◌, Option, none, some, if◌then◌else◌, str_eq}
use lightdm.Session.Authentication.{Str, Session, SessionOutput, StartResults}

-- `read_buffer` is the front of the C buffer that `n_read` covers. `listening` tells whether the
-- greeter's handlers are connected to the signals of its authentication session.
pub record Greeter : Type 0 where
  pub pam_service : Option Str
  pub autologin_pam_service : Option Str
  pub read_buffer : List ℕ
  pub hints : List (Str × Str)
  pub authentication_sequence_number : ℕ
  pub remote_session : Option Str
  pub active_username : Option Str
  pub authentication_session : Option Session
  pub listening : Bool
  pub api_version : ℕ
  pub resettable : Bool
  pub start_session : Bool
  pub allow_guest : Bool
  pub guest_account_authenticated : Bool

pub data SessionType : Type 0 where
  session_type_local : SessionType
  session_type_remote : SessionType

-- What a greeter does: a message to the greeter process, what its session does, signals, and a
-- language set on a user.
pub data GreeterOutput : Type 0 where
  sent_message : List ℕ → GreeterOutput
  session_did : List SessionOutput → GreeterOutput
  notified_active_username : GreeterOutput
  emitted_connected : GreeterOutput
  emitted_disconnected : GreeterOutput
  emitted_create_session : GreeterOutput
  emitted_start_session : SessionType → Option Str → GreeterOutput
  set_user_language : Option Str → Str → GreeterOutput

-- What the rest of the daemon and the system answer while one event is handled: the session that
-- CREATE_SESSION gives and how it starts, whether START_SESSION takes the authentication session
-- and what it returns, the users that exist, the PAM services in the files of remote sessions, and
-- the shared directories of users.
pub record World : Type 0 where
  pub version : Str
  pub created : Option Session
  pub start_results : StartResults
  pub takes : Bool
  pub started : Bool
  pub user_exists : Str → Bool
  pub remote_service : Str → Option Str
  pub shared_dir : Str → Option Str

-- A piece of code that changes a greeter and does things, in order.
abbrev pub Act : Type 0
Act = Greeter → Greeter × List GreeterOutput

infixl 5 ◌>>◌
abbrev pub ◌>>◌ : Act → Act → Act
◌>>◌ f g greeter =
    let (greeter', done) = f greeter in
    let (greeter'', then_done) = g greeter' in (greeter'', done ++ then_done)

abbrev pub do_nothing : Act
do_nothing greeter = (greeter, [])

abbrev pub put_out : GreeterOutput → Act
put_out output greeter = (greeter, output ∷ [])

abbrev pub modify : (Greeter → Greeter) → Act
modify f greeter = (f greeter, [])

-- A test on whether a pointer is NULL.
abbrev pub if_null {ℓ} : {A : Type ℓ} → Option A → Act → (A → Act) → Act
if_null none f g = f
if_null (some a) f g = g a

-- `g_hash_table_lookup` on the hints.
unfoldable pub lookup : Str → List (Str × Str) → Option Str
lookup key [] = none
lookup key ((name, value) ∷ hints) = if str_eq name key then some value else lookup key hints

-- `g_hash_table_insert`: a key that is there keeps its place.
unfoldable pub insert : Str → Str → List (Str × Str) → List (Str × Str)
insert key new [] = (key, new) ∷ []
insert key new ((name, value) ∷ hints) =
    if str_eq name key then (name, new) ∷ hints else (name, value) ∷ insert key new hints

unfoldable pub greeter_set_hint : Str → Str → Greeter → Greeter
greeter_set_hint name value greeter = record greeter { hints = insert name value greeter.hints }

unfoldable pub greeter_clear_hints : Greeter → Greeter
greeter_clear_hints greeter = record greeter { hints = [] }

unfoldable pub greeter_set_pam_services : Option Str → Option Str → Greeter → Greeter
greeter_set_pam_services service autologin greeter = record greeter {
  pam_service = service;
  autologin_pam_service = autologin;
}

unfoldable pub greeter_set_allow_guest : Bool → Greeter → Greeter
greeter_set_allow_guest allow greeter = record greeter { allow_guest = allow }

unfoldable pub greeter_stop : Greeter → Greeter
greeter_stop greeter = record greeter { listening = false }

-- The state without the session; the session is the result of the C function.
unfoldable pub greeter_take_authentication_session : Greeter → Greeter
greeter_take_authentication_session greeter = record greeter {
  authentication_session = none;
  listening = false;
}

-- `greeter_init` on zeroed memory.
abbrev pub new_greeter : Greeter
new_greeter = record {
  pam_service = none;
  autologin_pam_service = none;
  read_buffer = [];
  hints = [];
  authentication_sequence_number = 0;
  remote_session = none;
  active_username = none;
  authentication_session = none;
  listening = false;
  api_version = 0;
  resettable = false;
  start_session = false;
  allow_guest = false;
  guest_account_authenticated = false;
}
