-- ===== src/GreeterLibrary/State.antt =====
-- The state of a greeter as the library keeps it (liblightdm-gobject/greeter.c).
use lightdm.Base.{ℕ, Bool, false, List, [], Option, none}
use lightdm.Session.Authentication.{Str}

-- `LightDMGreeterPrivate`. A request is known by a number; `autologin_timer` is the seconds of the
-- timer, if one is set; `read_buffer` is the front of the C buffer that `n_read` covers.
pub record LightdmGreeter : Type 0 where
  pub api_version : ℕ
  pub resettable : Bool
  pub read_buffer : List ℕ
  pub n_responses_waiting : ℕ
  pub responses_received : List Str
  pub connected : Bool
  pub connect_requests : List ℕ
  pub start_session_requests : List ℕ
  pub ensure_shared_data_dir_requests : List ℕ
  pub hints : List (Str × Str)
  pub autologin_timer : Option ℕ
  pub authentication_user : Option Str
  pub in_authentication : Bool
  pub is_authenticated : Bool
  pub authenticate_sequence_number : ℕ
  pub cancelling_authentication : Bool

pub data PromptType : Type 0 where
  secret : PromptType
  question : PromptType

pub data MessageType : Type 0 where
  info : MessageType
  error : MessageType

-- How a request ends: TRUE, a directory, or an error.
pub data Completion : Type 0 where
  succeeded : Completion
  session_failed : ℕ → Completion
  found_dir : Str → Completion
  invalid_user : Completion

-- What the library does: a message to the daemon, its signals, the end of a request.
pub data Output : Type 0 where
  wrote : List ℕ → Output
  show_prompt : Str → PromptType → Output
  show_message : Str → MessageType → Output
  authentication_complete : Output
  signalled_idle : Output
  signalled_reset : Output
  completed : ℕ → Completion → Output

-- `lightdm_greeter_init` on zeroed memory.
abbrev pub new_lightdm_greeter : LightdmGreeter
new_lightdm_greeter = record {
  api_version = 0;
  resettable = false;
  read_buffer = [];
  n_responses_waiting = 0;
  responses_received = [];
  connected = false;
  connect_requests = [];
  start_session_requests = [];
  ensure_shared_data_dir_requests = [];
  hints = [];
  autologin_timer = none;
  authentication_user = none;
  in_authentication = false;
  is_authenticated = false;
  authenticate_sequence_number = 0;
  cancelling_authentication = false;
}
