-- ===== src/SessionChild/Pipe.antt =====
-- What src/session.c and src/session-child.c write to each other: numbers in the order of the
-- machine, which is little-endian here, of 4 octets for an int or a gboolean, 8 for a gsize, 2 for a
-- guint16. Both files have the same `write_data` and `write_string`.
use lightdm.Base.{
  ℕ, zero, suc, ◌/◌, ◌%◌, true, false, List, [], ◌∷◌, ◌++◌, Option, none, some, length,
}
use lightdm.Session.Authentication.{
  Str, PamMessage, flag, SessionOutput, wrote_number, wrote_size, wrote_short, wrote_data,
  wrote_string, killed, terminated_login1, signalled_stopped, write_xauth,
}
use lightdm.XdmcpServer.State.{XAuthority}

-- `size` octets of a number.
unfoldable pub number_octets : ℕ → ℕ → List ℕ
number_octets zero value = []
number_octets (suc size) value = value % 256 ∷ number_octets size (value / 256)

-- NULL has the length -1.
unfoldable pub string_octets : Option Str → List ℕ
string_octets none = number_octets 4 4294967295
string_octets (some value) = number_octets 4 (length value) ++ value

-- The octets that a session writes to its child.
unfoldable pub pipe_octets : List SessionOutput → List ℕ
pipe_octets [] = []
pipe_octets (wrote_number value ∷ outputs) = number_octets 4 value ++ pipe_octets outputs
pipe_octets (wrote_size value ∷ outputs) = number_octets 8 value ++ pipe_octets outputs
pipe_octets (wrote_short value ∷ outputs) = number_octets 2 value ++ pipe_octets outputs
pipe_octets (wrote_data octets ∷ outputs) = octets ++ pipe_octets outputs
pipe_octets (wrote_string value ∷ outputs) = string_octets value ++ pipe_octets outputs
pipe_octets (killed pid ∷ outputs) = pipe_octets outputs
pipe_octets (terminated_login1 id ∷ outputs) = pipe_octets outputs
pipe_octets (signalled_stopped ∷ outputs) = pipe_octets outputs

unfoldable pub write_all : List Str → List SessionOutput
write_all [] = []
write_all (text ∷ texts) = wrote_string (some text) ∷ write_all texts

-- What `session_real_run` has to write: the values that it takes from the session, and the file names
-- that it makes.
pub record Command : Type 0 where
  pub log_filename : Option Str
  pub log_mode : ℕ
  pub tty : Option Str
  pub x_authority_filename : Option Str
  pub xdisplay : Option Str
  pub x_authority : Option XAuthority
  pub env : List Str
  pub argv : List Str

unfoldable pub write_command : Command → List SessionOutput
write_command command =
    wrote_string command.log_filename
    ∷ wrote_number command.log_mode
    ∷ wrote_string command.tty
    ∷ wrote_string command.x_authority_filename
    ∷ wrote_string command.xdisplay
    ∷ (write_xauth command.x_authority
        ++ wrote_size (length command.env)
          ∷ (write_all command.env ++ wrote_size (length command.argv) ∷ write_all command.argv))

-- What the child writes in `pam_conv_cb`, and at the end of the authentication.
unfoldable pub message_octets : List PamMessage → List ℕ
message_octets [] = []
message_octets (m ∷ messages) =
    number_octets 4 m.msg_style ++ (string_octets m.msg ++ message_octets messages)

unfoldable pub conversation_octets : Option Str → List PamMessage → List ℕ
conversation_octets username messages =
    string_octets username
    ++ (number_octets 4 (flag false)
        ++ (number_octets 4 (length messages) ++ message_octets messages))

unfoldable pub result_octets : Option Str → ℕ → Option Str → List ℕ
result_octets username result text =
    string_octets username
    ++ (number_octets 4 (flag true) ++ (number_octets 4 result ++ string_octets text))
