-- ===== src/SessionChild/RoundTrip.antt =====
-- The configuration and the command of a session reach the session child (src/session.c,
-- src/session-child.c).
use lightdm.Base.{
  ℕ, ◌<◌, ◌≡◌, refl, ap, subst, ◌∙◌, Bool, true, false, List, [], ◌∷◌, ◌++◌, append_assoc, Option,
  none, some, length, All, arith, map, leb, ltb, lt→ltb, if-true, if-either,
}
use lightdm.Session.Authentication.{Str, Session, write_xauth, write_configuration, flag}
use lightdm.XdmcpServer.State.{XAuthority}
use lightdm.SessionChild.Pipe.{
  pipe_octets, number_octets, string_octets, write_all, Command, write_command,
}
use lightdm.SessionChild.Reader.{
  pipe_string, read_line, read_xauth, read_strings, Configuration, read_configuration, is_set,
}
use lightdm.SessionChild.Child.{Launch, read_launch, read_log_mode, read_again}
use lightdm.SessionChild.Fields.{
  read_number-octets, Fits, IsLine, IsLineOrNull, Reads, Reads-number, Reads-size, Reads-short,
  Reads-data, Reads-string, Reads-pure, Reads->>=, Reads-last,
}

-- An X authority that the pipe can carry.
abbrev pub IsAuthority : XAuthority → Type 0
IsAuthority x =
    IsLine x.authorization_name
    × Fits 2 x.family
    × Fits 8 (length x.address)
    × IsLine x.number
    × Fits 8 (length x.authorization_data)

abbrev pub IsAuthorityOrNull : Option XAuthority → Type 0
IsAuthorityOrNull none = Unit
IsAuthorityOrNull (some x) = IsAuthority x

pub Reads-write_xauth :
    (x : Option XAuthority) → IsAuthorityOrNull x → Reads (write_xauth x) read_xauth x
unfolding write_xauth read_xauth
Reads-write_xauth none h = Reads-string _ none tt (Reads-pure none)
Reads-write_xauth (some x) (name, family, address, number, octets) =
    Reads-string _ (some x.authorization_name) name (
      Reads-short _ x.family family (
        Reads-size _ (length x.address) address (
          Reads-data _ x.address (
            Reads-string _ (some x.number) number (
              Reads-size _ (length x.authorization_data) octets
                (Reads-data _ x.authorization_data (Reads-pure (some x))))))))

pub Reads-write_all :
    (texts : List Str)
    → All IsLine texts
    → Reads (write_all texts) (read_strings (length texts)) (map some texts)
unfolding write_all read_strings
Reads-write_all [] h = Reads-pure []
Reads-write_all (text ∷ texts) (h, hs) =
    Reads-string _ (some text) h (
      Reads-last (read_strings (length texts)) (λ read. some text ∷ read)
        (Reads-write_all texts hs))

-- The texts of a session that its child is sent can be sent.
pub record IsSendable (session : Session) : Type 0 where
  pub service : IsLineOrNull session.pam_service
  pub username : IsLineOrNull session.username
  pub tty : IsLineOrNull session.tty
  pub remote_host_name : IsLineOrNull session.remote_host_name
  pub xdisplay : IsLineOrNull session.xdisplay
  pub x_authority : IsAuthorityOrNull session.x_authority

abbrev configured : Session → Bool → Bool → Configuration
configured session do_authenticate is_interactive = record {
  service = session.pam_service;
  username = session.username;
  do_authenticate = do_authenticate;
  is_interactive = is_interactive;
  tty = session.tty;
  remote_host_name = session.remote_host_name;
  xdisplay = session.xdisplay;
  x_authority = session.x_authority;
}

abbrev pub configuration_of : Session → Configuration
configuration_of session = configured session session.do_authenticate session.is_interactive

flag-Fits : (b : Bool) → Fits 4 (flag b)
flag-Fits true = omega arith
flag-Fits false = omega arith

set_flag : (b : Bool) → is_set (flag b) ≡ b
set_flag true = refl
set_flag false = refl

Reads-configuration :
    (session : Session)
    → IsSendable session
    → Reads (write_configuration session) read_configuration (
      3,
      configured session
          (is_set (flag session.do_authenticate))
          (is_set (flag session.is_interactive)),
    )
unfolding write_configuration read_configuration
Reads-configuration session h = Reads-number _ 3 (omega arith) (
    Reads-string _ session.pam_service h.service (
      Reads-string _ session.username h.username (
        Reads-number _ (flag session.do_authenticate) (flag-Fits session.do_authenticate) (
          Reads-number _ (flag session.is_interactive) (flag-Fits session.is_interactive) (
            Reads-string _ none tt (
              Reads-string _ session.tty h.tty (
                Reads-string _ session.remote_host_name h.remote_host_name (
                  Reads-string _ session.xdisplay h.xdisplay (
                    Reads-last read_xauth _
                      (Reads-write_xauth session.x_authority h.x_authority))))))))))

-- The session child reads the configuration of a session as the session has it, and leaves what is
-- written behind it: the texts have no NUL and fewer than 65536 octets.
pub configuration_read :
    (session : Session) (rest : List ℕ)
    → IsSendable session
    → read_configuration (pipe_octets (write_configuration session) ++ rest)
      ≡ some ((3, configuration_of session), rest)
configuration_read session rest h =
    subst
      (λ c.
        read_configuration (pipe_octets (write_configuration session) ++ rest)
        ≡ some ((3, c), rest))
      (ap (λ b. configured session b (is_set (flag session.is_interactive)))
          (set_flag session.do_authenticate)
        ∙ ap (configured session session.do_authenticate) (set_flag session.is_interactive))
      ((Reads-configuration session h).reads rest)

-- The texts of a command that the child is sent can be sent.
pub record IsCommand (command : Command) : Type 0 where
  pub log_filename : IsLineOrNull command.log_filename
  pub log_mode : command.log_mode < 4294967296
  pub tty : IsLineOrNull command.tty
  pub x_authority_filename : IsLineOrNull command.x_authority_filename
  pub xdisplay : IsLineOrNull command.xdisplay
  pub x_authority : IsAuthorityOrNull command.x_authority
  pub env : All IsLine command.env
  pub env_length : Fits 8 (length command.env)
  pub argv : All IsLine command.argv
  pub argv_length : Fits 8 (length command.argv)

abbrev pub launch_of : Command → Launch
launch_of command = record {
  log_filename = command.log_filename;
  log_mode = command.log_mode;
  tty = command.tty;
  x_authority_filename = command.x_authority_filename;
  xdisplay = command.xdisplay;
  x_authority = command.x_authority;
  env = map some command.env;
  argv = map some command.argv;
}

Reads-command :
    (command : Command) (configuration : Configuration)
    → IsCommand command
    → Reads (write_command command) (read_launch 3 configuration) (launch_of command)
unfolding write_command read_launch read_log_mode read_again
Reads-command command configuration h = Reads-string _ command.log_filename h.log_filename (
    Reads-number _ command.log_mode (omega (arith, h.log_mode)) (
      Reads-string _ command.tty h.tty (
        Reads-string _ command.x_authority_filename h.x_authority_filename (
          Reads-string _ command.xdisplay h.xdisplay (
            Reads->>= read_xauth _ (Reads-write_xauth command.x_authority h.x_authority) (
              Reads-size _ (length command.env) h.env_length (
                Reads->>= (read_strings (length command.env)) _ (Reads-write_all command.env h.env)
                  (Reads-size _ (length command.argv) h.argv_length (
                    Reads-last (read_strings (length command.argv)) _
                      (Reads-write_all command.argv h.argv))))))))))

-- The session child of this version reads the command of a session as it was sent, whatever
-- configuration it had before, and leaves what is written behind it: no text of the command, of its
-- environment, its names and its X authority has a NUL, each has fewer than 65536 octets, and the
-- numbers have the bits that the pipe gives them.
pub command_read :
    (command : Command) (configuration : Configuration) (rest : List ℕ)
    → IsCommand command
    → read_launch 3 configuration (pipe_octets (write_command command) ++ rest)
      ≡ some (launch_of command, rest)
command_read command configuration rest h = (Reads-command command configuration h).reads rest

-- A text of 65536 octets or more, but fewer than the 2^31 of a C int, is written by one side but
-- refused by the other, which takes it for NULL and its octets for what comes next.
pub pipe_string-long :
    (text rest : List ℕ)
    → 65535 < length text
    → length text < 2147483648
    → pipe_string (string_octets (some text) ++ rest) ≡ some (none, text ++ rest)
unfolding pipe_string string_octets number_octets read_line
pipe_string-long text rest long short =
    rw
      (
        append_assoc (number_octets 4 (length text)) text rest,
        read_number-octets 4 (length text) (text ++ rest) (omega (arith, short)),
      )
      (if-either (λ o. o ≡ some (none, text ++ rest)) (leb 2147483648 (length text)) refl
        (if-true (ltb 65535 (length text)) _ _ (lt→ltb 65535 (length text) long)))
