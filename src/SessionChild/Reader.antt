-- ===== src/SessionChild/Reader.antt =====
-- What src/session-child.c and src/session.c read from each other. A read gives all the octets that
-- it asks for where so many have been written, since it waits for them; where fewer are left at the
-- end of the file, what is used then was not read, and the result is `none`. Both files have the
-- same readers.
use lightdm.Base.{
  ℕ, zero, suc, ◌+◌, ◌*◌, Bool, not, List, [], ◌∷◌, Option, none, some, ltb, leb, ◌==◌, length,
  take, drop, if◌then◌else◌,
}
use lightdm.Session.Authentication.{Str}
use lightdm.Xdmcp.Reader.{c_string}
use lightdm.XdmcpServer.State.{XAuthority}
use lightdm.XAuthorityFile.Records.{Read, and_then, ◌>>=◌, pure}

unfoldable pub octets_value : List ℕ → ℕ
octets_value [] = 0
octets_value (octet ∷ octets) = octet + 256 * octets_value octets

-- `read_data`, or `read_from_child`.
unfoldable pub read_octets : ℕ → Read (List ℕ)
read_octets count input =
    if ltb (length input) count then none else some (take count input, drop count input)

unfoldable pub read_number : ℕ → Read ℕ
read_number size = do octets ← read_octets size; pure (octets_value octets)

-- The rest of the function, behind the length.
unfoldable pub read_line : ℕ → Read (Option Str)
read_line length input =
    if leb 2147483648 length
    then some (none, input)
    else if ltb 65535 length
    then some (none, input)
    else and_then (read_octets length input) (λ value. pure (some (c_string value)))

-- At the end of the file the string is NULL.
unfoldable pub pipe_string : Read (Option Str)
pipe_string [] = some (none, [])
pipe_string (octet ∷ input) = (do length ← read_number 4; read_line length) (octet ∷ input)

unfoldable pub read_xauth : Read (Option XAuthority)
read_xauth = do
  name ← pipe_string
  elim name [
    | none ↦ pure none
    | some authorization_name ↦ do
      family ← read_number 2
      address_length ← read_number 8
      address ← read_octets address_length
      number ← pipe_string
      data_length ← read_number 8
      octets ← read_octets data_length
      pure (
          some record {
            family = family;
            address = address;
            number = elim number [ none ↦ [] | some text ↦ text ];
            authorization_name = authorization_name;
            authorization_data = octets;
          })
  ]

-- The configuration behind the version number.
pub record Configuration : Type 0 where
  pub service : Option Str
  pub username : Option Str
  pub do_authenticate : Bool
  pub is_interactive : Bool
  pub tty : Option Str
  pub remote_host_name : Option Str
  pub xdisplay : Option Str
  pub x_authority : Option XAuthority

abbrev pub is_set : ℕ → Bool
is_set value = not (value == 0)

unfoldable pub read_configuration : Read (ℕ × Configuration)
read_configuration = do
  version ← read_number 4
  service ← pipe_string
  username ← pipe_string
  do_authenticate ← read_number 4
  is_interactive ← read_number 4
  unused_class ← pipe_string
  tty ← pipe_string
  remote_host_name ← pipe_string
  xdisplay ← pipe_string
  x_authority ← read_xauth
  pure (
    version,
    record {
      service = service;
      username = username;
      do_authenticate = is_set do_authenticate;
      is_interactive = is_set is_interactive;
      tty = tty;
      remote_host_name = remote_host_name;
      xdisplay = xdisplay;
      x_authority = x_authority;
    },
  )

-- A string of the environment or the command that is NULL ends the list for those who use it.
unfoldable pub read_strings : ℕ → Read (List (Option Str))
read_strings zero = pure []
read_strings (suc n) = do text ← pipe_string; texts ← read_strings n; pure (text ∷ texts)
