-- ===== src/XdmcpServer/Handlers.antt =====
-- The answers of the server to each packet (src/xdmcp-server.c). A handler returns the new state
-- and the packets that it sends; `send_packet` puts these on the wire. A handler that draws random
-- numbers is given the results that `g_random_int` will have, and returns `none` if it needs more.
use lightdm.Base.{
  ◌>>=◌, is_some, ℕ, zero, suc, ◌+◌, ◌*◌, ◌%◌, Bool, true, false, not, ◌&&◌, List, [], ◌∷◌, ◌++◌,
  Option, none, some, if◌then◌else◌, codes, str_eq, decimal,
}
use lightdm.Xdmcp.Packet.{
  Str, XdmcpData, XdmcpConnection, XdmcpPacket, willing, unwilling, accept, decline,
}
use lightdm.XdmcpServer.State.{
  InetAddresses, XdmAuth, XAuthority, XdmcpSession, XdmcpServer, xdm_authentication,
  xdm_authorization, mit_magic_cookie, pick_id,
}
use lightdm.XdmcpServer.Address.{xauth_family_local, connection_to_address}
use lightdm.XdmcpServer.Auth.{decode_key, check_authentication, requires_authentication}

abbrev pub get_authentication_name : Option Str → Str
get_authentication_name none = []
get_authentication_name (some key) = xdm_authentication

-- The loop of `handle_query`, with the name chosen before it.
unfoldable pub match_name : Option Str → List Str → Option Str → Option Str
match_name key [] chosen = chosen
match_name key (name ∷ names) chosen =
    if str_eq name (get_authentication_name key) && is_some key
    then some name
    else match_name key names chosen

abbrev pub no_matching : Str
no_matching = codes "No matching authentication"

abbrev pub is_empty {ℓ} : {A : Type ℓ} → List A → Bool
is_empty [] = true
is_empty (x ∷ xs) = false

unfoldable pub handle_query : {I : Type 0} → XdmcpServer I → List Str → XdmcpPacket
unfolding match_name
handle_query server names =
    let chosen = if is_empty names && not (is_some server.key) then some [] else none in
    elim (match_name server.key names chosen) [
      | some name ↦ willing name server.hostname server.status
      | none ↦
          unwilling server.hostname
            (if is_some server.key then requires_authentication else no_matching)
    ]

-- `port = port << 8 | octet` on a guint16.
unfoldable pub port_of : ℕ → List ℕ → ℕ
port_of port [] = port
port_of port (b ∷ bs) = port_of ((port * 256 + b) % 65536) bs

-- `take_octets n random`: `n` results of `g_random_int () & 0xFF`, and the numbers left.
unfoldable pub take_octets : ℕ → List ℕ → Option (List ℕ × List ℕ)
take_octets zero random = some ([], random)
take_octets (suc n) [] = none
take_octets (suc n) (r ∷ random) = elim (take_octets n random) [
  | none ↦ none
  | some (bs, rest) ↦ some (r % 256 ∷ bs, rest)
]

-- What an accepted Request is answered with, and what the session keeps.
pub record Authorization : Type 0 where
  pub name : Str
  pub sent : List ℕ
  pub kept : List ℕ

unfoldable pub authorize : XdmAuth → Option Str → List ℕ → List ℕ → Option (Authorization × List ℕ)
unfolding take_octets
authorize xdm (some key) rho random = elim (take_octets 7 random) [
  | none ↦ none
  | some (bs, rest) ↦ some (
    record {
      name = xdm_authorization;
      sent = xdm.wrap (0 ∷ bs) (decode_key key);
      kept = xdm.decrement_key rho ++ (0 ∷ bs);
    },
    rest,
  )
]
authorize xdm none rho random = elim (take_octets 16 random) [
  | none ↦ none
  | some (cookie, rest) ↦
      some (record { name = mit_magic_cookie; sent = cookie; kept = cookie }, rest)
]

abbrev pub text_or_empty : Option Str → Str
text_or_empty none = []
text_or_empty (some s) = s

abbrev pub no_address : Str
no_address = codes "No valid address found"

-- The decline status, once the address has been looked for.
abbrev pub final_status : Option Str → Option XdmcpConnection → Option Str
final_status (some status) connection = some status
final_status none (some connection) = none
final_status none none = some no_address

-- A session as `add_session` and `handle_request` leave it.
abbrev pub new_session : {I : Type 0} → ℕ → I → XAuthority → ℕ → XdmcpSession I
new_session id address authority number = record {
  id = id;
  address = address;
  authority = authority;
  display_number = number;
  display_class = [];
  started = false;
  timer = true;
}

module _ (inet : InetAddresses) (xdm : XdmAuth) (own_hostname : Str) where
  open inet use {InetAddress, new_from_bytes, is_loopback}

  abbrev pub Server : Type 0
  Server = XdmcpServer InetAddress

  unfoldable pub authority_for : InetAddress → XdmcpConnection → ℕ → Authorization → XAuthority
  authority_for address connection number a = record {
    family = if is_loopback address then xauth_family_local else connection.type;
    address = if is_loopback address then own_hostname else connection.address;
    number = decimal number;
    authorization_name = a.name;
    authorization_data = a.kept;
  }

  -- `add_session` and the fields that `handle_request` sets behind it. The connection that was
  -- chosen has an address.
  unfoldable pub add_session :
      Server → XdmcpConnection → ℕ → Authorization → List ℕ → Option (Server × ℕ)
  add_session server connection number a random = do
    id ← pick_id random server.sessions
    address ← connection_to_address inet connection
    let session = new_session id address (authority_for address connection number a) number
    some (record server { sessions = session ∷ server.sessions }, id)

  -- `connection` is the result of `choose_connection`.
  unfoldable pub handle_request :
      Server
      → Option XdmcpConnection
      → ℕ
      → Str
      → XdmcpData
      → List Str
      → List ℕ
      → Option (Server × XdmcpPacket)
  handle_request server connection number name auth names random =
      let checked = check_authentication xdm server.key name auth names in
      let sent_name = text_or_empty checked.authentication_name in
      elim (final_status checked.decline_status connection) [
        | some status ↦ some (server, decline status sent_name checked.authentication_data)
        | none ↦ do
          chosen ← connection
          (a, rest) ← authorize xdm server.key checked.rho random
          (server', id) ← add_session server chosen number a rest
          some (server', accept id sent_name checked.authentication_data a.name a.sent)
      ]
