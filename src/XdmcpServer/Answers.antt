-- ===== src/XdmcpServer/Answers.antt =====
-- What the server answers: to queries, to requests, and to a client that goes on to manage its
-- display (src/xdmcp-server.c).
use lightdm.Base.{
  ℕ, ◌<◌, ◌≡◌, refl, ◌⊎◌, inl, inr, Bool, true, not, ◌&&◌, List, [], ◌∷◌, Option, none, some,
  if◌then◌else◌, arith, Bool-cases, length, is_some, str_eq→eq,
}
use lightdm.Xdmcp.Packet.{
  Str, XdmcpData, XdmcpConnection, XdmcpPacket, willing, unwilling, accept, decline,
}
use lightdm.XdmcpServer.State.{
  InetAddresses, XdmAuth, XdmcpServer, xdm_authentication, xdm_authorization, mit_magic_cookie,
  find,
}
use lightdm.XdmcpServer.Auth.{check_authentication, has_string, requires_authentication}
use lightdm.XdmcpServer.Handlers.{
  match_name, handle_query, handle_request, get_authentication_name, no_matching, is_empty,
}
use lightdm.XdmcpServer.Invariant.{handle_request-Answered}

-- Whether the server has an authentication in common with a client that offers these.
abbrev pub agrees : Option Str → List Str → Bool
agrees none names = is_empty names
agrees (some key) names = has_string names xdm_authentication

match_name-none : (names : List Str) (o : Option Str) → match_name none names o ≡ o
unfolding match_name
match_name-none [] o = refl
match_name-none (n ∷ names) o = ground (arith, match_name-none names o)

match_name-some :
    (key : Str) (names : List Str)
    → match_name (some key) names none
      ≡ (if has_string names xdm_authentication then some xdm_authentication else none)
unfolding match_name has_string
match_name-some key [] = refl
match_name-some key (n ∷ names) =
    ground (arith, str_eq→eq n xdm_authentication, match_name-some key names)

matched :
    (key : Option Str) (names : List Str)
    → match_name key names (if is_empty names && not (is_some key) then some [] else none)
      ≡ (if agrees key names then some (get_authentication_name key) else none)
matched none [] = match_name-none [] (some [])
matched none (n ∷ names) = match_name-none (n ∷ names) none
matched (some key) [] = match_name-some key []
matched (some key) (n ∷ names) = match_name-some key (n ∷ names)

-- A server without a key is willing exactly if the client asks for no authentication; one with a
-- key exactly if the client offers XDM-AUTHENTICATION-1, which is then the name in the answer. Else
-- it answers Unwilling, with the status that says what it requires.
pub handle_query_lem :
    {I : Type 0} (server : XdmcpServer I) (names : List Str)
    → handle_query server names ≡ (
        if agrees server.key names
        then willing (get_authentication_name server.key) server.hostname server.status
        else unwilling server.hostname
            (if is_some server.key then requires_authentication else no_matching))
unfolding handle_query
handle_query_lem server names = elim (Bool-cases (agrees server.key names)) [
  | inl yes' ↦ rw (matched server.key names, handle_query, yes') refl
  | inr no' ↦ rw (matched server.key names, handle_query, no') refl
]

-- What a client must present to pass.
abbrev pub Presents : Option Str → Str → XdmcpData → List Str → Type 0
Presents none name auth names = (name ≡ []) × (has_string names mit_magic_cookie ≡ true)
Presents (some key) name auth names =
    (name ≡ xdm_authentication) × (length auth ≡ 8) × (has_string names xdm_authorization ≡ true)

check_passes :
    (xdm : XdmAuth) (key : Option Str) (name : Str) (auth : XdmcpData) (names : List Str)
    → (check_authentication xdm key name auth names).decline_status ≡ none
    → Presents key name auth names
unfolding check_authentication
check_passes xdm none name auth names h = ground (arith, str_eq→eq name [])
check_passes xdm (some key) name auth names h =
    ground (arith, str_eq→eq name [], str_eq→eq name xdm_authentication)

module _ (inet : InetAddresses) (xdm : XdmAuth) (own_hostname : Str) where
  open inet use {InetAddress}

  -- A Request is answered with an Accept only if it presents what the server requires: without a
  -- key, no authentication and MIT-MAGIC-COOKIE-1 among its authorizations; with a key,
  -- XDM-AUTHENTICATION-1 with eight octets of data and XDM-AUTHORIZATION-1 among them. The id of the
  -- Accept is a 16-bit number that no session had. Any other answer is a Decline, and the server
  -- stays as it was.
  pub request_authenticated :
      (server server' : XdmcpServer InetAddress) (connection : Option XdmcpConnection) (number : ℕ)
      (name : Str) (auth : XdmcpData) (names : List Str) (random : List ℕ) (packet : XdmcpPacket)
      → handle_request inet xdm own_hostname server connection number name auth names random
        ≡ some (server', packet)
      → ((server' ≡ server)
          × (status sent : Str) × (sent_data : XdmcpData) × (packet
              ≡ decline status sent sent_data))
        ⊎ (Presents server.key name auth names
            × (id : ℕ) × (id < 65536)
            × (find id server.sessions ≡ none)
            × (sent authorization : Str) × (sent_data authorization_data : XdmcpData) × (packet
                ≡ accept id sent sent_data authorization authorization_data))
  request_authenticated server server' connection number name auth names random packet h =
      elim (handle_request-Answered inet xdm own_hostname server server' connection number name auth
        names random packet h) [
          | inl (same, status, _, e) ↦ inl (same, status, _, _, e)
          | inr (c, a, id, chosen, passed, (address, good, small, fresh, new), e) ↦
              inr (
                check_passes xdm server.key name auth names passed,
                id,
                small,
                fresh,
                _,
                _,
                _,
                _,
                e,
              )
        ]
