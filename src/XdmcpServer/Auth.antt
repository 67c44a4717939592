-- ===== src/XdmcpServer/Auth.antt =====
-- The key of XDM-AUTHENTICATION-1 and the checks of a Request (src/xdmcp-server.c).
use lightdm.Base.{
  ℕ, zero, suc, ◌+◌, ◌-◌, ◌*◌, ◌%◌, Bool, false, ◌&&◌, ◌||◌, List, [], ◌∷◌, Option, none, some,
  bit_or, ◌==◌, leb, length, take, if◌then◌else◌, codes, str_eq,
}
use lightdm.Xdmcp.Packet.{Str, XdmcpData}
use lightdm.XdmcpServer.State.{XdmAuth, xdm_authentication, xdm_authorization, mit_magic_cookie}

unfoldable pub has_string : List Str → Str → Bool
has_string [] text = false
has_string (s ∷ ss) text = str_eq s text || has_string ss text

-- A guint8.
unfoldable pub atox : ℕ → ℕ
atox c =
    if leb b'0' c && leb c b'9'
    then c - b'0'
    else if leb b'a' c && leb c b'f'
    then c - b'a' + 10
    else if leb b'A' c && leb c b'F'
    then c - b'A' + 10
    else 0

-- The hexadecimal loop, from `key[i*2]` on with `n` octets to go. `data[i]` is a guint8, so
-- `|=` keeps the low eight bits of what C computes on int. Octets not reached stay 0.
unfoldable pub decode_hex : ℕ → Str → List ℕ
decode_hex zero key = []
decode_hex (suc n) [] = 0 ∷ decode_hex n []
decode_hex (suc n) (hi ∷ []) = bit_or 0 (atox hi * 256) % 256 ∷ decode_hex n []
decode_hex (suc n) (hi ∷ lo ∷ key) =
    bit_or (bit_or 0 (atox hi * 256) % 256) (atox lo) % 256 ∷ decode_hex n key

-- The other loop: seven octets at most, behind a zero, and zeros up to the eighth.
unfoldable pub pad : ℕ → List ℕ → List ℕ
pad zero bs = []
pad (suc n) [] = 0 ∷ pad n []
pad (suc n) (b ∷ bs) = b ∷ pad n bs

unfoldable pub decode_key : Str → List ℕ
decode_key key =
    if str_eq (take 2 key) (codes "0x") || str_eq (take 2 key) (codes "0X")
    then decode_hex 8 key
    else 0 ∷ pad 7 key

-- What the checks at the head of `handle_request` leave: the local variables that the rest reads.
pub record Checked : Type 0 where
  pub authentication_name : Option Str
  pub authentication_data : XdmcpData
  pub rho : List ℕ
  pub decline_status : Option Str

abbrev pub no_authorization_cookie : Str
no_authorization_cookie = codes "No matching authorization, server requires MIT-MAGIC-COOKIE-1"

abbrev pub requires_authentication : Str
requires_authentication = codes "No matching authentication, server requires XDM-AUTHENTICATION-1"

abbrev pub no_authorization_xdm : Str
no_authorization_xdm = codes "No matching authorization, server requires XDM-AUTHORIZATION-1"

abbrev pub invalid_data : Str
invalid_data = codes "Invalid XDM-AUTHENTICATION-1 data provided"

abbrev pub only_unauthenticated : Str
only_unauthenticated =
    codes "No matching authentication, server only supports unauthenticated connections"

abbrev declined : Str → Checked
declined status = record {
  authentication_name = none;
  authentication_data = [];
  rho = [];
  decline_status = some status;
}

abbrev passed : Checked
passed = record {
  authentication_name = none;
  authentication_data = [];
  rho = [];
  decline_status = none;
}

-- The branch of XDM-AUTHENTICATION-1, with the server's key.
unfoldable pub check_xdm : XdmAuth → Str → XdmcpData → List Str → Checked
check_xdm xdm key auth names =
    let secret = decode_key key in
    let rho = xdm.increment_key (xdm.unwrap auth secret) in
    if length auth == 8
    then record {
      authentication_name = some xdm_authentication;
      authentication_data = xdm.wrap rho secret;
      rho = rho;
      decline_status =
          if has_string names xdm_authorization then none else some no_authorization_xdm;
    }
    else declined invalid_data

-- The third branch has a case for the empty name, which the first branch takes; it is left out.
unfoldable pub check_authentication : XdmAuth → Option Str → Str → XdmcpData → List Str → Checked
unfolding check_xdm
check_authentication xdm none name auth names =
    if str_eq name []
    then (if has_string names mit_magic_cookie then passed else declined no_authorization_cookie)
    else declined only_unauthenticated
check_authentication xdm (some key) name auth names =
    if str_eq name []
    then declined requires_authentication
    else if str_eq name xdm_authentication
    then check_xdm xdm key auth names
    else declined requires_authentication
