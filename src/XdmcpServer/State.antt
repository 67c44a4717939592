-- ===== src/XdmcpServer/State.antt =====
-- The state of src/xdmcp-server.c and src/xdmcp-session.c, and what they take from GLib and libXdmcp.
use lightdm.Base.{ℕ, ◌%◌, Bool, List, [], ◌∷◌, Option, none, some, ◌==◌, if◌then◌else◌, codes}
use lightdm.Xdmcp.Packet.{Str}

-- `GSocketFamily`, with the numbers of Linux for the two that the server serves.
abbrev pub ipv4 : ℕ
ipv4 = 2

abbrev pub ipv6 : ℕ
ipv6 = 10

-- `GInetAddress` of GIO, as far as the server uses it.
pub record InetAddresses : Type 1 where
  pub InetAddress : Type 0
  pub new_from_bytes : List ℕ → ℕ → InetAddress
  pub get_family : InetAddress → ℕ
  pub is_link_local : InetAddress → Bool
  pub is_loopback : InetAddress → Bool
  pub equal : InetAddress → InetAddress → Bool

-- libXdmcp: `XdmcpWrap` and `XdmcpUnwrap` on an input and a key, `XdmcpIncrementKey` and
-- `XdmcpDecrementKey`.
pub record XdmAuth : Type 0 where
  pub wrap : List ℕ → List ℕ → List ℕ
  pub unwrap : List ℕ → List ℕ → List ℕ
  pub increment_key : List ℕ → List ℕ
  pub decrement_key : List ℕ → List ℕ

-- The fields that `x_authority_new` sets.
pub record XAuthority : Type 0 where
  pub family : ℕ
  pub address : List ℕ
  pub number : Str
  pub authorization_name : Str
  pub authorization_data : List ℕ

-- `timer` tells whether the source of `inactive_timeout` is still there.
pub record XdmcpSession (I : Type 0) : Type 0 where
  pub id : ℕ
  pub address : I
  pub authority : XAuthority
  pub display_number : ℕ
  pub display_class : Str
  pub started : Bool
  pub timer : Bool

-- The table `sessions` is a list of sessions, each under its `id`.
pub record XdmcpServer (I : Type 0) : Type 0 where
  pub hostname : Str
  pub status : Str
  pub key : Option Str
  pub sessions : List (XdmcpSession I)

abbrev pub xdm_authentication : Str
xdm_authentication = codes "XDM-AUTHENTICATION-1"

abbrev pub xdm_authorization : Str
xdm_authorization = codes "XDM-AUTHORIZATION-1"

abbrev pub mit_magic_cookie : Str
mit_magic_cookie = codes "MIT-MAGIC-COOKIE-1"

module _ {I : Type 0} where
  -- `g_hash_table_lookup`, `g_hash_table_remove`, and a change of the object that is found.
  unfoldable pub find : ℕ → List (XdmcpSession I) → Option (XdmcpSession I)
  find id [] = none
  find id (s ∷ ss) = if s.id == id then some s else find id ss

  unfoldable pub remove : ℕ → List (XdmcpSession I) → List (XdmcpSession I)
  remove id [] = []
  remove id (s ∷ ss) = if s.id == id then ss else s ∷ remove id ss

  unfoldable pub replace : XdmcpSession I → List (XdmcpSession I) → List (XdmcpSession I)
  replace t [] = []
  replace t (s ∷ ss) = if s.id == t.id then t ∷ ss else s ∷ replace t ss

  -- The parameter is a guint16.
  unfoldable pub get_session : XdmcpServer I → ℕ → Option (XdmcpSession I)
  get_session server id = find (id % 65536) server.sessions

  -- The loop of `add_session`, over the numbers that `g_random_int` will give; `none` if all are
  -- taken. `id` is a guint16.
  unfoldable pub pick_id : List ℕ → List (XdmcpSession I) → Option ℕ
  pick_id [] sessions = none
  pick_id (n ∷ random) sessions =
      let rest = pick_id random sessions in
      elim (find (n % 65536) sessions) [ none ↦ some (n % 65536) | some _ ↦ rest ]

  -- `session_timeout_cb` runs once, while the source is there.
  unfoldable pub session_timeout_cb : XdmcpServer I → ℕ → XdmcpServer I
  session_timeout_cb server id = elim (find id server.sessions) [
    | none ↦ server
    | some s ↦ if s.timer then record server { sessions = remove id server.sessions } else server
  ]
