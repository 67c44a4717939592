-- ===== src/XdmcpServer/Managed.antt =====
-- A session of src/xdmcp-server.c that has been managed.
use lightdm.Base.{ℕ, ◌≡◌, Bool, true, List, [], ◌∷◌, some, ◌==◌, if◌then◌else◌}
use lightdm.Xdmcp.Packet.{Str, XdmcpPacket, refuse, alive}
use lightdm.XdmcpServer.State.{InetAddresses, XdmAuth, XdmcpSession, XdmcpServer, find}
use lightdm.XdmcpServer.Address.{Sign, AddrSortItem}
use lightdm.XdmcpServer.Dispatch.{handle_manage, handle_keep_alive}
use lightdm.XdmcpServer.Run.{Event, run}

abbrev IsThere : {I : Type 0} → XdmcpSession I → List (XdmcpSession I) → Type 0
IsThere s ss = find s.id ss ≡ some s

module _ (inet : InetAddresses) (xdm : XdmAuth) (own_hostname : Str)
    (sort : (AddrSortItem inet → AddrSortItem inet → Sign)
      → List (AddrSortItem inet)
      → List (AddrSortItem inet)) where
  open inet use {InetAddress}

  -- What is left of a session that was managed, and how the Manage is answered.
  abbrev pub Runs : XdmcpServer InetAddress → List XdmcpPacket → ℕ → Bool → Str → Type 0
  Runs final sent id agrees class =
      (sent ≡ (if agrees then [] else refuse id ∷ []))
      × (s : XdmcpSession InetAddress) × (find id final.sessions ≡ some s)
      × (s.started ≡ true)
      × (s.display_class ≡ class)
      × (handle_keep_alive final id ≡ alive true id)

  abbrev Serves :
      XdmcpServer InetAddress
      → ℕ
      → Str
      → (XdmcpSession InetAddress → Bool)
      → List (Event inet xdm own_hostname sort)
      → XdmcpServer InetAddress
      → ℕ
      → ℕ
      → Type 0
  Serves final managed_number class accepts es server id number =
      run inet xdm own_hostname sort (handle_manage accepts server id managed_number class).0 es
        ≡ some final
      → Runs final (handle_manage accepts server id managed_number class).1 id
          (number == managed_number) class
