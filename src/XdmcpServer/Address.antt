-- ===== src/XdmcpServer/Address.antt =====
-- The choice of the address to connect back to (src/xdmcp-server.c).
use lightdm.Base.{
  bool_eq, ℕ, not, List, [], ◌∷◌, Option, none, some, ◌==◌, ltb, length, if◌then◌else◌,
}
use lightdm.Xdmcp.Packet.{XdmcpConnection}
use lightdm.XdmcpServer.State.{InetAddresses, ipv4, ipv6}

abbrev pub xauth_family_internet : ℕ
xauth_family_internet = 0

abbrev pub xauth_family_internet6 : ℕ
xauth_family_internet6 = 6

abbrev pub xauth_family_local : ℕ
xauth_family_local = 256

-- The sign of a comparison function's result.
pub data Sign : Type 0 where
  negative null positive : Sign

module _ (inet : InetAddresses) where
  open inet use {InetAddress, new_from_bytes, get_family, is_link_local, equal}

  unfoldable pub connection_to_address : XdmcpConnection → Option InetAddress
  connection_to_address c =
      if c.type == xauth_family_internet
      then (if length c.address == 4 then some (new_from_bytes c.address ipv4) else none)
      else if c.type == xauth_family_internet6
      then (if length c.address == 16 then some (new_from_bytes c.address ipv6) else none)
      else none

  -- An `AddrSortItem`; the connection stands for its index.
  pub record AddrSortItem : Type 0 where
    pub connection : XdmcpConnection
    pub address : InetAddress

  unfoldable pub compare_addresses : InetAddress → AddrSortItem → AddrSortItem → Sign
  compare_addresses source a b =
      let family_a = get_family a.address in
      let family_b = get_family b.address in
      let family = get_family source in
      if not (bool_eq (is_link_local a.address) (is_link_local b.address))
      then (if is_link_local a.address then positive else negative)
      else if not (family_a == family_b)
      then (if family_a == family
          then negative
          else if family_b == family
          then positive
          else if ltb family_a family_b
          then negative
          else positive)
      else if equal a.address b.address
      then null
      else if equal source a.address
      then negative
      else if equal source b.address
      then positive
      else null

  unfoldable pub sort_items : List XdmcpConnection → List AddrSortItem
  sort_items [] = []
  sort_items (c ∷ cs) = elim (connection_to_address c) [
    | none ↦ sort_items cs
    | some a ↦ record { connection = c; address = a } ∷ sort_items cs
  ]

  -- `sort` is `g_array_sort_with_data`.
  unfoldable pub choose_connection :
      ((AddrSortItem → AddrSortItem → Sign) → List AddrSortItem → List AddrSortItem)
      → List XdmcpConnection
      → InetAddress
      → Option XdmcpConnection
  choose_connection sort connections source =
      elim (sort (compare_addresses source) (sort_items connections)) [
        | [] ↦ none
        | item ∷ _ ↦ some item.connection
      ]
