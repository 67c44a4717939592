-- ===== src/Xdmcp/Request.antt =====
-- The Request case of `xdmcp_packet_decode` (src/xdmcp-protocol.c).
use lightdm.Base.{
  ℕ, ◌≡◌, refl, ap, List, [], ◌∷◌, Option, some, none, length, ==_refl, ◌==◌, if◌then◌else◌,
}
use lightdm.Xdmcp.Packet.{Str, XdmcpConnection, XdmcpPacket, request}
use lightdm.Xdmcp.Reader.{
  ◌>>=◌, pure, read_card8, read_card16, read_times, read_data, read_string, read_string_array,
}
use lightdm.Xdmcp.Decode.{connections_of, read_request}
use lightdm.Xdmcp.Wire.{payload, IsPacket}
use lightdm.Xdmcp.Parses.{
  Keeps, Keeps-pure, Keeps->>=, Keeps-card8, Parses, Parses->>=, Parses-last, Parses-card8,
}
use lightdm.Xdmcp.Fields.{
  Keeps-card16, Parses-card16, Keeps-times, Keeps-data, Parses-data, Keeps-string, Parses-string,
  Keeps-string_array, Parses-string_array, types, addresses, Parses-types, Parses-addresses,
}

connections_of-types : (cs : List XdmcpConnection) → connections_of (types cs) (addresses cs) ≡ cs
connections_of-types [] = refl
connections_of-types (c ∷ cs) = ap (◌∷◌ c) (connections_of-types cs)

-- The last step of `read_request`.
abbrev result :
    ℕ → ℕ → List ℕ → ℕ → List (List ℕ) → Str → List ℕ → List Str → Str → Option XdmcpPacket
result number n ts m as1 nm au ns id1 =
    if m == n then some (request number (connections_of ts as1) nm au ns id1) else none

-- Each tail of the block keeps an overflow.
Keeps-from_8 :
    (number : ℕ) (n : ℕ) (ts : List ℕ) (m : ℕ) (as1 : List (List ℕ)) (nm : Str) (au : List ℕ)
    (ns : List Str)
    → Keeps (do id1 ← read_string; pure (result number n ts m as1 nm au ns id1))
Keeps-from_8 number n ts m as1 nm au ns =
    Keeps->>= Keeps-string λ id1. Keeps-pure (result number n ts m as1 nm au ns id1)

Keeps-from_7 :
    (number : ℕ) (n : ℕ) (ts : List ℕ) (m : ℕ) (as1 : List (List ℕ)) (nm : Str) (au : List ℕ)
    → Keeps
        (do ns ← read_string_array; id1 ← read_string; pure (result number n ts m as1 nm au ns id1))
Keeps-from_7 number n ts m as1 nm au =
    Keeps->>= Keeps-string_array (Keeps-from_8 number n ts m as1 nm au)

Keeps-from_6 :
    (number : ℕ) (n : ℕ) (ts : List ℕ) (m : ℕ) (as1 : List (List ℕ)) (nm : Str)
    → Keeps (do
      au ← read_data
      ns ← read_string_array
      id1 ← read_string
      pure (result number n ts m as1 nm au ns id1))
Keeps-from_6 number n ts m as1 nm = Keeps->>= Keeps-data (Keeps-from_7 number n ts m as1 nm)

Keeps-from_5 :
    (number : ℕ) (n : ℕ) (ts : List ℕ) (m : ℕ) (as1 : List (List ℕ))
    → Keeps (do
      nm ← read_string
      au ← read_data
      ns ← read_string_array
      id1 ← read_string
      pure (result number n ts m as1 nm au ns id1))
Keeps-from_5 number n ts m as1 = Keeps->>= Keeps-string (Keeps-from_6 number n ts m as1)

Keeps-from_4 :
    (number : ℕ) (n : ℕ) (ts : List ℕ) (m : ℕ)
    → Keeps (do
      as1 ← read_times read_data n
      nm ← read_string
      au ← read_data
      ns ← read_string_array
      id1 ← read_string
      pure (result number n ts m as1 nm au ns id1))
Keeps-from_4 number n ts m =
    Keeps->>= (Keeps-times read_data Keeps-data n) (Keeps-from_5 number n ts m)

Keeps-from_3 :
    (number : ℕ) (n : ℕ) (ts : List ℕ)
    → Keeps (do
      m ← read_card8
      as1 ← read_times read_data n
      nm ← read_string
      au ← read_data
      ns ← read_string_array
      id1 ← read_string
      pure (result number n ts m as1 nm au ns id1))
Keeps-from_3 number n ts = Keeps->>= Keeps-card8 (Keeps-from_4 number n ts)

Keeps-from_2 :
    (number : ℕ) (n : ℕ)
    → Keeps (do
      ts ← read_times read_card16 n
      m ← read_card8
      as1 ← read_times read_data n
      nm ← read_string
      au ← read_data
      ns ← read_string_array
      id1 ← read_string
      pure (result number n ts m as1 nm au ns id1))
Keeps-from_2 number n = Keeps->>= (Keeps-times read_card16 Keeps-card16 n) (Keeps-from_3 number n)

Keeps-from_1 :
    (number : ℕ)
    → Keeps (do
      n ← read_card8
      ts ← read_times read_card16 n
      m ← read_card8
      as1 ← read_times read_data n
      nm ← read_string
      au ← read_data
      ns ← read_string_array
      id1 ← read_string
      pure (result number n ts m as1 nm au ns id1))
Keeps-from_1 number = Keeps->>= Keeps-card8 (Keeps-from_2 number)

accepted :
    (number : ℕ) (cs : List XdmcpConnection) (name : Str) (auth : List ℕ) (names : List Str)
    (id : Str)
    → pure (result number (length cs) (types cs) (length cs) (addresses cs) name auth names id)
      ≡ pure (some (request number cs name auth names id))
accepted number cs name auth names id = rw (==_refl (length cs), connections_of-types cs)

pub Parses-request :
    (number : ℕ) (cs : List XdmcpConnection) (name : Str) (auth : List ℕ) (names : List Str)
    (id : Str)
    → IsPacket (request number cs name auth names id)
    → Parses read_request
        (some (request number cs name auth names id))
        (payload (request number cs name auth names id))
unfolding read_request payload
Parses-request number cs name auth names id v = Parses->>= (Parses-card16 number) Keeps-from_1 (
    Parses->>= (Parses-card8 (length cs)) (Keeps-from_2 number) (
      Parses->>= (Parses-types cs) (Keeps-from_3 number (length cs)) (
        Parses->>= (Parses-card8 (length cs)) (Keeps-from_4 number (length cs) (types cs)) (
          Parses->>= (Parses-addresses cs) (Keeps-from_5 number (length cs) (types cs) (length cs))
            (Parses->>= (Parses-string name v.3)
              (Keeps-from_6 number (length cs) (types cs) (length cs) (addresses cs))
              (Parses->>= (Parses-data auth)
                (Keeps-from_7 number (length cs) (types cs) (length cs) (addresses cs) name)
                (Parses->>= (Parses-string_array names v.5)
                  (Keeps-from_8 number (length cs) (types cs) (length cs) (addresses cs) name auth)
                  (Parses-last (Parses-string id v.6)
                    (λ id1. Keeps-pure (
                      result number (length cs) (types cs) (length cs) (addresses cs) name auth
                        names id1))
                    (accepted number cs name auth names id)))))))))
