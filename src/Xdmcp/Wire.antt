-- ===== src/Xdmcp/Wire.antt =====
-- The octets of an XDMCP packet, written down from the protocol's layout and not from the code:
-- big-endian words, counted data and strings, counted arrays. Also which packets have such octets.
use lightdm.Base.{ℕ, ◌/◌, ◌%◌, ◌<◌, ◌≢◌, Bool, true, false, List, [], ◌∷◌, ◌++◌, length, All}
use lightdm.Xdmcp.Packet.{
  XdmcpData, Str, XdmcpConnection, XdmcpPacket, broadcast_query, query, indirect_query,
  forward_query, willing, unwilling, request, accept, decline, manage, refuse, failed, keep_alive,
  alive, xdmcp_version,
}

abbrev pub word16 : ℕ → List ℕ
word16 n = n / 256 ∷ n % 256 ∷ []

abbrev pub word32 : ℕ → List ℕ
word32 n = n / 16777216 ∷ n / 65536 % 256 ∷ n / 256 % 256 ∷ n % 256 ∷ []

abbrev pub counted : List ℕ → List ℕ
counted bs = word16 (length bs) ++ bs

abbrev pub all_counted : List (List ℕ) → List ℕ
all_counted [] = []
all_counted (s ∷ ss) = counted s ++ all_counted ss

abbrev pub counted_array : List Str → List ℕ
counted_array ss = length ss ∷ all_counted ss

abbrev pub types_of : List XdmcpConnection → List ℕ
types_of [] = []
types_of (c ∷ cs) = word16 c.type ++ types_of cs

abbrev pub addresses_of : List XdmcpConnection → List ℕ
addresses_of [] = []
addresses_of (c ∷ cs) = counted c.address ++ addresses_of cs

abbrev pub flag : Bool → ℕ
flag true = 1
flag false = 0

unfoldable pub payload : XdmcpPacket → List ℕ
payload (broadcast_query names) = counted_array names
payload (query names) = counted_array names
payload (indirect_query names) = counted_array names
payload (forward_query address port names) =
    counted address ++ (counted port ++ counted_array names)
payload (willing name hostname status) = counted name ++ (counted hostname ++ counted status)
payload (unwilling hostname status) = counted hostname ++ counted status
payload (request number connections name auth names id) =
    word16 number
    ++ (length connections
        ∷ (types_of connections
            ++ (length connections
                ∷ (addresses_of connections
                    ++ (counted name ++ (counted auth ++ (counted_array names ++ counted id)))))))
payload (accept session name auth authorization authorization_data) =
    word32 session
    ++ (counted name ++ (counted auth ++ (counted authorization ++ counted authorization_data)))
payload (decline status name auth) = counted status ++ (counted name ++ counted auth)
payload (manage session number class) = word32 session ++ (word16 number ++ counted class)
payload (refuse session) = word32 session
payload (failed session status) = word32 session ++ counted status
payload (keep_alive number session) = word16 number ++ word32 session
payload (alive running session) = flag running ∷ word32 session

-- Header and payload.
abbrev pub frame : ℕ → List ℕ → List ℕ
frame code body = word16 xdmcp_version ++ (word16 code ++ (word16 (length body) ++ body))

-- What the C types give (octets and words in range), and what the length fields can count.
abbrev pub IsData : XdmcpData → Type 0
IsData bs = (length bs < 65536) × All (λ b. b < 256) bs

abbrev pub IsStr : Str → Type 0
IsStr s = (length s < 65536) × All (λ c. (c < 256) × (c ≢ 0)) s

abbrev pub IsStrArray : List Str → Type 0
IsStrArray ss = (length ss < 256) × All IsStr ss

abbrev pub IsConnection : XdmcpConnection → Type 0
IsConnection c = (c.type < 65536) × IsData c.address

abbrev pub IsWord : ℕ → Type 0
IsWord n = n < 65536

abbrev pub IsLong : ℕ → Type 0
IsLong n = n < 4294967296

abbrev pub IsPacket : XdmcpPacket → Type 0
IsPacket (broadcast_query names) = IsStrArray names
IsPacket (query names) = IsStrArray names
IsPacket (indirect_query names) = IsStrArray names
IsPacket (forward_query address port names) = IsData address × IsData port × IsStrArray names
IsPacket (willing name hostname status) = IsStr name × IsStr hostname × IsStr status
IsPacket (unwilling hostname status) = IsStr hostname × IsStr status
IsPacket (request number connections name auth names id) =
    IsWord number
    × (length connections < 256)
    × All IsConnection connections
    × IsStr name
    × IsData auth
    × IsStrArray names
    × IsStr id
IsPacket (accept session name auth authorization authorization_data) =
    IsLong session × IsStr name × IsData auth × IsStr authorization × IsData authorization_data
IsPacket (decline status name auth) = IsStr status × IsStr name × IsData auth
IsPacket (manage session number class) = IsLong session × IsWord number × IsStr class
IsPacket (refuse session) = IsLong session
IsPacket (failed session status) = IsLong session × IsStr status
IsPacket (keep_alive number session) = IsWord number × IsLong session
IsPacket (alive running session) = IsLong session
