-- ===== src/Xdmcp/Body.antt =====
-- The cases of the `switch` in `xdmcp_packet_decode` (src/xdmcp-protocol.c) on the payload of a
-- packet.
use lightdm.Base.{ℕ, ◌≡◌, refl, ap, Bool, true, false, List, some, ◌==◌, not}
use lightdm.Xdmcp.Packet.{
  Str, XdmcpPacket, broadcast_query, query, indirect_query, forward_query, willing, unwilling,
  request, accept, decline, manage, refuse, failed, keep_alive, alive, opcode,
}
use lightdm.Xdmcp.Reader.{◌>>=◌, pure, read_card8, read_card32}
use lightdm.Xdmcp.Decode.{
  read_forward_query, read_willing, read_accept, read_decline, read_manage, read_body,
}
use lightdm.Xdmcp.Request.{Parses-request}
use lightdm.Xdmcp.Wire.{payload, IsPacket, flag}
use lightdm.Xdmcp.Parses.{Keeps-pure, Keeps->>=, Parses, Parses->>=, Parses-last, Parses-card8}
use lightdm.Xdmcp.Fields.{
  Keeps-card16, Keeps-card32, Parses-card16, Parses-card32, Keeps-data, Parses-data, Keeps-string,
  Parses-string, Keeps-string_array, Parses-string_array,
}

Parses-forward_query :
    (address port : List ℕ) (names : List Str)
    → IsPacket (forward_query address port names)
    → Parses read_forward_query
        (some (forward_query address port names))
        (payload (forward_query address port names))
unfolding read_forward_query payload
Parses-forward_query address port names v =
    Parses->>= (Parses-data address)
      (λ a.
        Keeps->>= Keeps-data
          λ p. Keeps->>= Keeps-string_array λ n. Keeps-pure (some (forward_query a p n)))
      (Parses->>= (Parses-data port)
        (λ p. Keeps->>= Keeps-string_array λ n. Keeps-pure (some (forward_query address p n)))
        (Parses-last (Parses-string_array names v.2)
          (λ n. Keeps-pure (some (forward_query address port n))) refl))

Parses-willing :
    (name hostname status : Str)
    → IsPacket (willing name hostname status)
    → Parses read_willing
        (some (willing name hostname status))
        (payload (willing name hostname status))
unfolding read_willing payload
Parses-willing name hostname status v =
    Parses->>= (Parses-string name v.0)
      (λ a.
        Keeps->>= Keeps-string λ b. Keeps->>= Keeps-string λ c. Keeps-pure (some (willing a b c)))
      (Parses->>= (Parses-string hostname v.1)
        (λ b. Keeps->>= Keeps-string λ c. Keeps-pure (some (willing name b c)))
        (Parses-last (Parses-string status v.2) (λ c. Keeps-pure (some (willing name hostname c)))
          refl))

Parses-decline :
    (status name : Str) (auth : List ℕ)
    → IsPacket (decline status name auth)
    → Parses read_decline (some (decline status name auth)) (payload (decline status name auth))
unfolding read_decline payload
Parses-decline status name auth v =
    Parses->>= (Parses-string status v.0)
      (λ a. Keeps->>= Keeps-string λ b. Keeps->>= Keeps-data λ c. Keeps-pure (some (decline a b c)))
      (Parses->>= (Parses-string name v.1)
        (λ b. Keeps->>= Keeps-data λ c. Keeps-pure (some (decline status b c)))
        (Parses-last (Parses-data auth) (λ c. Keeps-pure (some (decline status name c))) refl))

Parses-manage :
    (session number : ℕ) (class : Str)
    → IsPacket (manage session number class)
    → Parses read_manage
        (some (manage session number class))
        (payload (manage session number class))
unfolding read_manage payload
Parses-manage session number class v =
    Parses->>= (Parses-card32 session)
      (λ a.
        Keeps->>= Keeps-card16 λ b. Keeps->>= Keeps-string λ c. Keeps-pure (some (manage a b c)))
      (Parses->>= (Parses-card16 number)
        (λ b. Keeps->>= Keeps-string λ c. Keeps-pure (some (manage session b c)))
        (Parses-last (Parses-string class v.2) (λ c. Keeps-pure (some (manage session number c)))
          refl))

Parses-accept :
    (session : ℕ) (name : Str) (auth : List ℕ) (authorization : Str) (authorization_data : List ℕ)
    → IsPacket (accept session name auth authorization authorization_data)
    → Parses read_accept
        (some (accept session name auth authorization authorization_data))
        (payload (accept session name auth authorization authorization_data))
unfolding read_accept payload
Parses-accept s n a z d v =
    Parses->>= (Parses-card32 s)
      (λ x0. Keeps->>= Keeps-string λ x1. Keeps->>= Keeps-data λ x2.
        Keeps->>= Keeps-string
          λ x3. Keeps->>= Keeps-data λ x4. Keeps-pure (some (accept x0 x1 x2 x3 x4)))
      (Parses->>= (Parses-string n v.1)
        (λ x1. Keeps->>= Keeps-data λ x2.
          Keeps->>= Keeps-string
            λ x3. Keeps->>= Keeps-data λ x4. Keeps-pure (some (accept s x1 x2 x3 x4)))
        (Parses->>= (Parses-data a)
          (λ x2.
            Keeps->>= Keeps-string
              λ x3. Keeps->>= Keeps-data λ x4. Keeps-pure (some (accept s n x2 x3 x4)))
          (Parses->>= (Parses-string z v.3)
            (λ x3. Keeps->>= Keeps-data λ x4. Keeps-pure (some (accept s n a x3 x4)))
            (Parses-last (Parses-data d) (λ x4. Keeps-pure (some (accept s n a z x4))) refl))))

abbrev running : ℕ → Bool
running n = not (n == 0)

Parses-alive :
    (b : Bool) (session : ℕ)
    → Parses
        (do n ← read_card8; s ← read_card32; pure (some (alive (running n) s)))
        (some (alive b session))
        (payload (alive b session))
unfolding payload
Parses-alive b session =
    Parses->>= (Parses-card8 (flag b))
      (λ n. Keeps->>= Keeps-card32 λ s. Keeps-pure (some (alive (running n) s)))
      (Parses-last (Parses-card32 session) (λ s. Keeps-pure (some (alive (running (flag b)) s)))
        (ap (λ r. pure (some (alive r session))) (running-flag b)))
  where
    running-flag : (c : Bool) → running (flag c) ≡ c
    running-flag true = refl
    running-flag false = refl

-- On the payload of a packet, under its opcode, the `switch` gives the packet back.
pub Parses-body :
    (p : XdmcpPacket) → IsPacket p → Parses (read_body (opcode p)) (some p) (payload p)
unfolding read_body payload
Parses-body (broadcast_query names) v =
    Parses-last (Parses-string_array names v) (λ n. Keeps-pure (some (broadcast_query n))) refl
Parses-body (query names) v =
    Parses-last (Parses-string_array names v) (λ n. Keeps-pure (some (query n))) refl
Parses-body (indirect_query names) v =
    Parses-last (Parses-string_array names v) (λ n. Keeps-pure (some (indirect_query n))) refl
Parses-body (forward_query address port names) v = Parses-forward_query address port names v
Parses-body (willing name hostname status) v = Parses-willing name hostname status v
Parses-body (unwilling hostname status) v =
    Parses->>= (Parses-string hostname v.0)
      (λ a. Keeps->>= Keeps-string λ b. Keeps-pure (some (unwilling a b)))
      (Parses-last (Parses-string status v.1) (λ b. Keeps-pure (some (unwilling hostname b))) refl)
Parses-body (request number cs name auth names id) v = Parses-request number cs name auth names id v
Parses-body (accept s n a z d) v = Parses-accept s n a z d v
Parses-body (decline status name auth) v = Parses-decline status name auth v
Parses-body (manage session number class) v = Parses-manage session number class v
Parses-body (refuse session) v =
    Parses-last (Parses-card32 session) (λ a. Keeps-pure (some (refuse a))) refl
Parses-body (failed session status) v =
    Parses->>= (Parses-card32 session)
      (λ a. Keeps->>= Keeps-string λ b. Keeps-pure (some (failed a b)))
      (Parses-last (Parses-string status v.1) (λ b. Keeps-pure (some (failed session b))) refl)
Parses-body (keep_alive number session) v =
    Parses->>= (Parses-card16 number)
      (λ a. Keeps->>= Keeps-card32 λ b. Keeps-pure (some (keep_alive a b)))
      (Parses-last (Parses-card32 session) (λ b. Keeps-pure (some (keep_alive number b))) refl)
Parses-body (alive true session) v = Parses-alive true session
Parses-body (alive false session) v = Parses-alive false session
