-- ===== src/Tcp/Fsm/Stream.antt =====
-- The data that one side sends by `tcp_send_segments` and the other takes by `tcp_fsm` of src/tcp.c.
use nstack.Base.{
  ℕ, ◌+◌, ◌^◌, ◌<◌, ◌≡◌, refl, sym, ap, ◌∙◌, arith, Bool, true, false, Option, some, List, [], ◌∷◌,
  ◌++◌, map, length,
}
use mathlib.Core.Path.{subst}
use mathlib.Core.List.{append_assoc, append-nil}
use nstack.Base.Outcome.{Outcome, returns, ◌>>=◌}
use nstack.Host.{Host}
use nstack.Socket.{SockAddr}
use nstack.Ip.Header.{IpHdr}
use nstack.Tcp.{TcpHdr, Tcb, TcpSegment}
use nstack.Tcp.Wire.{TcpPacket, tcp_hton, tcp_ntoh}
use nstack.Tcp.Send.{data_flags, new_segment}
use nstack.Tcp.Segments.{take_segment, segment_packet, send_loop, tcp_send_segments}
use nstack.Tcp.Fsm.{Delivery, tcp_fsm}
use nstack.Tcp.Fsm.Taken.{Expects, data_delivery, taken}

abbrev pub deliveries : IpHdr → ℕ → ℕ → List (List ℕ) → List (Option Delivery)
deliveries ip_hdr sock sport = map (λ buf. some (data_delivery ip_hdr sock sport (length buf)))

-- A link that takes every packet.
abbrev pub wire : List TcpPacket → TcpPacket → List TcpPacket × Bool
wire ps packet = (ps ++ (packet ∷ []), true)

-- Every piece of data fits a segment.
abbrev pub AllSmall : List (List ℕ) → Type 0
AllSmall [] = Unit {0}
AllSmall (buf ∷ bufs) = (length buf < 2 ^ 16) × AllSmall bufs

-- The segments that `nstack_tcp_send` queues for the data.
abbrev pub segments : Tcb → List (List ℕ) → List TcpSegment
segments c = map (new_segment c.local c.remote)

module _ (find_socket : SockAddr → Option ℕ) (random : ℕ) (ip_hdr : IpHdr) where
  module _ (host : Host) where
    -- The receiver takes one packet after the other.
    abbrev pub take_packets : List TcpPacket → Tcb → Outcome (Tcb × List (Option Delivery))
    take_packets [] p = returns (p, [])
    take_packets (packet ∷ rest) p =
        tcp_fsm find_socket random ip_hdr (20 + length packet.behind) (some p)
          (tcp_ntoh host packet.header)
        >>= (λ out. take_packets rest out.conn >>= (λ r. returns (r.0, out.delivered ∷ r.1)))

    -- The connection after a segment was sent, and after all were; the packets that were sent.
    abbrev one_sent : List TcpSegment → Tcb → TcpSegment → Tcb
    one_sent rest c seg = record (take_segment rest c seg) {
      unacked_list = c.unacked_list ++ (seg ∷ []);
    }

    abbrev all_sent : List TcpSegment → Tcb → Tcb
    all_sent [] c = c
    all_sent (seg ∷ rest) c = all_sent rest (one_sent rest c seg)

    abbrev packets : List TcpSegment → Tcb → List TcpPacket
    packets [] c = []
    packets (seg ∷ rest) c = segment_packet host c seg ∷ packets rest (one_sent rest c seg)

    send_loop_lem :
        (segs : List TcpSegment) (c : Tcb) (ps : List TcpPacket)
        → send_loop host wire segs c ps
          ≡ (record (all_sent segs c) { locked = false }, ps ++ packets segs c, true)
    unfolding send_loop
    send_loop_lem [] c ps = ap (λ qs. (record c { locked = false }, qs, true)) (sym (append-nil ps))
    send_loop_lem (seg ∷ rest) c ps =
        send_loop_lem rest (one_sent rest c seg) (ps ++ (segment_packet host c seg ∷ []))
        ∙ ap (λ qs. (record (all_sent rest (one_sent rest c seg)) { locked = false }, qs, true))
            (append_assoc ps (segment_packet host c seg ∷ []) (packets rest (one_sent rest c seg)))

    read_header :
        (c : Tcb) (buf : List ℕ)
        → c.local.port < 2 ^ 16
        → c.remote.port < 2 ^ 16
        → c.send_next < 2 ^ 32
        → c.recv_next < 2 ^ 32
        → let rs =
            tcp_ntoh host (segment_packet host c (new_segment c.local c.remote buf)).header in
          (rs.tcp_seqno ≡ c.send_next)
          × (rs.tcp_ack_num ≡ c.recv_next)
          × (rs.tcp_flags ≡ data_flags)
          × (rs.tcp_sport ≡ c.local.port)
          × (rs.tcp_dport ≡ c.remote.port)
    unfolding tcp_ntoh tcp_hton segment_packet new_segment
    read_header c buf l r n a = (
      host.ntohl-htonl c.send_next n,
      host.ntohl-htonl c.recv_next a,
      host.ntohs-htons data_flags (omega arith),
      host.ntohs-htons c.local.port l,
      host.ntohs-htons c.remote.port r,
    )

    take_all :
        (bufs : List (List ℕ)) (c p : Tcb) (sock : ℕ)
        → c.local.port < 2 ^ 16
        → c.remote.port < 2 ^ 16
        → c.send_next < 2 ^ 32
        → c.recv_next < 2 ^ 32
        → Expects c.send_next c.recv_next p
        → find_socket (record { inet4_addr = ip_hdr.ip_dst; port = c.remote.port }) ≡ some sock
        → AllSmall bufs
        → (p' : Tcb) × (take_packets (packets (segments c bufs) c) p
            ≡ returns (p', deliveries ip_hdr sock c.local.port bufs))
          × Expects (all_sent (segments c bufs) c).send_next c.recv_next p'
    unfolding take_segment segment_packet new_segment
    take_all [] c p sock l r n a v found small = (p, refl, v)
    take_all (buf ∷ bufs) c p sock l r n a v found (fits, small) =
        let seg : TcpSegment = new_segment c.local c.remote buf in
        let rs : TcpHdr = tcp_ntoh host (segment_packet host c seg).header in
        let (seq, ack, flags, sport, dport) = read_header c buf l r n a in
        let at_port =
          ap (λ port. find_socket (record { inet4_addr = ip_hdr.ip_dst; port = port })) in
        let (out, run, delivered, next) =
          taken find_socket random ip_hdr c.send_next c.recv_next (length buf) sock p rs v seq ack
            flags (at_port dport ∙ found) fits in
        let c1 : Tcb = one_sent (segments c bufs) c seg in
        let (p', rest, v') = take_all bufs c1 out.conn sock l r (omega arith) a next found small in
        (
          p',
          ap
                (λ o. o >>= (λ out.
                  take_packets (packets (segments c bufs) c1) out.conn
                  >>= (λ r. returns (r.0, out.delivered ∷ r.1))))
                run
              ∙ ap (λ o. o >>= (λ r. returns (r.0, out.delivered ∷ r.1))) rest
              ∙ ap (λ d. returns (p', d ∷ deliveries ip_hdr sock c.local.port bufs))
                  (delivered
                    ∙ ap (λ port. some (data_delivery ip_hdr sock port (length buf))) sport),
          v',
        )

    all_sent_lem :
        (segs : List TcpSegment) (c : Tcb)
        → c.unsent_list ≡ segs
        → ((all_sent segs c).recv_next ≡ c.recv_next) × ((all_sent segs c).unsent_list ≡ [])
    unfolding take_segment
    all_sent_lem [] c e = (refl, e)
    all_sent_lem (seg ∷ rest) c e = all_sent_lem rest (one_sent rest c seg) refl

    packets_data :
        (bufs : List (List ℕ)) (c : Tcb)
        → map (λ (packet : TcpPacket). packet.behind) (packets (segments c bufs) c) ≡ bufs
    unfolding take_segment segment_packet new_segment
    packets_data [] c = refl
    packets_data (buf ∷ bufs) c =
        ap (λ rest. buf ∷ rest)
          (packets_data bufs (one_sent (segments c bufs) c (new_segment c.local c.remote buf)))

    -- An unlocked connection has pieces of data of less than 65536 bytes in its unsent list, as
    -- `nstack_tcp_send` queues them; its peer is established and unlocked, times no round trip,
    -- waits for the connection's next number, itself sends next the number that the connection
    -- waits for, so has nothing in flight, and has a socket for the segments. Over a link that
    -- loses nothing, `tcp_send_segments` sends one packet for each piece, in order; the peer,
    -- taking them one by one, hands to the socket the bytes behind each header, as many as the
    -- piece has. Then nothing is unsent, and the peer again waits for the next number.
    pub sent_data_arrives :
        (conn peer : Tcb) (bufs : List (List ℕ)) (sock : ℕ)
        → conn.locked ≡ false
        → conn.unsent_list ≡ segments conn bufs
        → conn.local.port < 2 ^ 16
        → conn.remote.port < 2 ^ 16
        → conn.send_next < 2 ^ 32
        → conn.recv_next < 2 ^ 32
        → Expects conn.send_next conn.recv_next peer
        → find_socket (record { inet4_addr = ip_hdr.ip_dst; port = conn.remote.port }) ≡ some sock
        → AllSmall bufs
        → (conn' : Tcb) × (ps : List TcpPacket) × (peer' : Tcb) × (tcp_send_segments host wire conn
              []
            ≡ returns (conn', ps, true))
          × (map (λ (packet : TcpPacket). packet.behind) ps ≡ bufs)
          × (take_packets ps peer ≡ returns (peer', deliveries ip_hdr sock conn.local.port bufs))
          × Expects conn'.send_next conn'.recv_next peer'
          × (conn'.unsent_list ≡ [])
    unfolding tcp_send_segments
    sent_data_arrives conn peer bufs sock free unsent l r n a v found small =
        let busy : Tcb = record conn { locked = true } in
        let segs = segments conn bufs in
        let (peer', taken_all, v') = take_all bufs busy peer sock l r n a v found small in
        let (same, empty) = all_sent_lem segs busy unsent in
        (
          record (all_sent segs busy) { locked = false },
          packets segs busy,
          peer',
          rw free (
              ap (λ q. returns (send_loop host wire q busy [])) unsent
              ∙ ap returns (send_loop_lem segs busy [])),
          packets_data bufs busy,
          taken_all,
          subst (λ m. Expects (all_sent segs busy).send_next m peer') (sym same) v',
          empty,
        )
