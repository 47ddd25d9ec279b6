-- ===== src/Tests/Internet.antt =====
-- Examples for IP and ARP between two hosts of a network.
use nstack.Tests.{ip_in, fun_map, fun_map-IsMap, two_bytes}
use nstack.Base.{
  sym, ◌∙◌, inl, inr, ℕ, suc, arith, refl, List, ◌∷◌, [], ◌==◌, replicate, true, false, none, some,
  ◌+◌, ◌≤◌, ◌≡◌, ◌≢◌, ap, length, ◌⊎◌,
}
use nstack.Base.Int.{pos}
use nstack.Arp.Input.Deferred.{linked}
use nstack.Ip.Input.Ping.{IsReplyTo, ip_proto_icmp, icmp_proto, echo_request_answered}
use nstack.Icmp.Bytes.{request_bytes, reply_bytes}
use nstack.Ip.Input.{reply}
use nstack.Ip.Input.Receive.{received_hdr}
use nstack.Ip.Header.{ip_hdr_checksum}
use nstack.Checksum.{words_of, checksum_words}
use nstack.Base.Errno.{done}
use nstack.Host.{little_endian, swap16, swap32}
use nstack.RbMap.{RbMap, IsMap}
use nstack.Ip.Route.{
  Rib, IpRoute, first_match, and_bits, ip_route_find_by_network, ip_route_find_by_iface,
}
use nstack.Arp.Cache.{
  pick_slot, takes_slot, arp_cache_static, ArpCache, cached_haddr, arp_cache_dyn, arp_cache_insert,
  slot_at, zero_entry,
}
use nstack.Arp.Cache.Tidy.{IsIndexed, CanTake}
use nstack.Arp.{ArpIp, arp_request}
use nstack.Ip.Defer.{DeferQueue, next_slot, set_tries, defer_loop}
use nstack.Link.{Driver, ether_data_len}
use nstack.Ether.{EtherHdr}
use nstack.Ip.Input.{IpProtoHandler, find_handler, handler_output, ip_input}
use nstack.Ip.Send.{IpState, sizeof_ip_hdr, send_hdr}
use nstack.Ip.Header.{IpHdr, ip_hdr_hlen, ip_hton, ip_ntoh}
use nstack.Ip.Fragments.{ip_send_fragments}
use nstack.Ip.Fragments.Pieces.{Piece, piece_size, IsTiling}
use nstack.Ip.Fragments.Laws.{send_all, ip_send_fragments_lem}
use nstack.Base.Outcome.{returns}
use nstack.Arp.Cache.Laws.{arp_cache_insert_keeps, arp_cache_insert_forgets}
use nstack.Ip.Input.Receive.{ip_input_receives}
use nstack.Arp.Input.{resend}
use nstack.Arp.Input.Laws.{asked, deferred_packet_dropped, answer}

abbrev counting : Driver ℕ
counting = record {
  ether_handle2addr = λ handle. 0xbcd;
  ether_send = λ n handle dst proto packet bsize. (suc n, pos bsize);
}

-- A network of 256 addresses.
abbrev lan : IpRoute
lan = record {
  r_network = 0x0a000000;
  r_netmask = 0xffffff00;
  r_gw = 0;
  r_iface = 0x0a000002;
  r_iface_handle = 0;
}

abbrev routes : RbMap ℕ IpRoute
routes = record (fun_map ◌==◌) { to_list = λ t. lan ∷ [] }

abbrev slots : RbMap ℕ ℕ
slots = fun_map ◌==◌

slots-IsMap : IsMap ◌==◌ slots
slots-IsMap = fun_map-IsMap ◌==◌

abbrev rib : Rib routes
rib = record {
  rib_routetree = routes.insert 0x0a000000 lan routes.empty;
  rib_sourcetree = routes.insert 0x0a000002 lan routes.empty;
  free = 4;
}

-- The cache after `ip_config`: its own address is a static entry, and no other slot was ever filled.
abbrev started_cache : ArpCache slots
started_cache = record {
  arp_cache =
      record { ip_addr = 0x0a000002; haddr = 0xbcd; age = arp_cache_static }
      ∷ replicate 49 zero_entry;
  arp_cache_head = slots.insert 0x0a000002 0 slots.empty;
}

started-IsIndexed : IsIndexed slots slots-IsMap started_cache
started-IsIndexed = record {
  sized = refl;
  linked = λ k i e.
      let own : (k ≡ 0x0a000002) × (i ≡ 0) = own_slot k i e in
      (
        omega (arith, own.1),
        ap (λ j. (slot_at started_cache.arp_cache j).ip_addr) own.1 ∙ sym own.0,
      );
}
  where
    own_slot :
        (k i : ℕ) → slots.find k started_cache.arp_cache_head ≡ some i → (k ≡ 0x0a000002) × (i ≡ 0)
    own_slot k i e = ground (arith, e)

started-CanTake : CanTake slots slots-IsMap started_cache
unfolding pick_slot takes_slot
started-CanTake = (1, pos 0, refl, omega arith, inl (refl, inr refl))

abbrev no_defers : DeferQueue
no_defers = record {
  ip_defer_queue = λ i. record { tries = 0; dst = 0x0a000001; proto = 17; buf = two_bytes };
  q_rd = 0;
  q_wr = 0;
  defer_inhibit = false;
}

abbrev one_waits : DeferQueue
one_waits = record no_defers { q_wr = 1; defer_inhibit = true }

abbrev idle : IpState routes slots ℕ
idle = record { arp = started_cache; rib = rib; defer = no_defers; ip_global_id = 7; link = 0 }

abbrev busy : IpState routes slots ℕ
busy = record idle { defer = one_waits }

abbrev from_a : EtherHdr
from_a = record { h_dst = 0xbcd; h_src = 0xabc; h_proto = 0x0800 }

abbrev echoes : IpProtoHandler ℕ
echoes = record { proto_id = 17; fn = λ n ip buf size. (suc n, buf, done size) }

abbrev keep : IpState routes slots ℕ → ℕ → IpHdr → List ℕ → IpState routes slots ℕ × ℕ
keep st n ip buf = (st, suc n)

-- A request for the address of the interface, in network order.
abbrev asks : ArpIp
asks = record {
  arp_htype = swap16 1;
  arp_ptype = swap16 0x0800;
  arp_hlen = 6;
  arp_plen = 4;
  arp_oper = swap16 1;
  arp_sha = 0xabc;
  arp_spa = swap32 0x0a000001;
  arp_tha = 0;
  arp_tpa = swap32 0x0a000002;
}

ip_send_fragments_lem_example :
    (pieces : List Piece) × (ip_send_fragments little_endian counting 0 0xabc 3 0 ip_in two_bytes
      ≡ some (
          send_all little_endian counting 0 0xabc (ip_ntoh little_endian ip_in).0 0 pieces (pos 0)))
    × IsTiling (piece_size (ip_hdr_hlen ip_in)) 0 two_bytes pieces
    × (ip_hdr_hlen ip_in + piece_size (ip_hdr_hlen ip_in) ≤ ether_data_len)
ip_send_fragments_lem_example =
    ip_send_fragments_lem little_endian counting 0 0xabc 3 0 ip_in two_bytes (omega arith)
      (omega arith)

ip_input_receives_example :
    (c : ArpCache slots) × (ip : IpHdr) × IsIndexed slots slots-IsMap c
    × (cached_haddr slots c lan.r_iface ≢ none)
    × (ip.ip_src ≡ lan.r_iface)
    × (ip.ip_dst ≡ 0x0a000002)
    × (ip.ip_proto ≡ 17)
    × (let r = echoes.fn 0 ip two_bytes (length two_bytes) in
        ip_input little_endian routes slots
          (echoes ∷ [])
          keep
          idle
          0
          (some from_a)
          (ip_hton little_endian (send_hdr 7 lan 0x0a000002 17 (length two_bytes)) [])
          two_bytes
          (sizeof_ip_hdr + length two_bytes)
        ≡ returns (
          record idle { arp = c },
          r.0,
          handler_output little_endian ip two_bytes (length two_bytes) [] r.1 r.2,
        ))
unfolding ip_route_find_by_iface find_handler
ip_input_receives_example =
    ip_input_receives little_endian routes slots (echoes ∷ []) keep slots-IsMap idle 0 from_a 7 lan
      0x0a000002 17 two_bytes lan echoes started-IsIndexed started-CanTake
      (λ e. absurd (omega arith)) (omega arith) (omega arith) (omega arith) (omega arith) refl refl

arp_cache_insert_keeps_example :
    (c' : ArpCache slots) × (arp_cache_insert slots started_cache 0x0a000001 0xabc arp_cache_dyn
      ≡ returns (c', done 0))
    × IsIndexed slots slots-IsMap c'
    × (((slots.find 0x0a000001 started_cache.arp_cache_head ≡ none)
          × (cached_haddr slots c' 0x0a000001 ≡ some 0xabc))
        ⊎ ((i : ℕ) × (slots.find 0x0a000001 started_cache.arp_cache_head ≡ some i)
            × (cached_haddr slots c' 0x0a000001 ≡ some (slot_at started_cache.arp_cache i).haddr)))
arp_cache_insert_keeps_example =
    arp_cache_insert_keeps slots slots-IsMap started_cache 0x0a000001 0xabc started-IsIndexed
      started-CanTake (λ e. absurd (omega arith))

arp_cache_insert_forgets_example :
    (c' : ArpCache slots) × (arp_cache_insert slots started_cache 0x0a000001 0xabc arp_cache_dyn
      ≡ returns (c', done 0))
    × (slots.find 0x0a000001 c'.arp_cache_head ≡ some 1)
    × ((k : ℕ) → k ≢ 0x0a000001 → slots.find k c'.arp_cache_head ≡ none)
    × ((k : ℕ) → k ≢ 0x0a000001 → cached_haddr slots c' k ≡ none)
unfolding pick_slot takes_slot
arp_cache_insert_forgets_example =
    arp_cache_insert_forgets slots slots-IsMap started_cache 0x0a000001 0xabc 1 arp_cache_dyn
      (pos 0) started-IsIndexed (λ e. absurd (omega (arith, e))) refl refl refl refl refl

deferred_packet_dropped_example :
    defer_loop (resend little_endian routes slots counting) (suc 3) one_waits busy
    ≡ defer_loop
        (resend little_endian routes slots counting)
        3
        (record (set_tries one_waits
          (one_waits.ip_defer_queue one_waits.q_rd)
          ((one_waits.ip_defer_queue one_waits.q_rd).tries + 1)) {
            q_rd = next_slot one_waits.q_rd;
          })
        (record busy {
          link =
              (asked little_endian routes slots counting lan
                (one_waits.ip_defer_queue one_waits.q_rd).dst
                busy.link).0;
        })
unfolding ip_route_find_by_network first_match and_bits cached_haddr ip_route_find_by_iface
    arp_request
deferred_packet_dropped_example =
    deferred_packet_dropped little_endian routes slots counting 3 one_waits busy lan lan
      (λ e. absurd (omega arith)) (omega arith) refl refl refl refl refl

-- The reply to the request for the address 10.0.0.1.
abbrev answers : ArpIp
answers = record asks { arp_oper = swap16 2; arp_sha = 0xabc }

-- The identifier, the number and two bytes of data of an echo request.
abbrev echo_rest : List ℕ
echo_rest = 0 ∷ 7 ∷ 0 ∷ 1 ∷ 65 ∷ 66 ∷ []

echo_request_answered_example :
    let request = request_bytes 0 0xb7 0xb0 echo_rest in
    let answer = reply_bytes little_endian 0 echo_rest in
    (c : ArpCache slots) × (net : IpHdr) × IsIndexed slots slots-IsMap c
    × (cached_haddr slots c lan.r_iface ≢ none)
    × (ip_input little_endian routes slots
          (icmp_proto little_endian ℕ ∷ [])
          keep
          idle
          0
          (some from_a)
          (ip_hton little_endian (send_hdr 7 lan 0x0a000002 ip_proto_icmp (length request)) [])
          request
          (sizeof_ip_hdr + length request)
        ≡ returns (record idle { arp = c }, 0, reply net answer (length request + sizeof_ip_hdr)))
    × IsReplyTo little_endian
        (received_hdr little_endian 7 lan 0x0a000002 ip_proto_icmp request)
        (length request)
        net
    × (ip_hdr_checksum little_endian net [] sizeof_ip_hdr ≡ 0)
    × (checksum_words little_endian (words_of little_endian answer) ≡ 0)
unfolding ip_route_find_by_iface find_handler
echo_request_answered_example =
    echo_request_answered little_endian routes slots (icmp_proto little_endian ℕ ∷ []) keep
      slots-IsMap idle 0 from_a 7 lan 0x0a000002 0 0xb7 0xb0 echo_rest lan started-IsIndexed
      started-CanTake (λ e. absurd (omega (arith, e))) (omega arith) (omega arith) (omega arith)
      (omega arith, (omega arith, (omega arith, (omega arith, (omega arith, (omega arith, tt))))))
      (omega arith) (omega arith) refl refl
