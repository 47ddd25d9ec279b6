-- ===== src/Ip/Input/Ping.antt =====
-- An echo request on its way through `ip_input` of src/ip.c and `icmp_input` of src/icmp.c.
use nstack.Base.{
  ℕ, zero, suc, ◌+◌, ◌^◌, ◌<◌, ◌≤◌, ◌≡◌, ◌≢◌, refl, sym, ap, ◌∙◌, arith, List, [], some, none, ◌==◌,
  length,
}
use nstack.Base.Errno.{Ret, done}
use nstack.Base.Outcome.{Outcome, returns}
use nstack.Host.{Host}
use nstack.RbMap.{RbMap, IsMap}
use nstack.Checksum.{words_of, checksum_words}
use nstack.Checksum.Laws.{AllBytes}
use nstack.Ip.Header.{
  IpHdr, ip_hdr_hlen, ip_hdr_checksum, ip_hton, ip_ntoh, ip_reply_header, reply_fields,
}
use nstack.Ip.Header.Laws.{
  IsHdr, reply_fields-IsHdr, ip_hton_csum-lt, ip_hton_verifies, ip_reply_header_lem,
}
use nstack.Ip.Route.{IpRoute, ip_route_find_by_iface}
use nstack.Ip.Send.{IpState, send_hdr, sizeof_ip_hdr}
use nstack.Arp.Cache.{ArpCache, cached_haddr}
use nstack.Arp.Cache.Tidy.{IsIndexed, CanTake}
use nstack.Ether.{EtherHdr}
use nstack.Icmp.Bytes.{
  icmp_handler, request_bytes, reply_bytes, icmp_handler-request, reply_bytes_verify,
}
use nstack.Ip.Input.{IpProtoHandler, IpOutput, reply, find_handler, handler_output, ip_input}
use nstack.Ip.Input.Receive.{received_hdr, send_hdr-IsHdr, ip_input_received}

-- `IP_PROTO_ICMP`, and the handler that src/icmp.c registers for it.
abbrev pub ip_proto_icmp : ℕ
ip_proto_icmp = 1

abbrev pub icmp_proto : Host → (T : Type 0) → IpProtoHandler T
icmp_proto host T = record { proto_id = ip_proto_icmp; fn = icmp_handler host }

handler_output_reply :
    (host : Host) (ip : IpHdr) (buf : List ℕ) (bsize : ℕ) (written : List ℕ) (n : ℕ)
    → 0 < n
    → handler_output host ip buf bsize [] written (done n)
      ≡ reply (ip_reply_header host ip [] n).0 written (ip_reply_header host ip [] n).1
unfolding handler_output
handler_output_reply host ip buf bsize written zero positive = absurd (omega arith)
handler_output_reply host ip buf bsize written (suc n) positive = refl

received_hdr-IsHdr :
    (host : Host) (ip_global_id : ℕ) (route : IpRoute) (dst proto : ℕ) (buf : List ℕ)
    → route.r_iface < 2 ^ 32
    → dst < 2 ^ 32
    → proto < 256
    → IsHdr (received_hdr host ip_global_id route dst proto buf)
received_hdr-IsHdr host ip_global_id route dst proto buf i d p =
    let hdr = send_hdr ip_global_id route dst proto (length buf) in
    let v = send_hdr-IsHdr ip_global_id route dst proto (length buf) i d p in
    record {
      vhl = v.vhl;
      tos = v.tos;
      len = v.len;
      id = v.id;
      foff = v.foff;
      ttl = v.ttl;
      proto = v.proto;
      csum = ip_hton_csum-lt host hdr [];
      src = v.src;
      dst = v.dst;
    }

received_hlen :
    (host : Host) (ip_global_id : ℕ) (route : IpRoute) (dst proto : ℕ) (buf : List ℕ)
    → ip_hdr_hlen (received_hdr host ip_global_id route dst proto buf) ≡ 20
unfolding ip_hdr_hlen send_hdr
received_hlen host ip_global_id route dst proto buf = refl

reply_hdr_verifies :
    (host : Host) (ip : IpHdr) (bsize : ℕ)
    → IsHdr ip
    → ip_hdr_hlen ip ≡ 20
    → ip_hdr_checksum host (ip_reply_header host ip [] bsize).0 [] 20 ≡ 0
unfolding ip_reply_header reply_fields ip_hdr_hlen
reply_hdr_verifies host ip bsize v hlen =
    ap (λ n. ip_hdr_checksum host (ip_hton host (reply_fields ip bsize) []) [] n) (sym hlen)
    ∙ ip_hton_verifies host (reply_fields ip bsize) [] (reply_fields-IsHdr ip bsize v) tt
        (omega (arith, hlen))

-- The reply as the sender of the request reads it.
abbrev pub IsReplyTo : Host → IpHdr → ℕ → IpHdr → Type 0
IsReplyTo host ip size net =
    let back = (ip_ntoh host net).0 in
    (back.ip_src ≡ ip.ip_dst)
    × (back.ip_dst ≡ ip.ip_src)
    × (back.ip_proto ≡ ip.ip_proto)
    × (back.ip_ttl ≡ 64)
    × (back.ip_len ≡ size + 20)

reply_hdr_fields :
    (host : Host) (ip : IpHdr) (size : ℕ)
    → IsHdr ip
    → ip_hdr_hlen ip ≡ 20
    → size ≤ 65515
    → IsReplyTo host ip size (ip_reply_header host ip [] size).0
      × ((ip_reply_header host ip [] size).1 ≡ size + 20)
reply_hdr_fields host ip size v hlen small =
    let (total, same, fields) = ip_reply_header_lem host ip [] size v (omega (arith, hlen)) in
    (
      (
        ap (λ (r : IpHdr). r.ip_src) fields,
        ap (λ (r : IpHdr). r.ip_dst) fields,
        ap (λ (r : IpHdr). r.ip_proto) fields,
        ap (λ (r : IpHdr). r.ip_ttl) fields,
        ap (λ (r : IpHdr). r.ip_len) fields ∙ ap (λ n. size + n) hlen,
      ),
      total ∙ ap (λ n. size + n) hlen,
    )

module _ (host : Host) (trees : RbMap ℕ IpRoute) (index : RbMap ℕ ℕ) {S T : Type 0}
    (handlers : List (IpProtoHandler T))
    (ip_fragment_input : IpState trees index S → T → IpHdr → List ℕ → IpState trees index S × T)
    (laws : IsMap ◌==◌ index) where
  -- An echo request of 8 up to 65515 bytes in a packet that `ip_send` has built, on a receiver with
  -- an ARP cache whose tree, a map, refers to its slots and whose next slot can be taken (IsIndexed and
  -- CanTake), an interface with the packet's destination and the handler of src/icmp.c: it is
  -- answered in place by an echo reply with the same code, identifier, number and data, in a packet
  -- of the same size back to the sender. The checksums of the header and of the message verify.
  pub echo_request_answered :
      (st : IpState trees index S) (t : T) (e_hdr : EtherHdr) (ip_global_id : ℕ) (route : IpRoute)
      (dst code b2 b3 : ℕ) (rest : List ℕ) (there : IpRoute)
      → IsIndexed index laws st.arp
      → CanTake index laws st.arp
      → route.r_iface ≢ 0
      → route.r_iface < 2 ^ 32
      → dst < 2 ^ 32
      → code < 256
      → AllBytes rest
      → 4 ≤ length rest
      → 4 + length rest ≤ 65515
      → ip_route_find_by_iface trees st.rib dst ≡ some there
      → find_handler ip_proto_icmp handlers ≡ some (icmp_proto host T)
      → let request = request_bytes code b2 b3 rest in
        let answer = reply_bytes host code rest in
        (c : ArpCache index) × (net : IpHdr) × IsIndexed index laws c
        × (cached_haddr index c route.r_iface ≢ none)
        × (ip_input host trees index handlers ip_fragment_input st t
              (some e_hdr)
              (ip_hton host (send_hdr ip_global_id route dst ip_proto_icmp (length request)) [])
              request
              (sizeof_ip_hdr + length request)
            ≡ returns (record st { arp = c }, t, reply net answer (length request + sizeof_ip_hdr)))
        × IsReplyTo host
            (received_hdr host ip_global_id route dst ip_proto_icmp request)
            (length request)
            net
        × (ip_hdr_checksum host net [] sizeof_ip_hdr ≡ 0)
        × (checksum_words host (words_of host answer) ≡ 0)
  echo_request_answered st t e_hdr ip_global_id route dst code b2 b3 rest there indexed free_slot
        nonzero i d cd b long small found_route found =
      let request : List ℕ = request_bytes code b2 b3 rest in
      let answer : List ℕ = reply_bytes host code rest in
      let ip : IpHdr = received_hdr host ip_global_id route dst ip_proto_icmp request in
      let v : IsHdr ip =
        received_hdr-IsHdr host ip_global_id route dst ip_proto_icmp request i d (omega arith) in
      let hlen = received_hlen host ip_global_id route dst ip_proto_icmp request in
      let n : length request ≡ 4 + length rest = omega arith in
      let (c, keeps, known, handled) =
        ip_input_received host trees index handlers ip_fragment_input laws st t e_hdr ip_global_id
          route dst ip_proto_icmp request there (icmp_proto host T) indexed free_slot nonzero i d
          (omega arith) (omega arith) found_route found in
      let net : IpHdr = (ip_reply_header host ip [] (length request)).0 in
      let (fields, size) = reply_hdr_fields host ip (length request) v hlen (omega arith) in
      let after : IpState trees index S
          → T × List ℕ × Ret
          → Outcome (IpState trees index S × T × IpOutput) =
        λ s r. returns (s, r.0, handler_output host ip request (length request) [] r.1 r.2) in
      let out : handler_output host ip request (length request) [] answer (done (4 + length rest))
          ≡ reply net answer (length request + sizeof_ip_hdr) =
        ap (λ m. handler_output host ip request (length request) [] answer (done m)) (sym n)
        ∙ handler_output_reply host ip request (length request) answer (length request)
            (omega arith)
        ∙ ap (reply net answer) size in
      (
        c,
        net,
        keeps,
        known,
        handled
            ∙ ap (after (record st { arp = c }))
                (icmp_handler-request host t ip code b2 b3 rest (length request) long)
            ∙ ap (λ o. returns (record st { arp = c }, t, o)) out,
        fields,
        reply_hdr_verifies host ip (length request) v hlen,
        reply_bytes_verify host code rest cd b,
      )
