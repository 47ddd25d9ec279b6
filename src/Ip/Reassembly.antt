-- ===== src/Ip/Reassembly.antt =====
-- src/ip_fragment.c: the map of the received parts of a packet, the four packet buffers and
-- `ip_fragment_input`. The search tree holds the buffers that are reserved, so RB_FIND is a search
-- among these. The functions of src/ip.c that are called for a complete packet are arguments.
pub mod Laws
pub mod Buffers
pub mod Steps
pub mod Receive
use nstack.Base.{
  ℕ, zero, suc, ◌+◌, ◌-◌, ◌*◌, ◌/◌, ◌%◌, ◌^◌, List, [], ◌∷◌, Bool, true, false, not, ◌&&◌, Option,
  none, some, ltb, leb, ◌==◌, u16, test_bit, get_or, set, length, if◌then◌else◌,
}
use nstack.Base.Int.{ℤ, pos, neg_part, pos_part, ◌-ℤ◌}
use nstack.Base.Errno.{emsgsize, enobufs, Ret, done, fail}
use nstack.Base.Outcome.{Fault, out_of_bounds, Outcome, returns, faults}
use nstack.Host.{Host}
use nstack.Ip.Header.{IpHdr, ip_hdr_hlen, ip_ntoh}

-- `struct packet_buf`, without its tree links: the map is one bit for each 8 bytes.
pub record PacketBuf : Type 0 where
  pub reserved : Bool
  pub timer : ℤ
  pub fragmap : ℕ → Bool
  pub ip_hdr : IpHdr
  pub payload : ℕ → ℕ

-- `IP_MAX_BYTES` and `NSTACK_IP_FRAGMENT_TLB`.
abbrev pub ip_max_bytes : ℕ
ip_max_bytes = 65535

abbrev pub ip_fragment_tlb : ℤ
ip_fragment_tlb = pos 15

-- `packet_buf_cmp` gives 0.
unfoldable pub same_packet : IpHdr → IpHdr → Bool
same_packet a b =
    a.ip_src == b.ip_src && a.ip_dst == b.ip_dst && a.ip_proto == b.ip_proto && a.ip_id == b.ip_id

-- `fragmap_init`: `memset` clears FRAG_MAP_SIZE bytes, which are 2048 bits of the map.
unfoldable pub fragmap_init : (ℕ → Bool) → ℕ → Bool
fragmap_init fragmap i = if ltb i 2048 then false else fragmap i

-- `fragmap_set`, `fragmap_clear` and `fragmap_tst`.
unfoldable pub fragmap_set : (ℕ → Bool) → ℕ → ℕ → Bool
fragmap_set fragmap i j = if j == i then true else fragmap j

unfoldable pub fragmap_clear : (ℕ → Bool) → ℕ → ℕ → Bool
fragmap_clear fragmap i j = if j == i then false else fragmap j

abbrev pub fragmap_tst : (ℕ → Bool) → ℕ → Bool
fragmap_tst fragmap i = fragmap i

-- The loop of `ip_fragment_input` that sets the bits of `n` units from unit `i` on.
unfoldable pub set_units : (ℕ → Bool) → ℕ → ℕ → ℕ → Bool
unfolding fragmap_set
set_units fragmap i zero = fragmap
set_units fragmap i (suc n) = set_units (fragmap_set fragmap i) (i + 1) n

-- The loop that tests the units below `n`.
unfoldable pub all_units : (ℕ → Bool) → ℕ → Bool
all_units fragmap zero = true
all_units fragmap (suc n) = let rest = all_units fragmap n in fragmap_tst fragmap n && rest

-- `memcpy(p->payload + off, rx_packet, len)`.
unfoldable pub copy_payload : (ℕ → ℕ) → ℕ → List ℕ → ℕ → ℕ
copy_payload payload off buf j =
    if leb off j && ltb j (off + length buf) then get_or buf (j - off) 0 else payload j

-- The offset of a fragment, and its flag MF.
abbrev pub fragment_off : IpHdr → ℕ
fragment_off hdr = hdr.ip_foff % 2 ^ 13 * 8

abbrev pub more_fragments : IpHdr → Bool
more_fragments hdr = test_bit hdr.ip_foff 13

-- What `ip_fragment_input` stores of a fragment: the bytes, their bits, and the header or the length.
unfoldable pub store_fragment : PacketBuf → IpHdr → List ℕ → PacketBuf
unfolding copy_payload set_units test_bit
store_fragment p hdr buf =
    let off = fragment_off hdr in
    let stored : PacketBuf = record p {
      payload = copy_payload p.payload off buf;
      fragmap = set_units p.fragmap (off / 8) ((length buf + 7) / 8);
    } in
    if off == 0
    then record stored { ip_hdr = record hdr { ip_len = 0; ip_foff = 0 } }
    else if more_fragments hdr
    then stored
    else record stored { ip_hdr = record p.ip_hdr { ip_len = u16 (length buf + off) } }

-- Whether the length is known and every unit has been received.
unfoldable pub is_complete : PacketBuf → Bool
unfolding all_units
is_complete p = not (p.ip_hdr.ip_len == 0) && all_units p.fragmap ((p.ip_hdr.ip_len + 7) / 8)

-- RB_FIND, and the loop that reserves a buffer.
unfoldable pub find_buffer : List PacketBuf → IpHdr → ℕ → Option ℕ
unfolding same_packet
find_buffer [] hdr i = none
find_buffer (p ∷ bufs) hdr i =
    let rest = find_buffer bufs hdr (i + 1) in
    if p.reserved && same_packet p.ip_hdr hdr then some i else rest

unfoldable pub free_buffer : List PacketBuf → ℕ → Option ℕ
free_buffer [] i = none
free_buffer (p ∷ bufs) i =
    let rest = free_buffer bufs (i + 1) in if p.reserved then rest else some i

abbrev pub no_buffer : PacketBuf
no_buffer = record {
  reserved = false;
  timer = pos 0;
  fragmap = λ i. false;
  ip_hdr = record {
    ip_vhl = 0;
    ip_tos = 0;
    ip_len = 0;
    ip_id = 0;
    ip_foff = 0;
    ip_ttl = 0;
    ip_proto = 0;
    ip_csum = 0;
    ip_src = 0;
    ip_dst = 0;
  };
  payload = λ i. 0;
}

abbrev pub buffer_at : List PacketBuf → ℕ → PacketBuf
buffer_at bufs i = get_or bufs i no_buffer

-- A buffer that is reserved for the packet of a fragment.
unfoldable pub fresh_buffer : PacketBuf → IpHdr → PacketBuf
unfolding fragmap_init
fresh_buffer p hdr = record p {
  reserved = true;
  fragmap = fragmap_init p.fragmap;
  timer = ip_fragment_tlb;
  ip_hdr = record hdr { ip_foff = 0; ip_len = 0 };
}

-- `get_packet_buffer`: the buffers and the index of the one for the packet; `none` is NULL.
unfoldable pub get_packet_buffer : List PacketBuf → IpHdr → Option (List PacketBuf × ℕ)
unfolding find_buffer free_buffer fresh_buffer
get_packet_buffer bufs hdr =
    let allocated : Option (List PacketBuf × ℕ) = elim (free_buffer bufs 0) [
      | none ↦ none
      | some i ↦ some (set bufs i (fresh_buffer (buffer_at bufs i) hdr), i)
    ] in
    elim (find_buffer bufs hdr 0) [ some i ↦ some (bufs, i) | none ↦ allocated ]

-- `release_packet_buffer`.
unfoldable pub release_packet_buffer : List PacketBuf → ℕ → List PacketBuf
release_packet_buffer bufs i = set bufs i (record (buffer_at bufs i) { reserved = false })

-- `ip_fragment_timer`.
unfoldable pub ip_fragment_timer : ℤ → List PacketBuf → List PacketBuf
ip_fragment_timer delta_time [] = []
ip_fragment_timer delta_time (p ∷ bufs) =
    let rest = ip_fragment_timer delta_time bufs in
    let left = p.timer -ℤ delta_time in
    let aged : PacketBuf = record p { timer = left } in
    if not p.reserved
    then p ∷ rest
    else if pos_part left == 0
    then record aged { reserved = false } ∷ rest
    else aged ∷ rest

module _ (host : Host) {S : Type 0} (ip_input : S → IpHdr → (ℕ → ℕ) → ℕ → S × IpHdr × (ℕ → ℕ) × ℤ)
    (ip_send : S → ℕ → ℕ → (ℕ → ℕ) → ℤ → S) where
  -- What `ip_fragment_input` does with a complete packet: `ip_input` gets it with the length of its
  -- payload as the size, and what comes back, in the buffer, is sent.
  unfoldable pub deliver_packet : S → PacketBuf → S × PacketBuf
  deliver_packet s p =
      let (s', hdr, payload, retval) = ip_input s p.ip_hdr p.payload p.ip_hdr.ip_len in
      let back = (ip_ntoh host hdr).0 in
      (
        ip_send s' back.ip_dst back.ip_proto payload retval,
        record p { ip_hdr = back; payload = payload },
      )

  -- The buffer is released after that.
  abbrev pub delivered : List PacketBuf → ℕ → S × PacketBuf → Outcome (S × List PacketBuf × Ret)
  delivered bufs i (s, p) = returns (s, release_packet_buffer (set bufs i p) i, done 0)

  -- What follows where a buffer was found.
  unfoldable pub receive_fragment :
      S → IpHdr → List ℕ → List PacketBuf × ℕ → Outcome (S × List PacketBuf × Ret)
  receive_fragment s hdr buf (bufs, i) =
      let p = store_fragment (buffer_at bufs i) hdr buf in
      if ltb ip_max_bytes (fragment_off hdr + length buf)
      then faults out_of_bounds
      else if is_complete p
      then delivered (set bufs i p) i (deliver_packet s p)
      else returns (s, set bufs i p, done 0)

  -- `ip_fragment_input`; `buf` has the `ip_len` bytes less the header's.
  unfoldable pub ip_fragment_input :
      S → List PacketBuf → IpHdr → List ℕ → Outcome (S × List PacketBuf × Ret)
  ip_fragment_input s bufs hdr buf =
      let stored : Outcome (S × List PacketBuf × Ret) = elim (get_packet_buffer bufs hdr) [
        | none ↦ returns (s, bufs, fail enobufs)
        | some found ↦ receive_fragment s hdr buf found
      ] in
      if ltb ip_max_bytes (fragment_off hdr) then returns (s, bufs, fail emsgsize) else stored
