-- ===== src/Ip/Header.antt =====
-- The packet header of src/nstack_ip.h and its conversions in src/ip.c. `IpHdr` is the struct as it
-- stands in memory, in host or in network order; the options behind it are bytes of their own.
pub mod Laws
use nstack.Base.{
  ℕ, zero, suc, ◌+◌, ◌-◌, ◌*◌, ◌/◌, ◌%◌, ◌^◌, List, [], ◌∷◌, ◌++◌, Bool, u16, ◌==◌, ◌||◌, test_bit,
  take, leb, if◌then◌else◌,
}
use nstack.Host.{Host, halves}
use nstack.Checksum.{words_of, checksum_words}

-- `struct ip_hdr`.
pub record IpHdr : Type 0 where
  pub ip_vhl : ℕ
  pub ip_tos : ℕ
  pub ip_len : ℕ
  pub ip_id : ℕ
  pub ip_foff : ℕ
  pub ip_ttl : ℕ
  pub ip_proto : ℕ
  pub ip_csum : ℕ
  pub ip_src : ℕ
  pub ip_dst : ℕ

abbrev pub ip_vhl_default : ℕ
ip_vhl_default = 0x45

abbrev pub ip_tos_default : ℕ
ip_tos_default = 0

abbrev pub ip_toff_default : ℕ
ip_toff_default = 0x4000

abbrev pub ip_ttl_default : ℕ
ip_ttl_default = 64

abbrev pub ip_flags_mf : ℕ
ip_flags_mf = 0x2000

-- `ip_hdr_hlen`: `(ip_vhl & 0x0f) * 4`.
unfoldable pub ip_hdr_hlen : IpHdr → ℕ
ip_hdr_hlen ip = ip.ip_vhl % 16 * 4

-- `ip_fragment_is_frag`: the flag MF, or an offset that is not 0.
unfoldable pub ip_fragment_is_frag : IpHdr → Bool
ip_fragment_is_frag ip = test_bit ip.ip_foff 13 || leb 1 (ip.ip_foff % 2 ^ 13)

-- What `ip_reply_header` stores in host order before it calls `ip_hton`.
unfoldable pub reply_fields : IpHdr → ℕ → IpHdr
reply_fields ip bsize = record ip {
  ip_src = ip.ip_dst;
  ip_dst = ip.ip_src;
  ip_ttl = ip_ttl_default;
  ip_len = u16 (bsize + ip_hdr_hlen ip);
}

module _ (host : Host) where
  open host use {htons, ntohs, htonl, ntohl, load16}

  -- The header in memory as 16-bit words.
  unfoldable pub ip_hdr_words : IpHdr → List ℕ
  ip_hdr_words ip =
      load16 ip.ip_vhl ip.ip_tos
        ∷ ip.ip_len
        ∷ ip.ip_id
        ∷ ip.ip_foff
        ∷ load16 ip.ip_ttl ip.ip_proto
        ∷ ip.ip_csum
        ∷ halves ip.ip_src
      ++ halves ip.ip_dst

  -- The checksum over the first `hlen` bytes: the header, then the bytes behind it.
  unfoldable pub ip_hdr_checksum : IpHdr → List ℕ → ℕ → ℕ
  unfolding ip_hdr_words
  ip_hdr_checksum ip behind hlen =
      checksum_words host (take (hlen / 2) (ip_hdr_words ip ++ words_of host behind))

  -- The fields as `ip_hton` stores them, before the checksum.
  unfoldable pub ip_hton_fields : IpHdr → IpHdr
  ip_hton_fields ip = record ip {
    ip_len = htons ip.ip_len;
    ip_id = htons ip.ip_id;
    ip_foff = htons ip.ip_foff;
    ip_csum = 0;
    ip_src = htonl ip.ip_src;
    ip_dst = htonl ip.ip_dst;
  }

  -- `ip_hton`, with the bytes that stand behind the header in memory.
  unfoldable pub ip_hton : IpHdr → List ℕ → IpHdr
  unfolding ip_hton_fields
  ip_hton ip behind =
      let net = ip_hton_fields ip in
      record net { ip_csum = ip_hdr_checksum net behind (ip_hdr_hlen ip) }

  -- `ip_ntoh`: the header, and its length as the result.
  unfoldable pub ip_ntoh : IpHdr → IpHdr × ℕ
  ip_ntoh net =
      let ip : IpHdr = record net {
        ip_len = ntohs net.ip_len;
        ip_id = ntohs net.ip_id;
        ip_foff = ntohs net.ip_foff;
        ip_src = ntohl net.ip_src;
        ip_dst = ntohl net.ip_dst;
      } in
      (ip, ip_hdr_hlen ip)

  -- `ip_reply_header`: the header in network order, and the size of the packet as the result.
  unfoldable pub ip_reply_header : IpHdr → List ℕ → ℕ → IpHdr × ℕ
  unfolding reply_fields
  ip_reply_header ip behind bsize = (ip_hton (reply_fields ip bsize) behind, bsize + ip_hdr_hlen ip)
