-- ===== src/Ip/Header/Laws.antt =====
-- Conversion to network order and back, the checksum of a header that is sent, and replies.
use nstack.Base.{
  ℕ, zero, suc, ◌+◌, ◌-◌, ◌/◌, ◌^◌, ◌≤◌, ◌<◌, ◌≡◌, refl, ap, List, [], ◌∷◌, ◌++◌, arith, take,
}
use nstack.Host.{Host, halves}
use nstack.Checksum.{words_of}
use nstack.Checksum.Laws.{
  AllWords, AllBytes, words_of-AllWords, checksum_words_verifies, checksum_words_word,
}
use nstack.Ip.Header.{
  IpHdr, ip_hdr_hlen, ip_hdr_checksum, ip_hton, ip_ntoh, reply_fields, ip_reply_header,
}

-- Every field fits its C type.
pub record IsHdr (ip : IpHdr) : Type 0 where
  pub vhl : ip.ip_vhl < 2 ^ 8
  pub tos : ip.ip_tos < 2 ^ 8
  pub len : ip.ip_len < 2 ^ 16
  pub id : ip.ip_id < 2 ^ 16
  pub foff : ip.ip_foff < 2 ^ 16
  pub ttl : ip.ip_ttl < 2 ^ 8
  pub proto : ip.ip_proto < 2 ^ 8
  pub csum : ip.ip_csum < 2 ^ 16
  pub src : ip.ip_src < 2 ^ 32
  pub dst : ip.ip_dst < 2 ^ 32

AllWords-take : (n : ℕ) (ws : List ℕ) → AllWords ws → AllWords (take n ws)
AllWords-take zero ws h = tt
AllWords-take (suc n) [] h = tt
AllWords-take (suc n) (w ∷ ws) h = (h.0, AllWords-take n ws h.1)

pub reply_fields-IsHdr : (ip : IpHdr) (bsize : ℕ) → IsHdr ip → IsHdr (reply_fields ip bsize)
unfolding reply_fields
reply_fields-IsHdr ip bsize v = ground arith

module _ (host : Host) where
  open host use {
    htons, ntohs, htonl, ntohl, load16, ntohs-htons, htons-ntohs, ntohl-htonl, htonl-ntohl,
    htons-lt, htonl-lt, ntohs-lt, ntohl-lt, load16-lt,
  }

  -- A header whose fields fit their widths is the same but for the checksum when it is converted
  -- to network order and back, and its length is reported.
  pub ip_ntoh-ip_hton :
      (ip : IpHdr) (behind : List ℕ)
      → IsHdr ip
      → ip_ntoh host (ip_hton host ip behind)
        ≡ (record ip { ip_csum = (ip_hton host ip behind).ip_csum }, ip_hdr_hlen ip)
  unfolding ip_ntoh ip_hton ip_hdr_hlen
  ip_ntoh-ip_hton ip behind v = rw (
    ntohs-htons ip.ip_len v.len,
    ntohs-htons ip.ip_id v.id,
    ntohs-htons ip.ip_foff v.foff,
    ntohl-htonl ip.ip_src v.src,
    ntohl-htonl ip.ip_dst v.dst,
  )

  pub ip_hton_csum-lt : (ip : IpHdr) (behind : List ℕ) → (ip_hton host ip behind).ip_csum < 2 ^ 16
  unfolding ip_hton ip_hdr_checksum
  ip_hton_csum-lt ip behind = checksum_words_word host _

  -- A header whose fields fit their widths, followed by bytes, verifies when `ip_hton` has
  -- converted it, options included: the checksum over its length is 0, if that is at least 20.
  pub ip_hton_verifies :
      (ip : IpHdr) (behind : List ℕ)
      → IsHdr ip
      → AllBytes behind
      → 20 ≤ ip_hdr_hlen ip
      → ip_hdr_checksum host (ip_hton host ip behind) behind (ip_hdr_hlen ip) ≡ 0
  unfolding ip_hton ip_hdr_checksum
  ip_hton_verifies ip behind v b h =
      let m = ip_hdr_hlen ip / 2 - 6 in
      let e : ip_hdr_hlen ip / 2 ≡ suc (suc (suc (suc (suc (suc m))))) = omega arith in
      let address_words = halves (htonl ip.ip_src) ++ halves (htonl ip.ip_dst) in
      rw e (
        checksum_words_verifies host
          (load16 ip.ip_vhl ip.ip_tos
            ∷ htons ip.ip_len
            ∷ htons ip.ip_id
            ∷ htons ip.ip_foff
            ∷ load16 ip.ip_ttl ip.ip_proto
            ∷ [])
          (take m (address_words ++ words_of host behind))
          (
            load16-lt ip.ip_vhl ip.ip_tos v.vhl v.tos,
            (
              htons-lt ip.ip_len v.len,
              (
                htons-lt ip.ip_id v.id,
                (htons-lt ip.ip_foff v.foff, (load16-lt ip.ip_ttl ip.ip_proto v.ttl v.proto, tt)),
              ),
            ),
          )
          (AllWords-take m (address_words ++ words_of host behind) (
            omega arith,
            (
              omega (arith, htonl-lt ip.ip_src v.src),
              (
                omega arith,
                (omega (arith, htonl-lt ip.ip_dst v.dst), words_of-AllWords host behind b),
              ),
            ),
          )))

  -- For a header whose fields fit their widths and a packet of less than 65536 bytes, a reply that
  -- the receiver decodes has the addresses exchanged, the default time to live and the length of
  -- the whole packet; the result is that length, and the rest of the header stays.
  pub ip_reply_header_lem :
      (ip : IpHdr) (behind : List ℕ) (bsize : ℕ)
      → IsHdr ip
      → bsize + ip_hdr_hlen ip < 2 ^ 16
      → let (net, size) = ip_reply_header host ip behind bsize in
        let (reply, hlen) = ip_ntoh host net in
        (size ≡ bsize + ip_hdr_hlen ip)
        × (hlen ≡ ip_hdr_hlen ip)
        × (reply ≡ record ip {
          ip_src = ip.ip_dst;
          ip_dst = ip.ip_src;
          ip_ttl = 64;
          ip_len = bsize + ip_hdr_hlen ip;
          ip_csum = net.ip_csum;
        })
  unfolding ip_reply_header ip_hdr_hlen
  ip_reply_header_lem ip behind bsize v h =
      let back = ip_ntoh-ip_hton (reply_fields ip bsize) behind (reply_fields-IsHdr ip bsize v) in
      (refl, ap (λ (r : IpHdr × ℕ). r.1) back, ground (arith, ap (λ (r : IpHdr × ℕ). r.0) back))
