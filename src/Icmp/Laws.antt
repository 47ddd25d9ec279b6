-- ===== src/Icmp/Laws.antt =====
-- What a host that sends an echo request gets back, and the size of an unreachable message.
use nstack.Base.{ℕ, ◌+◌, ◌≤◌, ◌<◌, ◌≡◌, ◌≢◌, ◌⊎◌, ap, List, [], ◌∷◌, arith, min}
use nstack.Base.Errno.{ebadmsg, enomsg, done, fail}
use nstack.Host.{Host}
use nstack.Checksum.{checksum_words, words_of}
use nstack.Checksum.Laws.{AllBytes, words_of-AllWords, checksum_words_verifies}
use nstack.Ip.Header.{IpHdr, ip_hdr_hlen, ip_ntoh, ip_vhl_default, ip_tos_default}
use nstack.Ip.Header.Laws.{IsHdr, ip_reply_header_lem}
use nstack.Icmp.{
  Icmp, icmp_size, icmp_words, echo_reply, icmp_input, icmp_generate_dest_unreachable,
}

module _ (host : Host) where
  open host use {load16, load16-lt}

  -- The checksum over an echo reply is 0.
  echo_reply_verifies :
      (msg : Icmp)
      → msg.icmp_code < 256
      → AllBytes msg.icmp_data
      → checksum_words host (icmp_words host (echo_reply host msg)) ≡ 0
  unfolding echo_reply icmp_words
  echo_reply_verifies msg c b =
      checksum_words_verifies host (load16 0 msg.icmp_code ∷ []) (words_of host msg.icmp_data)
        (load16-lt 0 msg.icmp_code (omega arith) c, tt) (words_of-AllWords host msg.icmp_data b)

  -- On a message of bytes, `icmp_input` answers an echo request of at least 8 bytes by an echo
  -- reply of the same size, code and data that verifies; it refuses a shorter message and any
  -- other type, which it leaves alone.
  icmp_input_cases :
      (msg : Icmp)
      → msg.icmp_code < 256
      → AllBytes msg.icmp_data
      → let (reply, ret) = icmp_input host msg in
        ((8 ≤ icmp_size msg)
          × (msg.icmp_type ≡ 8)
          × (ret ≡ done (icmp_size msg))
          × (reply.icmp_type ≡ 0)
          × (reply.icmp_code ≡ msg.icmp_code)
          × (reply.icmp_data ≡ msg.icmp_data)
          × (checksum_words host (icmp_words host reply) ≡ 0))
        ⊎ ((icmp_size msg < 8) × (ret ≡ fail ebadmsg) × (reply ≡ msg))
        ⊎ ((8 ≤ icmp_size msg) × (msg.icmp_type ≢ 8) × (ret ≡ fail enomsg) × (reply ≡ msg))
  unfolding icmp_input
  icmp_input_cases msg c b = ground (arith, echo_reply_verifies msg c b)

  -- For a received header whose fields fit their widths, the packet that reports an unreachable
  -- destination goes back to the sender as ICMP, its header says 56 bytes and up to 8 bytes of
  -- data, and the number returned is larger than that length by the size of the message.
  icmp_generate_dest_unreachable_size :
      (hdr : IpHdr) (code : ℕ) (buf : List ℕ) (bsize : ℕ)
      → IsHdr hdr
      → let (net, msg, size) = icmp_generate_dest_unreachable host hdr code buf bsize in
        let (reply, hlen) = ip_ntoh host net in
        (reply.ip_dst ≡ hdr.ip_src)
        × (reply.ip_src ≡ hdr.ip_dst)
        × (reply.ip_proto ≡ 1)
        × (reply.ip_len ≡ 56 + min 8 bsize)
        × (size ≡ reply.ip_len + (36 + min 8 bsize))
  unfolding icmp_generate_dest_unreachable ip_hdr_hlen
  icmp_generate_dest_unreachable_size hdr code buf bsize v =
      let hdr' : IpHdr = record hdr {
        ip_vhl = ip_vhl_default;
        ip_tos = ip_tos_default;
        ip_proto = 1;
      } in
      let (size, hlen, reply) =
        ip_reply_header_lem host hdr' [] (36 + min 8 bsize) (ground arith) (omega arith) in
      (
        ap (λ (r : IpHdr). r.ip_dst) reply,
        ap (λ (r : IpHdr). r.ip_src) reply,
        ap (λ (r : IpHdr). r.ip_proto) reply,
        omega (arith, ap (λ (r : IpHdr). r.ip_len) reply),
        omega (arith, size, ap (λ (r : IpHdr). r.ip_len) reply),
      )
