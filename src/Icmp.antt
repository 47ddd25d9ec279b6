-- ===== src/Icmp.antt =====
-- ICMP: src/icmp.c and src/nstack_icmp.h. A message is its type, code and checksum and the bytes
-- behind them; the checksum is a word as it is stored in memory.
pub mod Laws
pub mod Bytes
use nstack.Base.{
  ℕ, zero, suc, ◌+◌, ◌-◌, ◌*◌, ◌/◌, ◌%◌, ◌^◌, List, [], ◌∷◌, ◌++◌, replicate, Bool, ltb, leb, ◌==◌,
  min, length, take, drop, if◌then◌else◌,
}
use nstack.Base.Errno.{Errno, ebadmsg, enomsg, Ret, done, fail}
use nstack.Host.{Host, halves}
use nstack.Checksum.{words_of, checksum_words, ip_checksum}
use nstack.Ip.Header.{IpHdr, ip_hton, ip_hdr_hlen, ip_reply_header, ip_vhl_default, ip_tos_default}

-- `struct icmp`, with `icmp_rest` and `icmp_data` as bytes.
pub record Icmp : Type 0 where
  pub icmp_type : ℕ
  pub icmp_code : ℕ
  pub icmp_csum : ℕ
  pub icmp_data : List ℕ

-- `struct icmp_destunreac`: the message, the header of the packet that it is about, and the data.
pub record IcmpDestunreac : Type 0 where
  pub icmp : Icmp
  pub old_ip_hdr : IpHdr
  pub bytes : List ℕ

abbrev pub icmp_type_echo_reply : ℕ
icmp_type_echo_reply = 0

abbrev pub icmp_type_destunreac : ℕ
icmp_type_destunreac = 3

abbrev pub icmp_type_echo_request : ℕ
icmp_type_echo_request = 8

-- `sizeof(struct icmp)` and `sizeof(struct icmp_destunreac)`.
abbrev pub sizeof_icmp : ℕ
sizeof_icmp = 8

abbrev pub sizeof_destunreac : ℕ
sizeof_destunreac = 36

-- The size of a message: four bytes before `icmp_rest`.
abbrev pub icmp_size : Icmp → ℕ
icmp_size msg = 4 + length msg.icmp_data

module _ (host : Host) where
  open host use {load16}

  -- A message in memory as 16-bit words.
  unfoldable pub icmp_words : Icmp → List ℕ
  icmp_words msg = load16 msg.icmp_type msg.icmp_code ∷ msg.icmp_csum ∷ words_of host msg.icmp_data

  -- The echo request turned into its reply, in place.
  unfoldable pub echo_reply : Icmp → Icmp
  unfolding icmp_words
  echo_reply msg =
      let blank : Icmp = record msg { icmp_type = icmp_type_echo_reply; icmp_csum = 0 } in
      record blank { icmp_csum = checksum_words host (icmp_words blank) }

  -- `icmp_input`: the payload as it is left, and the result.
  unfoldable pub icmp_input : Icmp → Icmp × Ret
  unfolding echo_reply
  icmp_input msg =
      if ltb (icmp_size msg) sizeof_icmp
      then (msg, fail ebadmsg)
      else if msg.icmp_type == icmp_type_echo_request
      then (echo_reply msg, done (icmp_size msg))
      else (msg, fail enomsg)

  -- The memory over which `icmp_generate_dest_unreachable` takes the checksum: the data has been
  -- moved and the message's own header has been written, the old IP header has not. `buf` is the memory
  -- from the payload on, which may go on behind the packet; where it ends, zeros follow.
  unfoldable pub destunreac_memory : ℕ → List ℕ → ℕ → List ℕ
  destunreac_memory code buf size =
      let memory = buf ++ replicate (sizeof_destunreac + 8) 0 in
      take (sizeof_destunreac + size) (
        icmp_type_destunreac ∷ code ∷ 0 ∷ 0 ∷ 0 ∷ 0 ∷ 0 ∷ 0 ∷ drop 8 (take 28 memory)
        ++ take size memory
        ++ drop (28 + size) memory)

  -- `icmp_generate_dest_unreachable`: the header of the packet in network order, the message, and the
  -- number that is returned.
  unfoldable pub icmp_generate_dest_unreachable :
      IpHdr → ℕ → List ℕ → ℕ → IpHdr × IcmpDestunreac × ℕ
  unfolding destunreac_memory
  icmp_generate_dest_unreachable hdr code buf bsize =
      let size = min 8 bsize in
      let msg_size = sizeof_destunreac + size in
      let msg : Icmp = record {
        icmp_type = icmp_type_destunreac;
        icmp_code = code;
        icmp_csum = ip_checksum host (destunreac_memory code buf size);
        icmp_data = 0 ∷ 0 ∷ 0 ∷ 0 ∷ [];
      } in
      let old = ip_hton host hdr (take size buf) in
      let hdr' : IpHdr = record hdr {
        ip_vhl = ip_vhl_default;
        ip_tos = ip_tos_default;
        ip_proto = 1;
      } in
      let (net, size') = ip_reply_header host hdr' [] msg_size in
      (net, record { icmp = msg; old_ip_hdr = old; bytes = take size buf }, msg_size + size')
