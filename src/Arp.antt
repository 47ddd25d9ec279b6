-- ===== src/Arp.antt =====
-- ARP messages: `struct arp_ip` of src/nstack_arp.h, the conversions, `arp_request` and
-- `arp_gratuitous` of src/arp.c. A hardware address is a number of 48 bits.
pub mod Laws
pub mod Cache
pub mod Resolve
pub mod Input
use nstack.Base.{ℕ, List, Bool, if◌then◌else◌}
use nstack.Base.Int.{ℤ, pos, neg_part}
use nstack.Base.{ltb}
use nstack.Host.{Host}

-- `struct arp_ip`.
pub record ArpIp : Type 0 where
  pub arp_htype : ℕ
  pub arp_ptype : ℕ
  pub arp_hlen : ℕ
  pub arp_plen : ℕ
  pub arp_oper : ℕ
  pub arp_sha : ℕ
  pub arp_spa : ℕ
  pub arp_tha : ℕ
  pub arp_tpa : ℕ

-- `ARP_OPER_REQUEST` and `ETHER_PROTO_IPV4`.
abbrev pub arp_oper_request : ℕ
arp_oper_request = 1

abbrev pub ether_proto_ipv4 : ℕ
ether_proto_ipv4 = 0x0800

-- The message that `arp_request` and `arp_gratuitous` fill in, in host order.
unfoldable pub request_msg : ℕ → ℕ → ℕ → ArpIp
request_msg sha spa tpa = record {
  arp_htype = 1;
  arp_ptype = ether_proto_ipv4;
  arp_hlen = 6;
  arp_plen = 4;
  arp_oper = arp_oper_request;
  arp_sha = sha;
  arp_spa = spa;
  arp_tha = 0;
  arp_tpa = tpa;
}

module _ (host : Host) where
  open host use {htons, ntohl}

  -- `arp_hton`, which calls `htons` and `ntohl`.
  unfoldable pub arp_hton : ArpIp → ArpIp
  arp_hton msg = record msg {
    arp_htype = htons msg.arp_htype;
    arp_ptype = htons msg.arp_ptype;
    arp_oper = htons msg.arp_oper;
    arp_spa = ntohl msg.arp_spa;
    arp_tpa = ntohl msg.arp_tpa;
  }

  -- `arp_ntoh`, which calls `htons` and `ntohl`.
  unfoldable pub arp_ntoh : ArpIp → ArpIp
  arp_ntoh net = record net {
    arp_htype = htons net.arp_htype;
    arp_ptype = htons net.arp_ptype;
    arp_oper = htons net.arp_oper;
    arp_spa = ntohl net.arp_spa;
    arp_tpa = ntohl net.arp_tpa;
  }

  module _ {S : Type 0} (ether_send : S → ArpIp → S × ℤ) where
    -- `arp_request` on an interface with the hardware address `sha`.
    unfoldable pub arp_request : ℕ → ℕ → ℕ → S → S × ℤ
    unfolding request_msg arp_hton
    arp_request sha spa tpa s =
        let (s', ret) = ether_send s (arp_hton (request_msg sha spa tpa)) in
        (s', if ltb 0 (neg_part ret) then ret else pos 0)

    -- `arp_gratuitous`: an error is only logged.
    unfoldable pub arp_gratuitous : ℕ → ℕ → S → S × ℤ
    unfolding request_msg arp_hton
    arp_gratuitous sha spa s =
        let (s', ret) = ether_send s (arp_hton (request_msg sha spa spa)) in (s', pos 0)
