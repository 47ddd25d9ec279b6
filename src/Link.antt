-- ===== src/Link.antt =====
-- What the stack hands to the Ethernet driver, and the driver's operations of src/nstack_ether.h as
-- the rest of the stack calls them. A hardware address is a number of 48 bits.
use nstack.Base.{ℕ, List}
use nstack.Base.Int.{ℤ}
use nstack.Arp.{ArpIp}
use nstack.Ip.Header.{IpHdr}

-- The bytes behind an Ethernet header: an ARP message, or an IP header without options and its data.
pub data Packet : Type 0 where
  arp_packet : ArpIp → Packet
  ip_packet : IpHdr → List ℕ → Packet

-- `ether_send` of a packet of so many bytes to a hardware address; a result below 0 is a negated error
-- number. `ether_handle2addr` of a handle that the driver knows.
pub record Driver (S : Type 0) : Type 0 where
  pub ether_handle2addr : ℕ → ℕ
  pub ether_send : S → ℕ → ℕ → ℕ → Packet → ℕ → S × ℤ

-- `mac_broadcast_addr`.
abbrev pub mac_broadcast_addr : ℕ
mac_broadcast_addr = 0xffffffffffff

-- `ETHER_DATA_LEN` and `ETHER_PROTO_ARP`.
abbrev pub ether_data_len : ℕ
ether_data_len = 1500

abbrev pub ether_proto_arp : ℕ
ether_proto_arp = 0x0806
