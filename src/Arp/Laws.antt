-- ===== src/Arp/Laws.antt =====
-- What the receiver of an ARP request reads.
use nstack.Base.{◌⊎◌, ℕ, ◌<◌, ◌^◌, ◌≡◌, refl, arith, sym, ◌∙◌, ap}
use nstack.Base.Int.{ℤ, pos, neg_part}
use nstack.Host.{Host}
use nstack.Arp.{ArpIp, request_msg, arp_hton, arp_ntoh, arp_request, arp_gratuitous}

module _ (host : Host) where
  -- Where `htons` and `ntohs`, and `htonl` and `ntohl`, are the same functions, an ARP request that is
  -- sent is read by its receiver as a request for the address in question, from the sender's addresses;
  -- the result is 0 unless the frame could not be sent. The announcement of an address is the request
  -- for that address, and its result is always 0.
  pub arp_request_lem :
      {S : Type 0} (ether_send : S → ArpIp → S × ℤ) (sha spa tpa : ℕ) (s : S)
      → ((x : ℕ) → host.htons x ≡ host.ntohs x)
      → ((x : ℕ) → host.htonl x ≡ host.ntohl x)
      → spa < 2 ^ 32
      → tpa < 2 ^ 32
      → (net : ArpIp) × (arp_ntoh host net ≡ request_msg sha spa tpa)
        × ((arp_request host ether_send sha spa tpa s).0 ≡ (ether_send s net).0)
        × (((0 < neg_part (ether_send s net).1)
              × ((arp_request host ether_send sha spa tpa s).1 ≡ (ether_send s net).1))
            ⊎ ((neg_part (ether_send s net).1 ≡ 0)
                × ((arp_request host ether_send sha spa tpa s).1 ≡ pos 0)))
        × ((arp_gratuitous host ether_send sha spa s).0
            ≡ (arp_request host ether_send sha spa spa s).0)
        × ((arp_gratuitous host ether_send sha spa s).1 ≡ pos 0)
  unfolding arp_ntoh arp_request arp_gratuitous
  arp_request_lem ether_send sha spa tpa s same16 same32 h k =
      let twice16 : (x : ℕ) → x < 2 ^ 16 → host.htons (host.htons x) ≡ x =
        λ x p. same16 (host.htons x) ∙ host.ntohs-htons x p in
      let twice32 : (x : ℕ) → x < 2 ^ 32 → host.ntohl (host.ntohl x) ≡ x =
        λ x p. ap host.ntohl (sym (same32 x)) ∙ host.ntohl-htonl x p in
      (
        arp_hton host (request_msg sha spa tpa),
        rw (twice16 1 (omega arith), twice16 0x800 (omega arith), twice32 spa h, twice32 tpa k)
            refl,
        refl,
        ground arith,
        refl,
        refl,
      )
