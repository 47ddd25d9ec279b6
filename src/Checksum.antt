-- ===== src/Checksum.antt =====
-- The Internet checksum as the stack computes it: `ip_checksum` (src/ip.c), `tcp_checksum`
-- (src/tcp.c) and `udp_checksum` (src/udp.c). Sums are over the 16-bit words of the memory.
pub mod Laws
use nstack.Base.{
  ℕ, zero, suc, ◌+◌, ◌-◌, ◌*◌, ◌/◌, ◌%◌, ◌^◌, List, [], ◌∷◌, ◌++◌, Bool, true, false, Option, none,
  some, u16, u32, ltb, ◌==◌, if◌then◌else◌,
}
use nstack.Host.{Host, halves}

module _ (host : Host) where
  open host use {htons, ntohs, htonl, load16}

  -- `acc += word; if (acc > 0xffff) acc -= ntohs(0xffff);` on a `uint32_t`.
  pub add_word : ℕ → ℕ → ℕ
  add_word acc word =
      let sum = u32 (acc + word) in if ltb 0xffff sum then sum - ntohs 0xffff else sum

  -- The rounds over the 16-bit words.
  pub add_words : ℕ → List ℕ → ℕ
  add_words acc [] = acc
  add_words acc (word ∷ words) = add_words (add_word acc word) words

  -- The words that the loops load from a byte buffer; the last odd byte is loaded into a zeroed word.
  pub words_of : List ℕ → List ℕ
  words_of [] = []
  words_of (b ∷ []) = load16 b 0 ∷ []
  words_of (b ∷ c ∷ bytes) = load16 b c ∷ words_of bytes

  -- `return ~acc;` as a `uint16_t`.
  abbrev pub complement : ℕ → ℕ
  complement acc = 0xffff - acc % 2 ^ 16

  -- The checksum of a memory by its words.
  pub checksum_words : List ℕ → ℕ
  checksum_words words = complement (add_words 0xffff words)

  -- `ip_checksum`.
  pub ip_checksum : List ℕ → ℕ
  unfolding checksum_words words_of
  ip_checksum bytes = checksum_words (words_of bytes)

  -- The pseudo header of `tcp_checksum`: addresses, a zero byte before the protocol, the length.
  pub pseudo_words : ℕ → ℕ → ℕ → ℕ → List ℕ
  pseudo_words src_addr dst_addr proto len =
      halves (htonl src_addr) ++ halves (htonl dst_addr) ++ load16 0 proto ∷ htons (u16 len) ∷ []

  -- `tcp_checksum` of a segment given by the words of its header and the bytes behind it.
  pub tcp_checksum : ℕ → ℕ → List ℕ → ℕ → ℕ
  unfolding pseudo_words
  tcp_checksum src_addr dst_addr segment bsize =
      complement (add_words (add_words 0xffff (pseudo_words src_addr dst_addr 6 bsize)) segment)
