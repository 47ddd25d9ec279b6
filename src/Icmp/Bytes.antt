-- ===== src/Icmp/Bytes.antt =====
-- `icmp_input` of src/icmp.c on the bytes of the payload, as `ip_input` calls it.
use nstack.Base.{ℕ, ◌+◌, ◌^◌, ◌<◌, ◌≤◌, ◌≡◌, refl, arith, false, List, [], ◌∷◌, ltb, length}
use nstack.Base.Errno.{ebadmsg, Ret, done, fail}
use nstack.Host.{Host}
use nstack.Checksum.{words_of, checksum_words}
use nstack.Checksum.Laws.{
  AllBytes, words_of_pair, words_of-AllWords, checksum_words-lt, checksum_words_verifies,
}
use nstack.Ip.Header.{IpHdr}
use nstack.Icmp.{
  Icmp, icmp_words, echo_reply, icmp_input, icmp_type_echo_request, icmp_type_echo_reply,
}

-- An echo request as bytes.
abbrev pub request_bytes : ℕ → ℕ → ℕ → List ℕ → List ℕ
request_bytes code b2 b3 rest = icmp_type_echo_request ∷ code ∷ b2 ∷ b3 ∷ rest

module _ (host : Host) where
  open host use {load16, first_byte, second_byte, load16-bytes, load16-lt}

  -- The message in memory.
  unfoldable pub store_icmp : Icmp → List ℕ
  store_icmp msg =
      msg.icmp_type
      ∷ msg.icmp_code
      ∷ first_byte msg.icmp_csum
      ∷ second_byte msg.icmp_csum
      ∷ msg.icmp_data

  -- What `icmp_input` leaves of the payload: a refused message is not written to.
  unfoldable pub written_icmp : List ℕ → Icmp × Ret → List ℕ × Ret
  unfolding store_icmp
  written_icmp payload (msg, done n) = (store_icmp msg, done n)
  written_icmp payload (msg, fail e) = (payload, fail e)

  -- `icmp_input` as a handler of `ip_input`, on a payload of `bsize` bytes.
  unfoldable pub icmp_handler : {T : Type 0} → T → IpHdr → List ℕ → ℕ → T × List ℕ × Ret
  unfolding written_icmp
  icmp_handler t ip_hdr (b0 ∷ b1 ∷ b2 ∷ b3 ∷ rest) bsize =
      let msg : Icmp = record {
        icmp_type = b0;
        icmp_code = b1;
        icmp_csum = load16 b2 b3;
        icmp_data = rest;
      } in
      let (payload, ret) = written_icmp (b0 ∷ b1 ∷ b2 ∷ b3 ∷ rest) (icmp_input host msg) in
      (t, payload, ret)
  icmp_handler t ip_hdr payload bsize = (t, payload, fail ebadmsg)

  -- The checksum of its reply, and the reply.
  abbrev pub reply_csum : ℕ → List ℕ → ℕ
  reply_csum code rest = checksum_words host (load16 0 code ∷ 0 ∷ words_of host rest)

  abbrev pub reply_bytes : ℕ → List ℕ → List ℕ
  reply_bytes code rest =
      let csum = reply_csum code rest in
      icmp_type_echo_reply ∷ code ∷ first_byte csum ∷ second_byte csum ∷ rest

  pub icmp_handler-request :
      {T : Type 0} (t : T) (ip_hdr : IpHdr) (code b2 b3 : ℕ) (rest : List ℕ) (bsize : ℕ)
      → 4 ≤ length rest
      → icmp_handler t ip_hdr (request_bytes code b2 b3 rest) bsize
        ≡ (t, reply_bytes code rest, done (4 + length rest))
  unfolding icmp_handler icmp_input echo_reply icmp_words
  icmp_handler-request t ip_hdr code b2 b3 rest bsize long =
      let fits : ltb (4 + length rest) 8 ≡ false = ground arith in rw fits refl

  pub reply_csum-lt :
      (code : ℕ) (rest : List ℕ) → code < 256 → AllBytes rest → reply_csum code rest < 2 ^ 16
  reply_csum-lt code rest c b =
      checksum_words-lt host (load16 0 code ∷ 0 ∷ words_of host rest)
        (load16-lt 0 code (omega arith) c, (omega arith, words_of-AllWords host rest b))

  -- The checksum over the bytes of the reply is 0.
  pub reply_bytes_verify :
      (code : ℕ) (rest : List ℕ)
      → code < 256
      → AllBytes rest
      → checksum_words host (words_of host (reply_bytes code rest)) ≡ 0
  reply_bytes_verify code rest c b =
      let csum : ℕ = reply_csum code rest in
      rw
        (
          words_of_pair host 0 code (first_byte csum ∷ second_byte csum ∷ rest),
          words_of_pair host (first_byte csum) (second_byte csum) rest,
          load16-bytes (reply_csum code rest) (reply_csum-lt code rest c b),
        )
        (checksum_words_verifies host (load16 0 code ∷ []) (words_of host rest)
          (load16-lt 0 code (omega arith) c, tt) (words_of-AllWords host rest b))
