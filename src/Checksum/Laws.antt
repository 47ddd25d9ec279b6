-- ===== src/Checksum/Laws.antt =====
-- The checksum is the one's complement sum: it depends on the words' total alone, and a memory that
-- holds its own checksum verifies.
use nstack.Base.{ℕ, ◌+◌, ◌-◌, ◌%◌, ◌^◌, ◌≤◌, ◌<◌, ◌≡◌, refl, ◌↔◌, List, [], ◌∷◌, ◌++◌, arith}
use nstack.Host.{Host}
use nstack.Checksum.{add_word, add_words, words_of, checksum_words}

-- Every member is a 16-bit word.
abbrev pub AllWords : List ℕ → Type 0
AllWords [] = Unit {0}
AllWords (w ∷ ws) = (w < 2 ^ 16) × AllWords ws

-- Every member is a byte.
abbrev pub AllBytes : List ℕ → Type 0
AllBytes [] = Unit {0}
AllBytes (b ∷ bs) = (b < 256) × AllBytes bs

abbrev pub total : List ℕ → ℕ
total [] = 0
total (w ∷ ws) = w + total ws

total-insert : (ws : List ℕ) (x : ℕ) (vs : List ℕ) → total (ws ++ x ∷ vs) ≡ x + total (ws ++ vs)
total-insert [] x vs = refl
total-insert (w ∷ ws) x vs = omega (arith, total-insert ws x vs)

AllWords-insert :
    (ws : List ℕ) (x : ℕ) (vs : List ℕ)
    → AllWords ws
    → x < 2 ^ 16
    → AllWords vs
    → AllWords (ws ++ x ∷ vs)
AllWords-insert [] x vs h p k = (p, k)
AllWords-insert (w ∷ ws) x vs h p k = (h.0, AllWords-insert ws x vs h.1 p k)

module _ (host : Host) where
  open host use {ntohs_ones, load16, load16-lt}

  add_word_lem :
      (acc word : ℕ)
      → 0 < acc
      → acc ≤ 0xffff
      → word < 2 ^ 16
      → add_word host acc word ≡ (acc + word - 1) % 0xffff + 1
  unfolding add_word
  add_word_lem acc word p h w = ground (arith, ntohs_ones)

  -- From an accumulator in range the loop ends in range, congruent to the total modulo 0xffff.
  pub add_words_lem :
      (acc : ℕ) (ws : List ℕ)
      → 0 < acc
      → acc ≤ 0xffff
      → AllWords ws
      → add_words host acc ws ≡ (acc + total ws - 1) % 0xffff + 1
  unfolding add_words
  add_words_lem acc [] p h w = omega arith
  add_words_lem acc (x ∷ ws) p h w =
      let e = add_word_lem acc x p h w.0 in
      let ih = add_words_lem (add_word host acc x) ws (omega (arith, e)) (omega (arith, e)) w.1 in
      omega (arith, e, ih)

  pub words_of_pair :
      (b c : ℕ) (bs : List ℕ) → words_of host (b ∷ c ∷ bs) ≡ load16 b c ∷ words_of host bs
  unfolding words_of
  words_of_pair b c bs = refl

  pub words_of-AllWords : (bs : List ℕ) → AllBytes bs → AllWords (words_of host bs)
  unfolding words_of
  words_of-AllWords [] h = tt
  words_of-AllWords (b ∷ []) h = (load16-lt b 0 h.0 (omega arith), tt)
  words_of-AllWords (b ∷ c ∷ bs) h = (load16-lt b c h.0 h.1.0, words_of-AllWords bs h.1.1)

  pub checksum_words_lem :
      (ws : List ℕ)
      → AllWords ws
      → checksum_words host ws ≡ 0xffff - ((0xffff + total ws - 1) % 0xffff + 1)
  unfolding checksum_words
  checksum_words_lem ws h = omega (arith, add_words_lem 0xffff ws (omega arith) (omega arith) h)

  pub checksum_words-lt : (ws : List ℕ) → AllWords ws → checksum_words host ws < 2 ^ 16
  checksum_words-lt ws h = omega (arith, checksum_words_lem ws h)

  pub checksum_words_word : (ws : List ℕ) → checksum_words host ws < 2 ^ 16
  unfolding checksum_words
  checksum_words_word ws = omega arith

  -- Any order of the words, and any split of the memory, gives the same checksum: only the total of
  -- the words counts.
  pub checksum_words-eq_of_total :
      (ws vs : List ℕ)
      → AllWords ws
      → AllWords vs
      → total ws ≡ total vs
      → checksum_words host ws ≡ checksum_words host vs
  checksum_words-eq_of_total ws vs h k e =
      omega (arith, checksum_words_lem ws h, checksum_words_lem vs k)

  -- A memory of 16-bit words whose checksum is stored in the place of a zero word verifies: the
  -- checksum over it is 0.
  pub checksum_words_verifies :
      (ws vs : List ℕ)
      → AllWords ws
      → AllWords vs
      → checksum_words host (ws ++ checksum_words host (ws ++ 0 ∷ vs) ∷ vs) ≡ 0
  checksum_words_verifies ws vs h k =
      let before = AllWords-insert ws 0 vs h (omega arith) k in
      let c = checksum_words host (ws ++ 0 ∷ vs) in
      omega (
        arith,
        checksum_words_lem (ws ++ 0 ∷ vs) before,
        checksum_words_lem (ws ++ c ∷ vs)
            (AllWords-insert ws c vs h (checksum_words-lt (ws ++ 0 ∷ vs) before) k),
        total-insert ws 0 vs,
        total-insert ws c vs,
      )

  -- Two memories have the same checksum exactly when the totals of their words are congruent modulo
  -- 0xffff: every other change is detected.
  pub checksum_words-eq_iff :
      (ws vs : List ℕ)
      → AllWords ws
      → AllWords vs
      → (checksum_words host ws ≡ checksum_words host vs)
        ↔ ((0xffff + total ws - 1) % 0xffff ≡ (0xffff + total vs - 1) % 0xffff)
  checksum_words-eq_iff ws vs h k = (
    λ e. omega (arith, checksum_words_lem ws h, checksum_words_lem vs k),
    λ e. omega (arith, checksum_words_lem ws h, checksum_words_lem vs k),
  )
