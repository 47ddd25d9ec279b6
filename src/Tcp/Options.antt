-- ===== src/Tcp/Options.antt =====
-- The loops over the options of a TCP header, `tcp_hton_opt` and `tcp_ntoh_opt` of src/tcp.c. They
-- differ in the conversions, which are parameters here: `conv16` and `conv32` convert the 2 or 4 bytes
-- at a place of the memory, which is the bytes behind the fixed header.
use nstack.Base.{
  ℕ, ◌-◌, zero, suc, ◌+◌, ◌≤◌, ◌<◌, ◌≡◌, refl, List, Bool, true, false, ◌||◌, Option, none, some,
  leb, ◌==◌, arith, get_elem?, Bool-cases, inl, inr, if◌then◌else◌,
}
use nstack.Base.Errno.{Ret, done, fail}
use nstack.Base.Outcome.{out_of_bounds, Outcome, returns, faults}

-- What one round does: leave the loop, read outside the memory, or go on at a place.
pub data Round : Type 0 where
  leave outside : Round
  go_to : ℕ → List ℕ → Round

module _ (conv16 conv32 : List ℕ → ℕ → List ℕ) where
  -- `i += opt->length`, with the memory as the case has converted it.
  skip_option : List ℕ → ℕ → List ℕ → Round
  skip_option mem i mem' = elim (get_elem? mem (i + 1)) [
    | none ↦ outside
    | some len ↦ go_to (i + len) mem'
  ]

  -- The body of the loop. A kind that no case names leaves `i` as it is.
  unfoldable pub round : List ℕ → ℕ → Round
  unfolding skip_option
  round mem i = elim (get_elem? mem i) [
    | none ↦ outside
    | some kind ↦
        if kind == 0
        then leave
        else if kind == 1
        then go_to (i + 1) mem
        else if kind == 2
        then skip_option mem i (conv16 mem (i + 2))
        else if kind == 3 || kind == 4 || kind == 5
        then skip_option mem i mem
        else if kind == 8
        then skip_option mem i (conv32 (conv32 mem (i + 2)) (i + 6))
        else go_to i mem
  ]

  -- The loop `for (int i = 0; i < len;)`, with fuel; `none` means that the fuel ran out.
  pub opt_loop : ℕ → ℕ → ℕ → List ℕ → Option (Outcome (List ℕ))
  opt_loop zero i len mem = none
  opt_loop (suc fuel) i len mem = elim (leb len i) [
    | true ↦ some (returns mem)
    | false ↦ elim (round mem i) [
      | leave ↦ some (returns mem)
      | outside ↦ some (faults out_of_bounds)
      | go_to j mem' ↦ opt_loop fuel j len mem'
    ]
  ]

  -- `tcp_ntoh_opt` and `tcp_hton_opt`, with the length that `tcp_opt_size` gives; a negative length ends
  -- the loop at once.
  unfoldable pub convert_options : ℕ → Ret → List ℕ → Option (Outcome (List ℕ))
  unfolding opt_loop
  convert_options fuel (fail e) mem = some (returns mem)
  convert_options fuel (done len) mem = opt_loop fuel 0 len mem

  -- The loop from place `i` reaches its end: every round moves on.
  pub data Parses (len : ℕ) : ℕ → List ℕ → Type 0 where
    at_end : {i : ℕ} {mem : List ℕ} → len ≤ i → Parses len i mem
    at_eol : {i : ℕ} {mem : List ℕ} → round mem i ≡ leave → Parses len i mem
    option :
        {i : ℕ} {mem : List ℕ} (j : ℕ) (mem' : List ℕ)
        → round mem i ≡ go_to j mem'
        → i < j
        → Parses len j mem'
        → Parses len i mem

  -- On options that move on round by round the loop returns, if it has more rounds than there are
  -- bytes left.
  pub opt_loop_returns :
      (fuel len i : ℕ) (mem : List ℕ)
      → Parses len i mem
      → len - i < fuel
      → (mem' : List ℕ) × (opt_loop fuel i len mem ≡ some (returns mem'))
  unfolding opt_loop
  opt_loop_returns zero len i mem p enough = elim enough [ ]
  opt_loop_returns (suc fuel) len i mem (at_end h) enough = (mem, ground arith)
  opt_loop_returns (suc fuel) len i mem (at_eol e) enough = (mem, ground arith)
  opt_loop_returns (suc fuel) len i mem (option j mem' e m rest) enough =
      elim (Bool-cases (leb len i)) [
        | inl end ↦ (mem, ground arith)
        | inr more ↦
            let (out, r) = opt_loop_returns fuel len j mem' rest (ground arith) in
            (out, ground arith)
      ]

  -- The kinds that the code knows.
  abbrev pub known : ℕ → Bool
  known kind =
      kind == 0 || kind == 1 || kind == 2 || kind == 3 || kind == 4 || kind == 5 || kind == 8

  -- An option of any other kind before the end of the header keeps the loop running for ever.
  pub opt_loop_hangs :
      (fuel len i kind : ℕ) (mem : List ℕ)
      → i < len
      → get_elem? mem i ≡ some kind
      → known kind ≡ false
      → opt_loop fuel i len mem ≡ none
  unfolding opt_loop round
  opt_loop_hangs zero len i kind mem h e k = refl
  opt_loop_hangs (suc fuel) len i kind mem h e k =
      ground (arith, opt_loop_hangs fuel len i kind mem h e k)
