-- ===== src/Ether/Linux/Driver/Opened.antt =====
-- What the calls of `ether_init` in src/linux/ether.c leave of the descriptors once one is open.
use nstack.Base.{
  ℕ, ◌≡◌, ◌⊎◌, inl, inr, refl, sym, ap, ◌∙◌, arith, List, Bool, true, false, Option, none, some,
  ◌==◌, Bool-cases, if◌then◌else◌, set_bit,
}
use nstack.Ether.Linux.Driver.{
  EtherLinux, EtherIfs, Os, InitRet, ready, call_failed, not_supported, init_fail, store_if,
  linux_ether_bind, linux_ether_set_rxtimeout, init_bind, init_mac, init_index,
}

-- What the documentation of the calls says about the descriptors of the process: `socket` opens one that
-- was not open, `close` closes its own, and the other calls leave them alone.
pub record Fds {W : Type 0} (os : Os W) (is_open : W → ℕ → Bool) : Type 0 where
  pub fresh : (w : W) (fd : ℕ) → (os.socket w).1 ≡ some fd → is_open w fd ≡ false
  pub opened :
      (w : W) (fd x : ℕ)
      → (os.socket w).1 ≡ some fd
      → is_open (os.socket w).0 x ≡ (if x == fd then true else is_open w x)
  pub not_opened :
      (w : W) (x : ℕ) → (os.socket w).1 ≡ none → is_open (os.socket w).0 x ≡ is_open w x
  pub closed :
      (w : W) (fd x : ℕ) → is_open (os.close w fd) x ≡ (if x == fd then false else is_open w x)
  pub index :
      (w : W) (fd : ℕ) (name : List ℕ) (x : ℕ) → is_open (os.get_index w fd name).0 x ≡ is_open w x
  pub hwaddr :
      (w : W) (fd : ℕ) (name : List ℕ) (x : ℕ) → is_open (os.get_hwaddr w fd name).0 x ≡ is_open w x
  pub flags :
      (w : W) (fd : ℕ) (name : List ℕ) (x : ℕ) → is_open (os.get_flags w fd name).0 x ≡ is_open w x
  pub flagged :
      (w : W) (fd : ℕ) (name : List ℕ) (n x : ℕ)
      → is_open (os.set_flags w fd name n) x ≡ is_open w x
  pub reused : (w : W) (fd x : ℕ) → is_open (os.set_reuseaddr w fd).0 x ≡ is_open w x
  pub timed : (w : W) (fd n x : ℕ) → is_open (os.set_rcvtimeo w fd n).0 x ≡ is_open w x
  pub bound :
      (w : W) (fd i : ℕ) (mac : List ℕ) (x : ℕ) → is_open (os.bind w fd i mac) x ≡ is_open w x

module _ {W : Type 0} (is_open : W → ℕ → Bool) where
  -- The same descriptors are open; one more is; the descriptor `fd` at most differs.
  abbrev pub SameFds : W → W → Type 0
  SameFds w w' = (x : ℕ) → is_open w' x ≡ is_open w x

  abbrev pub OneMore : W → ℕ → W → Type 0
  OneMore w fd w' = (x : ℕ) → is_open w' x ≡ (if x == fd then true else is_open w x)

module _ {W : Type 0} (os : Os W) (is_open : W → ℕ → Bool) (laws : Fds os is_open) where
  bind_keeps :
      (w : W) (fd : ℕ) (eth : EtherLinux) → SameFds is_open w (linux_ether_bind os w fd eth).0
  unfolding linux_ether_bind
  bind_keeps w fd eth x =
      let w1 : W = (os.get_flags w fd eth.ifr_name).0 in
      let flags : ℕ = set_bit (os.get_flags w fd eth.ifr_name).1 8 in
      let w2 : W = os.set_flags w1 fd eth.ifr_name flags in
      let kept : is_open (os.set_reuseaddr w2 fd).0 x ≡ is_open w x =
        laws.reused w2 fd x
        ∙ laws.flagged w1 fd eth.ifr_name flags x
        ∙ laws.flags w fd eth.ifr_name x in
      elim (Bool-cases (os.set_reuseaddr w2 fd).1) [
        | inl good ↦
            rw good (laws.bound (os.set_reuseaddr w2 fd).0 fd eth.ifr_ifindex eth.el_mac x ∙ kept)
        | inr bad ↦ rw bad kept
      ]

  module _ (ifs : EtherIfs) (handle : ℕ) (w0 : W) (fd : ℕ) (given : Bool)
      (fresh : is_open w0 fd ≡ false) where
    -- What `ether_init` may come to once the descriptor `fd` is open.
    abbrev pub Settled : W × EtherIfs × InitRet → Type 0
    Settled r =
        (r.1.ether_next_handle ≡ ifs.ether_next_handle)
        × (((r.2 ≡ call_failed) × SameFds is_open w0 r.0)
            ⊎ ((r.2 ≡ ready handle)
                × OneMore is_open w0 fd r.0
                × ((eth : EtherLinux) × (r.1 ≡ store_if ifs handle eth) × (eth.el_fd ≡ some fd)))
            ⊎ ((given ≡ true) × (r.2 ≡ not_supported) × OneMore is_open w0 fd r.0))

    init_fail-Settled :
        (eth : EtherLinux) (w : W)
        → OneMore is_open w0 fd w
        → Settled (init_fail os ifs handle fd eth w)
    init_fail-Settled eth w more = (
      refl,
      inl (
        refl,
        λ x. laws.closed w fd x ∙ elim (Bool-cases (x == fd)) [
          | inl same ↦
              let e : x ≡ fd = ground (arith, same) in rw same (sym (ap (is_open w0) e ∙ fresh))
          | inr other ↦ rw other (more x ∙ ap (λ b. if b then true else is_open w0 x) other)
        ],
      ),
    )

    init_bind-Settled :
        (eth : EtherLinux) (w : W)
        → eth.el_fd ≡ some fd
        → OneMore is_open w0 fd w
        → Settled (init_bind os ifs handle fd eth w)
    unfolding init_bind linux_ether_set_rxtimeout
    init_bind-Settled eth w open_fd more =
        let r = linux_ether_bind os w fd eth in
        let after : OneMore is_open w0 fd r.0 = λ x. bind_keeps w fd eth x ∙ more x in
        let later : OneMore is_open w0 fd (os.set_rcvtimeo r.0 fd 10).0 =
          λ x. laws.timed r.0 fd 10 x ∙ after x in
        elim (Bool-cases r.1) [
          | inr bad ↦ rw bad (init_fail-Settled eth r.0 after)
          | inl good ↦ elim (Bool-cases (os.set_rcvtimeo r.0 fd 10).1) [
            | inr late ↦ rw (good, late) (init_fail-Settled eth (os.set_rcvtimeo r.0 fd 10).0 later)
            | inl timed ↦ rw (good, timed) (refl, inr (inl (refl, later, (eth, refl, open_fd))))
          ]
        ]

    init_mac-Settled :
        (eth : EtherLinux) (r : W × Option (List ℕ))
        → eth.el_fd ≡ some fd
        → OneMore is_open w0 fd r.0
        → Settled (init_mac os ifs handle fd eth r)
    unfolding init_mac
    init_mac-Settled eth (w, none) open_fd more = init_fail-Settled eth w more
    init_mac-Settled eth (w, some mac) open_fd more =
        init_bind-Settled (record eth { el_mac = mac }) w open_fd more

    pub init_index-Settled :
        (eth : EtherLinux) (mac : Bool) (r : W × Option ℕ)
        → mac ≡ given
        → eth.el_fd ≡ some fd
        → OneMore is_open w0 fd r.0
        → Settled (init_index os ifs handle fd eth mac r)
    unfolding init_index
    init_index-Settled eth mac (w, none) same open_fd more = init_fail-Settled eth w more
    init_index-Settled eth true (w, some i) same open_fd more =
        (refl, inr (inr (sym same, refl, more)))
    init_index-Settled eth false (w, some i) same open_fd more =
        init_mac-Settled (record eth { ifr_ifindex = i }) (os.get_hwaddr w fd eth.ifr_name) open_fd
          (λ x. laws.hwaddr w fd eth.ifr_name x ∙ more x)
