-- ===== src/Ether/Linux/Driver/Laws.antt =====
-- What opening an interface leaves of the system's descriptors.
use nstack.Base.{
  ℕ, ◌≤◌, ◌≡◌, ◌⊎◌, inl, inr, refl, sym, ap, ◌∙◌, arith, List, [], ◌∷◌, Bool, true, false, Option,
  none, some, leb, ◌&&◌, Bool-cases, Option-cases, length, get_elem?, if◌then◌else◌, ◌<◌,
  get_elem?-set_self,
}
use mathlib.Core.Path.{subst}
use nstack.Ether.Linux.Driver.{
  EtherLinux, EtherIfs, Os, InitRet, ready, no_interface, call_failed, not_supported, name_too_long,
  init_handle, ether_handle2eth, if_name, is_given, init_index, init_socket, ether_init,
}
use nstack.Ether.Linux.Driver.Opened.{Fds, SameFds, OneMore, Settled, init_index-Settled}

first_if :
    (ifs : List EtherLinux) → length ifs ≡ 1 → (eth : EtherLinux) × (get_elem? ifs 0 ≡ some eth)
first_if [] h = absurd (omega (arith, h))
first_if (eth ∷ ifs) h = (eth, refl)

module _ {W : Type 0} (os : Os W) (is_open : W → ℕ → Bool) (laws : Fds os is_open) where
  -- What one call of `ether_init` on a free interface may come to.
  abbrev pub InitOutcome : W → Option (List ℕ) → Option (List ℕ) → W × EtherIfs × InitRet → Type 0
  InitOutcome w arg0 arg1 r =
      (r.1.ether_next_handle ≡ 1)
      × (((r.2 ≡ name_too_long) × (if_name arg0 ≡ none) × (r.0 ≡ w))
          ⊎ ((r.2 ≡ call_failed) × SameFds is_open w r.0)
          ⊎ ((r.2 ≡ ready 0)
              × ((fd : ℕ) × (eth : EtherLinux) × (is_open w fd ≡ false)
                  × OneMore is_open w fd r.0
                  × (ether_handle2eth r.1 0 ≡ some eth)
                  × (eth.el_fd ≡ some fd)))
          ⊎ (((is_given arg0 && is_given arg1) ≡ true)
              × (r.2 ≡ not_supported)
              × ((fd : ℕ) × (is_open w fd ≡ false) × OneMore is_open w fd r.0)))

  Settled-InitOutcome :
      (ifs : EtherIfs) (w : W) (fd : ℕ) (arg0 arg1 : Option (List ℕ)) (r : W × EtherIfs × InitRet)
      (fresh : is_open w fd ≡ false)
      → ifs.ether_next_handle ≡ 1
      → 0 < length ifs.ether_if
      → Settled os is_open laws ifs 0 w fd (is_given arg0 && is_given arg1) fresh r
      → InitOutcome w arg0 arg1 r
  unfolding ether_handle2eth
  Settled-InitOutcome ifs w fd arg0 arg1 r fresh counted room (n, inl failed) =
      (n ∙ counted, inr (inl failed))
  Settled-InitOutcome ifs w fd arg0 arg1 r fresh counted room
        (n, inr (inl (e, more, (eth, stored, open_fd)))) =
      (
        n ∙ counted,
        inr (
            inr (
              inl (
                e,
                (
                  fd,
                  eth,
                  fresh,
                  more,
                  ap (λ (s : EtherIfs). ether_handle2eth s 0) stored
                      ∙ get_elem?-set_self ifs.ether_if 0 eth room,
                  open_fd,
                ),
              ))),
      )
  Settled-InitOutcome ifs w fd arg0 arg1 r fresh counted room (n, inr (inr (given, e, more))) =
      (n ∙ counted, inr (inr (inr (given, e, (fd, fresh, more)))))

  init_socket-InitOutcome :
      (w : W) (ifs : EtherIfs) (eth : EtherLinux) (name : List ℕ) (arg0 arg1 : Option (List ℕ))
      (r : W × Option ℕ)
      → ifs.ether_next_handle ≡ 1
      → 0 < length ifs.ether_if
      → r ≡ os.socket w
      → InitOutcome w arg0 arg1 (init_socket os ifs 0 eth name (is_given arg0 && is_given arg1) r)
  unfolding init_socket
  init_socket-InitOutcome w ifs eth name arg0 arg1 (w1, none) counted room same = (
    counted,
    inr (
        inl (
          refl,
          λ x.
              ap (λ (p : W × Option ℕ). is_open p.0 x) same
              ∙ laws.not_opened w x (ap (λ (p : W × Option ℕ). p.1) (sym same)),
        )),
  )
  init_socket-InitOutcome w ifs eth name arg0 arg1 (w1, some fd) counted room same =
      let got : (os.socket w).1 ≡ some fd = ap (λ (p : W × Option ℕ). p.1) (sym same) in
      let fresh = laws.fresh w fd got in
      let named : EtherLinux = record eth { el_fd = some fd; ifr_name = name; ifr_ifindex = 0 } in
      let given : Bool = is_given arg0 && is_given arg1 in
      Settled-InitOutcome ifs w fd arg0 arg1
        (init_index os ifs 0 fd named given (os.get_index w1 fd name)) fresh counted room
        (init_index-Settled os is_open laws ifs 0 w fd given fresh named given
          (os.get_index w1 fd name) refl refl
          (λ x.
            laws.index w1 fd name x
            ∙ ap (λ (p : W × Option ℕ). is_open p.0 x) same
            ∙ laws.opened w fd x got))

  refused :
      (w : W) (ifs : EtherIfs) (arg0 arg1 : Option (List ℕ))
      → 1 ≤ ifs.ether_next_handle
      → ether_init os w ifs arg0 arg1 ≡ (w, ifs, no_interface)
  unfolding ether_init
  refused w ifs arg0 arg1 used =
      let u : leb 1 ifs.ether_next_handle ≡ true = ground arith in rw u refl

  -- The driver with the next handle counted.
  abbrev counted : EtherIfs → EtherIfs
  counted ifs = record ifs { ether_next_handle = 1 }

  init_long :
      (w : W) (ifs : EtherIfs) (arg0 arg1 : Option (List ℕ))
      → if_name arg0 ≡ none
      → init_handle os w ifs arg0 arg1 0 ≡ (w, counted ifs, name_too_long)
  unfolding init_handle
  init_long w ifs arg0 arg1 long = rw (long, init_handle) refl

  init_named :
      (w : W) (ifs : EtherIfs) (arg0 arg1 : Option (List ℕ)) (name : List ℕ) (eth : EtherLinux)
      → if_name arg0 ≡ some name
      → get_elem? ifs.ether_if 0 ≡ some eth
      → init_handle os w ifs arg0 arg1 0
        ≡ init_socket os (counted ifs) 0 eth name (is_given arg0 && is_given arg1) (os.socket w)
  unfolding init_handle
  init_named w ifs arg0 arg1 name eth fits found =
      rw (fits, init_handle) (rw (found, init_handle) refl)

  init_free :
      (w : W) (ifs : EtherIfs) (arg0 arg1 : Option (List ℕ))
      → leb 1 ifs.ether_next_handle ≡ false
      → ether_init os w ifs arg0 arg1 ≡ init_handle os w ifs arg0 arg1 0
  unfolding ether_init
  init_free w ifs arg0 arg1 free =
      let zero_handle : ifs.ether_next_handle ≡ 0 = ground (arith, free) in
      ap
        (λ b.
          if b
          then (w, ifs, no_interface)
          else init_handle os w ifs arg0 arg1 ifs.ether_next_handle)
        free
      ∙ ap (init_handle os w ifs arg0 arg1) zero_handle

  -- `ether_init` on the driver with its one interface. Where the interface is in use it changes
  -- nothing. Otherwise the interface is in use afterwards, whatever comes of the call: a name that
  -- is too long is refused before any system call; a system call that fails leaves the open
  -- descriptors as they were; a handle is that of an interface with a descriptor that was not open
  -- before and is the only new one. Only where a hardware address is given is the call refused with
  -- a new descriptor left open.
  pub ether_init_cases :
      (w : W) (ifs : EtherIfs) (arg0 arg1 : Option (List ℕ))
      → length ifs.ether_if ≡ 1
      → ((1 ≤ ifs.ether_next_handle) × (ether_init os w ifs arg0 arg1 ≡ (w, ifs, no_interface)))
        ⊎ ((ifs.ether_next_handle ≡ 0) × InitOutcome w arg0 arg1 (ether_init os w ifs arg0 arg1))
  ether_init_cases w ifs arg0 arg1 one = elim (Bool-cases (leb 1 ifs.ether_next_handle)) [
    | inl used ↦ inl (ground (arith, used), refused w ifs arg0 arg1 (ground (arith, used)))
    | inr free ↦
        let zero_handle : ifs.ether_next_handle ≡ 0 = ground (arith, free) in
        inr (
          zero_handle,
          elim (Option-cases (if_name arg0)) [
            | inl long ↦
                subst (InitOutcome w arg0 arg1)
                  (sym (init_free w ifs arg0 arg1 free ∙ init_long w ifs arg0 arg1 long))
                  (refl, inl (refl, long, refl))
            | inr (name, fits) ↦
                let (eth, found) = first_if ifs.ether_if one in
                subst (InitOutcome w arg0 arg1)
                  (sym (
                    init_free w ifs arg0 arg1 free
                    ∙ init_named w ifs arg0 arg1 name eth fits found))
                  (init_socket-InitOutcome w (counted ifs) eth name arg0 arg1 (os.socket w) refl
                    (omega (arith, one)) refl)
          ],
        )
  ]

  -- The interface can be opened once only: whatever a first call of `ether_init` came to, also where it
  -- failed, a second one is refused and changes nothing.
  ether_init_once :
      (w w' : W) (ifs : EtherIfs) (arg0 arg1 arg0' arg1' : Option (List ℕ))
      → length ifs.ether_if ≡ 1
      → let ifs' = (ether_init os w ifs arg0 arg1).1 in
        ether_init os w' ifs' arg0' arg1' ≡ (w', ifs', no_interface)
  ether_init_once w w' ifs arg0 arg1 arg0' arg1' one =
      let ifs' : EtherIfs = (ether_init os w ifs arg0 arg1).1 in
      refused w' ifs' arg0' arg1' (elim (ether_init_cases w ifs arg0 arg1 one) [
        | inl (used, e) ↦
            omega (arith, used, ap (λ (r : W × EtherIfs × InitRet). r.1.ether_next_handle) e)
        | inr (free, outcome) ↦ omega (arith, outcome.0)
      ])
