-- ===== src/Ether/Linux/Driver.antt =====
-- The driver of src/linux/ether.c: its interfaces, `ether_init`, `ether_deinit` and `ether_send`. The
-- system calls are an argument, over a state `W` of the system.
pub mod Opened
pub mod Laws
use nstack.Base.{
  ℕ, suc, ◌+◌, ◌≡◌, List, [], ◌∷◌, Bool, true, false, not, Option, ◌⊎◌, inl, inr, ◌&&◌, none, some,
  ltb, leb, ◌==◌, length, set, get_elem?, set_bit, if◌then◌else◌,
}
use nstack.Base.Int.{ℤ, pos, sub_ℕ}
use nstack.Base.Errno.{emsgsize, enodev, errno_number}
use nstack.Ether.Linux.{ether_maxlen, ether_fcs_len, frame_size, ether_frame}

-- `ETHER_MAX_IF` and `IFNAMSIZ`, the name "eth0", and `NSTACK_PERIODIC_EVENT_SEC`.
abbrev pub ether_max_if : ℕ
ether_max_if = 1

abbrev pub ifnamsiz : ℕ
ifnamsiz = 16

abbrev pub default_if : List ℕ
default_if = 101 ∷ 116 ∷ 104 ∷ 48 ∷ []

abbrev pub rxtimeout_sec : ℕ
rxtimeout_sec = 10

-- `struct ether_linux`; a descriptor that is -1 is `none`.
pub record EtherLinux : Type 0 where
  pub el_fd : Option ℕ
  pub el_mac : List ℕ
  pub ifr_name : List ℕ
  pub ifr_ifindex : ℕ

-- The static variables.
pub record EtherIfs : Type 0 where
  pub ether_if : List EtherLinux
  pub ether_next_handle : ℕ

-- The system calls as the driver uses them: each takes the descriptor, and the ioctls the name of the
-- interface; `sendto` also the index, the protocol and the address. `none` and `false` stand for -1;
-- a number that `sendto` refuses with is its `errno`.
pub record Os (W : Type 0) : Type 0 where
  pub socket : W → W × Option ℕ
  pub close : W → ℕ → W
  pub get_index : W → ℕ → List ℕ → W × Option ℕ
  pub get_hwaddr : W → ℕ → List ℕ → W × Option (List ℕ)
  pub get_flags : W → ℕ → List ℕ → W × ℕ
  pub set_flags : W → ℕ → List ℕ → ℕ → W
  pub set_reuseaddr : W → ℕ → W × Bool
  pub set_rcvtimeo : W → ℕ → ℕ → W × Bool
  pub bind : W → ℕ → ℕ → List ℕ → W
  pub sendto : W → Option ℕ → ℕ → ℕ → List ℕ → List ℕ → W × (ℕ ⊎ ℕ)

-- What `ether_init` returns: a handle, -1 with EAGAIN, -1 after a failed call, -1 with ENOTSUP, -2.
pub data InitRet : Type 0 where
  ready : ℕ → InitRet
  no_interface call_failed not_supported name_too_long : InitRet

-- `ether_handle2eth`; `none` is NULL with ENODEV.
unfoldable pub ether_handle2eth : EtherIfs → ℕ → Option EtherLinux
ether_handle2eth ifs handle =
    if leb ether_max_if handle then none else get_elem? ifs.ether_if handle

-- `ether_handle2addr`; `none` is the -1.
unfoldable pub ether_handle2addr : EtherIfs → ℕ → Option (List ℕ)
unfolding ether_handle2eth
ether_handle2addr ifs handle = elim (ether_handle2eth ifs handle) [
  | none ↦ none
  | some eth ↦ some eth.el_mac
]

-- `ether_addr2handle`.
unfoldable pub ether_addr2handle : List ℕ → ℕ
ether_addr2handle addr = 0

-- The name of the interface, from the first argument; `none` where it does not fit.
unfoldable pub if_name : Option (List ℕ) → Option (List ℕ)
if_name none = some default_if
if_name (some name) = if leb ifnamsiz (length name) then none else some name

-- The interface of a handle is written.
abbrev pub store_if : EtherIfs → ℕ → EtherLinux → EtherIfs
store_if ifs handle eth = record ifs { ether_if = set ifs.ether_if handle eth }

abbrev pub is_given : Option (List ℕ) → Bool
is_given none = false
is_given (some arg) = true

-- The result of `sendto`, an error negated.
abbrev pub sendto_ret : ℕ ⊎ ℕ → ℤ
sendto_ret (inl n) = pos n
sendto_ret (inr e) = sub_ℕ 0 e

module _ {W : Type 0} (os : Os W) where
  -- `linux_ether_bind` on the descriptor of the interface: promiscuous mode, `SO_REUSEADDR`, `bind`.
  unfoldable pub linux_ether_bind : W → ℕ → EtherLinux → W × Bool
  unfolding set_bit
  linux_ether_bind w fd eth =
      let (w1, flags) = os.get_flags w fd eth.ifr_name in
      let (w2, reused) = os.set_reuseaddr (os.set_flags w1 fd eth.ifr_name (set_bit flags 8)) fd in
      if not reused then (w2, false) else (os.bind w2 fd eth.ifr_ifindex eth.el_mac, true)

  -- `linux_ether_set_rxtimeout`.
  unfoldable pub linux_ether_set_rxtimeout : W → ℕ → W × Bool
  linux_ether_set_rxtimeout w fd = os.set_rcvtimeo w fd rxtimeout_sec

  -- The label `fail`.
  abbrev pub init_fail : EtherIfs → ℕ → ℕ → EtherLinux → W → W × EtherIfs × InitRet
  init_fail ifs handle fd eth w = (os.close w fd, store_if ifs handle eth, call_failed)

  -- `ether_init` from the call of `linux_ether_bind` on.
  unfoldable pub init_bind : EtherIfs → ℕ → ℕ → EtherLinux → W → W × EtherIfs × InitRet
  unfolding linux_ether_bind linux_ether_set_rxtimeout
  init_bind ifs handle fd eth w =
      let (w1, bound) = linux_ether_bind w fd eth in
      let (w2, timed) = linux_ether_set_rxtimeout w1 fd in
      if not bound
      then init_fail ifs handle fd eth w1
      else if not timed
      then init_fail ifs handle fd eth w2
      else (w2, store_if ifs handle eth, ready handle)

  -- `ether_init` from the request for the hardware address on.
  unfoldable pub init_mac :
      EtherIfs → ℕ → ℕ → EtherLinux → W × Option (List ℕ) → W × EtherIfs × InitRet
  init_mac ifs handle fd eth (w, none) = init_fail ifs handle fd eth w
  init_mac ifs handle fd eth (w, some mac) = init_bind ifs handle fd (record eth { el_mac = mac }) w

  -- `ether_init` from the request for the index on; a hardware address as the second argument is not
  -- supported.
  unfoldable pub init_index :
      EtherIfs → ℕ → ℕ → EtherLinux → Bool → W × Option ℕ → W × EtherIfs × InitRet
  init_index ifs handle fd eth given (w, none) = init_fail ifs handle fd eth w
  init_index ifs handle fd eth given (w, some i) =
      let found : EtherLinux = record eth { ifr_ifindex = i } in
      if given
      then (w, store_if ifs handle found, not_supported)
      else init_mac ifs handle fd found (os.get_hwaddr w fd eth.ifr_name)

  -- `ether_init` from the call of `socket` on.
  unfoldable pub init_socket :
      EtherIfs → ℕ → EtherLinux → List ℕ → Bool → W × Option ℕ → W × EtherIfs × InitRet
  init_socket ifs handle eth name given (w, none) =
      (w, store_if ifs handle (record eth { el_fd = none }), call_failed)
  init_socket ifs handle eth name given (w, some fd) =
      let named : EtherLinux = record eth { el_fd = some fd; ifr_name = name; ifr_ifindex = 0 } in
      init_index ifs handle fd named given (os.get_index w fd name)

  -- `ether_init` with a handle that is free: it is counted before anything else is tried. The second
  -- argument is looked at only behind a first one.
  unfoldable pub init_handle :
      W → EtherIfs → Option (List ℕ) → Option (List ℕ) → ℕ → W × EtherIfs × InitRet
  unfolding if_name
  init_handle w ifs arg0 arg1 handle =
      let counted : EtherIfs = record ifs { ether_next_handle = handle + 1 } in
      elim (if_name arg0) [
        | none ↦ (w, counted, name_too_long)
        | some name ↦ elim (get_elem? ifs.ether_if handle) [
          | none ↦ (w, counted, call_failed)
          | some eth ↦
              init_socket counted handle eth name (is_given arg0 && is_given arg1) (os.socket w)
        ]
      ]

  -- `ether_init`.
  unfoldable pub ether_init :
      W → EtherIfs → Option (List ℕ) → Option (List ℕ) → W × EtherIfs × InitRet
  unfolding init_handle
  ether_init w ifs arg0 arg1 =
      if leb ether_max_if ifs.ether_next_handle
      then (w, ifs, no_interface)
      else init_handle w ifs arg0 arg1 ifs.ether_next_handle

  -- `ether_deinit`.
  unfoldable pub ether_deinit : W → EtherIfs → ℕ → W
  unfolding ether_handle2eth
  ether_deinit w ifs handle = elim (ether_handle2eth ifs handle) [
    | none ↦ w
    | some eth ↦ elim eth.el_fd [ none ↦ w | some fd ↦ os.close w fd ]
  ]

  -- `ether_send`.
  unfoldable pub ether_send : W → EtherIfs → ℕ → List ℕ → ℕ → List ℕ → W × ℤ
  unfolding ether_handle2eth frame_size ether_frame
  ether_send w ifs handle dst proto buf =
      let sent : EtherLinux → W × ℤ = λ eth. elim (ether_frame dst eth.el_mac proto buf) [
        | none ↦ (w, sub_ℕ 0 (errno_number emsgsize))
        | some frame ↦
            let (w', r) = os.sendto w eth.el_fd eth.ifr_ifindex proto dst frame in
            (w', sendto_ret r)
      ] in
      let found : W × ℤ = elim (ether_handle2eth ifs handle) [
        | none ↦ (w, sub_ℕ 0 (errno_number enodev))
        | some eth ↦ sent eth
      ] in
      if ltb (ether_maxlen + ether_fcs_len) (frame_size (length buf))
      then (w, sub_ℕ 0 (errno_number emsgsize))
      else found
