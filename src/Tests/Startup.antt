-- ===== src/Tests/Startup.antt =====
-- Examples for opening the interface and the sockets.
use nstack.Base.{
  ap, ℕ, ◌≤◌, ◌≡◌, ◌⊎◌, inl, refl, arith, [], ◌∷◌, Bool, true, false, none, some, length, ◌==◌,
  if◌then◌else◌,
}
use nstack.Ether.Linux.Driver.{EtherIfs, Os, no_interface, ether_init}
use nstack.Ether.Linux.Driver.Opened.{Fds}
use nstack.Ether.Linux.Driver.Laws.{InitOutcome, ether_init_cases}

-- A system of three descriptors, of which 3 can be opened: whether it is open.
abbrev one_fd : Os Bool
one_fd = record {
  socket = λ w. if w then (w, none) else (true, some 3);
  close = λ w fd. if 3 == fd then false else w;
  get_index = λ w fd name. (w, some 2);
  get_hwaddr = λ w fd name. (w, some (2 ∷ 0 ∷ 0 ∷ 0 ∷ 0 ∷ 1 ∷ []));
  get_flags = λ w fd name. (w, 0);
  set_flags = λ w fd name flags. w;
  set_reuseaddr = λ w fd. (w, true);
  set_rcvtimeo = λ w fd sec. (w, true);
  bind = λ w fd i mac. w;
  sendto = λ w fd i proto dst frame. (w, inl (length frame));
}

abbrev fd_open : Bool → ℕ → Bool
fd_open w fd = if fd == 3 then w else false

opened_new : (w : Bool) (fd : ℕ) → (one_fd.socket w).1 ≡ some fd → (w ≡ false) × (fd ≡ 3)
opened_new true fd e = absurd (ground (arith, e))
opened_new false fd e = (refl, ground (arith, e))

refused_open : (w : Bool) → (one_fd.socket w).1 ≡ none → (one_fd.socket w).0 ≡ w
refused_open true e = refl
refused_open false e = absurd (ground (arith, e))

one_fd-Fds : Fds one_fd fd_open
one_fd-Fds = record {
  fresh = λ w fd e. ground (arith, (opened_new w fd e).0);
  opened = λ w fd x e. ground (arith, (opened_new w fd e).0, (opened_new w fd e).1);
  not_opened = λ w x e. ap (λ v. fd_open v x) (refused_open w e);
  closed = λ w fd x. ground arith;
  index = λ w fd name x. refl;
  hwaddr = λ w fd name x. refl;
  flags = λ w fd name x. refl;
  flagged = λ w fd name n x. refl;
  reused = λ w fd x. refl;
  timed = λ w fd n x. refl;
  bound = λ w fd i mac x. refl;
}

abbrev closed_if : EtherIfs
closed_if = record {
  ether_if = record { el_fd = none; el_mac = []; ifr_name = []; ifr_ifindex = 0 } ∷ [];
  ether_next_handle = 0;
}

ether_init_cases_example :
    ((1 ≤ closed_if.ether_next_handle)
      × (ether_init one_fd false closed_if none none ≡ (false, closed_if, no_interface)))
    ⊎ ((closed_if.ether_next_handle ≡ 0)
        × InitOutcome one_fd fd_open one_fd-Fds false none none
            (ether_init one_fd false closed_if none none))
ether_init_cases_example = ether_init_cases one_fd fd_open one_fd-Fds false closed_if none none refl
