-- ===== src/Ip/Route.antt =====
-- The routing table: src/ip_route.c. The two search trees are found by network and by interface
-- address; `free` is the length of the free list, of which only that matters. The trees compare two keys
-- by `key_cmp`, which orders only keys near each other, so nothing is assumed of them for others.
pub mod Laws
pub mod Agree
pub mod Table
use nstack.Base.{
  ℕ, zero, suc, ◌+◌, ◌-◌, ◌*◌, ◌/◌, ◌%◌, ◌^◌, ltb, List, [], ◌∷◌, Bool, true, false, ◌&&◌, Option,
  none, some, ◌==◌, if◌then◌else◌,
}
use nstack.Base.Errno.{enoent, Ret, done, fail}
use nstack.Base.Outcome.{Fault, null_dereference, out_of_bounds, Outcome, returns, faults, ◌>>=◌}
use nstack.RbMap.{RbMap}

-- `struct ip_route`.
pub record IpRoute : Type 0 where
  pub r_network : ℕ
  pub r_netmask : ℕ
  pub r_gw : ℕ
  pub r_iface : ℕ
  pub r_iface_handle : ℕ

-- `NSTACK_IP_RIB_SIZE`.
abbrev pub ip_rib_size : ℕ
ip_rib_size = 5

-- `a & b` on words of `w` bits.
unfoldable pub and_bits : ℕ → ℕ → ℕ → ℕ
and_bits zero a b = 0
and_bits (suc w) a b =
    let rest = and_bits w (a / 2) (b / 2) in (if a % 2 == 1 && b % 2 == 1 then 1 else 0) + 2 * rest

-- The first route of the list whose network is the address under its mask.
unfoldable pub first_match : ℕ → List IpRoute → Option IpRoute
first_match addr [] = none
first_match addr (route ∷ routes) =
    let rest = first_match addr routes in
    if route.r_network == and_bits 32 addr route.r_netmask then some route else rest

-- `route_network_cmp` and `route_iface_cmp`: the difference of two `uint32_t` as an `int`; of it only
-- the sign matters.
pub data Sign : Type 0 where
  negative zeroed positive : Sign

unfoldable pub key_cmp : ℕ → ℕ → Sign
key_cmp a b =
    let difference = (a + 2 ^ 32 - b) % 2 ^ 32 in
    if difference == 0 then zeroed else if ltb difference (2 ^ 31) then positive else negative

module _ (trees : RbMap ℕ IpRoute) where
  pub record Rib : Type 0 where
    pub rib_routetree : trees.Map
    pub rib_sourcetree : trees.Map
    pub free : ℕ

  -- `ip_route_init`: empty trees, and every entry of the array is free.
  unfoldable pub ip_route_init : Rib
  ip_route_init = record {
    rib_routetree = trees.empty;
    rib_sourcetree = trees.empty;
    free = ip_rib_size;
  }

  -- RB_INSERT leaves the tree as it is if a node with the same key is in it.
  unfoldable pub rb_insert : ℕ → IpRoute → trees.Map → trees.Map
  rb_insert key route tree = elim (trees.find key tree) [
    | some other ↦ tree
    | none ↦ trees.insert key route tree
  ]

  -- `ip_route_tree_insert`.
  unfoldable pub ip_route_tree_insert : Rib → IpRoute → Rib
  unfolding rb_insert
  ip_route_tree_insert rib route = record rib {
    rib_routetree = rb_insert route.r_network route rib.rib_routetree;
    rib_sourcetree = rb_insert route.r_iface route rib.rib_sourcetree;
  }

  -- `ip_route_tree_remove` of an entry that is in the tree of networks. RB_REMOVE of an entry that
  -- never came into the tree of interfaces writes through links that are not its own.
  unfoldable pub ip_route_tree_remove : Rib → IpRoute → Outcome Rib
  ip_route_tree_remove rib entry = elim (trees.find entry.r_iface rib.rib_sourcetree) [
    | none ↦ faults out_of_bounds
    | some linked ↦
        if linked.r_network == entry.r_network
        then returns (record rib {
          rib_routetree = trees.remove entry.r_network rib.rib_routetree;
          rib_sourcetree = trees.remove entry.r_iface rib.rib_sourcetree;
        })
        else faults out_of_bounds
  ]

  -- `ip_route_add`. SLIST_REMOVE_HEAD of an empty list follows a null pointer, before the entry is
  -- compared with NULL.
  unfoldable pub ip_route_add : Rib → IpRoute → Outcome Rib
  unfolding ip_route_tree_insert
  ip_route_add rib route =
      if rib.free == 0
      then faults null_dereference
      else returns (ip_route_tree_insert (record rib { free = rib.free - 1 }) route)

  -- `ip_route_update`; its result is 0 wherever it returns.
  unfoldable pub ip_route_update : Rib → IpRoute → Outcome Rib
  unfolding ip_route_add ip_route_tree_remove ip_route_tree_insert
  ip_route_update rib route = elim (trees.find route.r_network rib.rib_routetree) [
    | none ↦ ip_route_add rib route
    | some entry ↦
        ip_route_tree_remove rib entry >>= (λ rib'. returns (ip_route_tree_insert rib' route))
  ]

  -- `ip_route_remove`.
  unfoldable pub ip_route_remove : Rib → IpRoute → Outcome (Rib × Ret)
  unfolding ip_route_tree_remove
  ip_route_remove rib route = elim (trees.find route.r_network rib.rib_routetree) [
    | none ↦ returns (rib, fail enoent)
    | some entry ↦
        ip_route_tree_remove rib entry
        >>= (λ rib'. returns (record rib' { free = rib'.free + 1 }, done 0))
  ]

  -- `ip_route_find_by_network`; `none` is the -1 with ENOENT.
  unfoldable pub ip_route_find_by_network : Rib → ℕ → Option IpRoute
  unfolding first_match
  ip_route_find_by_network rib addr =
      let default_gw = trees.find 0 rib.rib_routetree in
      let masked : Option IpRoute = elim (first_match addr (trees.to_list rib.rib_routetree)) [
        | some route ↦ some route
        | none ↦ default_gw
      ] in
      elim (trees.find addr rib.rib_routetree) [ some route ↦ some route | none ↦ masked ]

  -- `ip_route_find_by_iface`; `none` is the -1 with ENOENT.
  unfoldable pub ip_route_find_by_iface : Rib → ℕ → Option IpRoute
  ip_route_find_by_iface rib addr = trees.find addr rib.rib_sourcetree
