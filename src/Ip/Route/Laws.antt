-- ===== src/Ip/Route/Laws.antt =====
-- What the routing table finds after a change, and where changing it goes wrong.
use nstack.Base.{
  ℕ, ◌≡◌, ◌≢◌, ◌<◌, ◌⊎◌, inl, inr, refl, arith, ◌+◌, ◌-◌, List, [], ◌∷◌, true, Bool-cases,
  Option-cases, ==_iff, ap, ◌++◌, none, some, ◌==◌,
}
use nstack.Base.Outcome.{null_dereference, returns, faults}
use nstack.RbMap.{RbMap, IsMap}
use nstack.Ip.Route.{
  IpRoute, and_bits, first_match, Rib, rb_insert, ip_route_tree_insert, ip_route_update,
  ip_route_find_by_network, ip_route_find_by_iface,
}

-- No route of the list has the address under its mask as its network.
abbrev pub NoneMatch : ℕ → List IpRoute → Type 0
NoneMatch addr [] = Unit {0}
NoneMatch addr (route ∷ routes) =
    (route.r_network ≢ and_bits 32 addr route.r_netmask) × NoneMatch addr routes

first_match_cases :
    (addr : ℕ) (routes : List IpRoute)
    → (NoneMatch addr routes × (first_match addr routes ≡ none))
      ⊎ ((before : List IpRoute) × (route : IpRoute) × (behind : List IpRoute) × (routes
            ≡ before ++ route ∷ behind)
          × NoneMatch addr before
          × (route.r_network ≡ and_bits 32 addr route.r_netmask)
          × (first_match addr routes ≡ some route))
unfolding first_match
first_match_cases addr [] = inl (tt, refl)
first_match_cases addr (route ∷ routes) =
    let test = route.r_network == and_bits 32 addr route.r_netmask in
    elim (Bool-cases test) [
      | inl hit ↦ inr (
        [],
        route,
        routes,
        refl,
        tt,
        (==_iff route.r_network (and_bits 32 addr route.r_netmask)).0 hit,
        rw hit refl,
      )
      | inr miss ↦
          let apart : route.r_network ≢ and_bits 32 addr route.r_netmask = λ same.
            let hit : test ≡ true =
              (==_iff route.r_network (and_bits 32 addr route.r_netmask)).1 same in
            cc in
          elim (first_match_cases addr routes) [
            | inl (none_match, m) ↦ inl ((apart, none_match), rw miss m)
            | inr (before, hit, behind, split, none_match, matches, m) ↦ inr (
              route ∷ before,
              hit,
              behind,
              ap (λ t. route ∷ t) split,
              (apart, none_match),
              matches,
              rw miss m,
            )
          ]
    ]

module _ (trees : RbMap ℕ IpRoute) where
  -- Without a route for the interface before, the new one is found for it.
  by_iface :
      (laws : IsMap ◌==◌ trees) (rib : Rib trees) (route : IpRoute)
      → (trees.find route.r_iface (rb_insert trees route.r_iface route rib.rib_sourcetree)
          ≡ some route)
        ⊎ (trees.find route.r_iface rib.rib_sourcetree ≢ none)
  unfolding rb_insert
  by_iface laws rib route =
      ground (arith, laws.find-insert route.r_iface route.r_iface route rib.rib_sourcetree)

  by_network :
      (laws : IsMap ◌==◌ trees) (rib : Rib trees) (route : IpRoute)
      → trees.find route.r_network rib.rib_routetree ≡ none
      → trees.find route.r_network
          (ip_route_tree_insert trees (record rib { free = rib.free - 1 }) route).rib_routetree
        ≡ some route
  unfolding ip_route_tree_insert
  by_network laws rib route new =
      ground (arith, laws.find-insert route.r_network route.r_network route rib.rib_routetree)

  found_exact :
      (rib : Rib trees) (addr : ℕ) (route : IpRoute)
      → trees.find addr rib.rib_routetree ≡ some route
      → ip_route_find_by_network trees rib addr ≡ some route
  unfolding ip_route_find_by_network
  found_exact rib addr route e = rw (e, ip_route_find_by_network) refl

  -- An address is routed by the route for just that network; without one, by the first route of the
  -- table whose network is the address under its mask; without one, by the route for network 0.
  pub ip_route_find_by_network_cases :
      (rib : Rib trees) (addr : ℕ)
      → let found = ip_route_find_by_network trees rib addr in
        ((route : IpRoute) × (trees.find addr rib.rib_routetree ≡ some route)
          × (found ≡ some route))
        ⊎ ((trees.find addr rib.rib_routetree ≡ none)
            × ((before : List IpRoute) × (route : IpRoute) × (behind : List IpRoute)
                × (trees.to_list rib.rib_routetree ≡ before ++ route ∷ behind)
                × NoneMatch addr before
                × (route.r_network ≡ and_bits 32 addr route.r_netmask)
                × (found ≡ some route)))
        ⊎ ((trees.find addr rib.rib_routetree ≡ none)
            × NoneMatch addr (trees.to_list rib.rib_routetree)
            × (found ≡ trees.find 0 rib.rib_routetree))
  unfolding ip_route_find_by_network
  ip_route_find_by_network_cases rib addr =
      elim (Option-cases (trees.find addr rib.rib_routetree)) [
        | inr (route, e) ↦ inl (route, e, rw (e, ip_route_find_by_network) refl)
        | inl e ↦ elim (first_match_cases addr (trees.to_list rib.rib_routetree)) [
          | inl (none_match, m) ↦
              inr (inr (e, none_match, rw (e, ip_route_find_by_network) (rw m refl)))
          | inr (before, route, behind, split, none_match, matches, m) ↦ inr (
              inl (
                e,
                (
                  before,
                  route,
                  behind,
                  split,
                  none_match,
                  matches,
                  rw (e, ip_route_find_by_network) (rw m refl),
                ),
              ))
        ]
      ]

  -- An update by a route for a new network, in a table with room, makes the route the one that is found
  -- for its network; if no route had its interface, also the one that is found for that.
  pub ip_route_update_found :
      (laws : IsMap ◌==◌ trees) (rib : Rib trees) (route : IpRoute)
      → trees.find route.r_network rib.rib_routetree ≡ none
      → 0 < rib.free
      → (rib' : Rib trees) × (ip_route_update trees rib route ≡ returns rib')
        × (ip_route_find_by_network trees rib' route.r_network ≡ some route)
        × (rib'.free + 1 ≡ rib.free)
        × ((ip_route_find_by_iface trees rib' route.r_iface ≡ some route)
            ⊎ (ip_route_find_by_iface trees rib route.r_iface ≢ none))
  unfolding ip_route_update ip_route_find_by_iface
  ip_route_update_found laws rib route new room =
      let rib' = ip_route_tree_insert trees (record rib { free = rib.free - 1 }) route in
      (
        rib',
        ground arith,
        found_exact rib' route.r_network route (by_network laws rib route new),
        omega arith,
        by_iface laws rib route,
      )

  -- A new route for a full table is not refused: the code follows a null pointer.
  pub ip_route_update_full :
      (rib : Rib trees) (route : IpRoute)
      → trees.find route.r_network rib.rib_routetree ≡ none
      → rib.free ≡ 0
      → ip_route_update trees rib route ≡ faults null_dereference
  unfolding ip_route_update
  ip_route_update_full rib route new full = ground arith
