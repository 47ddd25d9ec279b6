-- ===== src/Tests/Routes.antt =====
-- Examples for the routing table.
use nstack.Tests.{fun_map, fun_map-IsMap}
use nstack.Base.{ℕ, ◌+◌, ◌≡◌, ◌⊎◌, refl, sym, arith, none, some, ◌==◌}
use nstack.Base.Errno.{enoent, done, fail}
use nstack.Base.Outcome.{returns}
use mathlib.Core.Path.{subst}
use nstack.RbMap.{RbMap, Near, IsMapOn}
use nstack.Ip.Route.{
  IpRoute, Rib, ip_route_update, ip_route_remove, ip_route_find_by_network, ip_route_find_by_iface,
}
use nstack.Ip.Route.Table.{IsTable, ip_route_update-IsTable, ip_route_remove-IsTable}

abbrev routes : RbMap ℕ IpRoute
routes = fun_map ◌==◌

abbrev lan : IpRoute
lan = record {
  r_network = 0x0a000000;
  r_netmask = 0xffffff00;
  r_gw = 0;
  r_iface = 0x0a000002;
  r_iface_handle = 0;
}

-- The same network by another interface.
abbrev moved_lan : IpRoute
moved_lan = record lan { r_iface = 0x0a000003 }

abbrev one_route : Rib routes
one_route = record {
  rib_routetree = routes.insert 0x0a000000 lan routes.empty;
  rib_sourcetree = routes.insert 0x0a000002 lan routes.empty;
  free = 4;
}

at_lan :
    (j k : ℕ) (r : IpRoute)
    → routes.find j (routes.insert k lan routes.empty) ≡ some r
    → (j ≡ k) × (lan ≡ r)
at_lan j k r e = ground (arith, e)

-- This map keeps every key, so its laws hold for those of 10.0.0.0 and beyond, too.
abbrev near_laws : IsMapOn (Near 0x0a000000) ◌==◌ routes
near_laws =
    let laws = fun_map-IsMap ◌==◌ in
    record {
      Holds = λ t. Unit;
      holds-empty = tt;
      holds-insert = λ k v t o h. tt;
      holds-remove = λ k t o h. tt;
      find-empty = laws.find-empty;
      find-insert = λ j k v t oj o h. laws.find-insert j k v t;
      find-remove = λ j k t oj o h. laws.find-remove j k t;
    }

one_route-IsTable : IsTable routes 0x0a000000 near_laws one_route
one_route-IsTable = record {
  routetree = tt;
  sourcetree = tt;
  networks = λ k r o e.
      let (same, it) = at_lan k 0x0a000000 r e in
      subst
        (λ q.
          (q.r_network ≡ k)
          × Near 0x0a000000 q.r_iface
          × (routes.find q.r_iface one_route.rib_sourcetree ≡ some q))
        it (sym same, (omega arith, omega arith), refl);
  ifaces = λ a r o e.
      let (same, it) = at_lan a 0x0a000002 r e in
      subst
        (λ q.
          (q.r_iface ≡ a)
          × Near 0x0a000000 q.r_network
          × (routes.find q.r_network one_route.rib_routetree ≡ some q))
        it (sym same, (omega arith, omega arith), refl);
}

ip_route_update-IsTable_example :
    (rib' : Rib routes) × (ip_route_update routes one_route moved_lan ≡ returns rib')
    × IsTable routes 0x0a000000 near_laws rib'
    × (ip_route_find_by_network routes rib' 0x0a000000 ≡ some moved_lan)
    × (ip_route_find_by_iface routes rib' 0x0a000003 ≡ some moved_lan)
ip_route_update-IsTable_example =
    ip_route_update-IsTable routes 0x0a000000 near_laws one_route moved_lan
      (omega arith, omega arith) (omega arith, omega arith) one_route-IsTable
      (λ other e. absurd (ground (arith, e))) (λ new. omega arith)

ip_route_remove-IsTable_example :
    ((routes.find 0x0a000000 one_route.rib_routetree ≡ none)
      × (ip_route_remove routes one_route lan ≡ returns (one_route, fail enoent)))
    ⊎ ((entry : IpRoute) × (rib' : Rib routes) × (routes.find 0x0a000000 one_route.rib_routetree
          ≡ some entry)
        × (ip_route_remove routes one_route lan ≡ returns (rib', done 0))
        × IsTable routes 0x0a000000 near_laws rib'
        × (rib'.free ≡ one_route.free + 1)
        × (routes.find 0x0a000000 rib'.rib_routetree ≡ none)
        × (ip_route_find_by_iface routes rib' entry.r_iface ≡ none))
ip_route_remove-IsTable_example =
    ip_route_remove-IsTable routes 0x0a000000 near_laws one_route lan (omega arith, omega arith)
      one_route-IsTable
