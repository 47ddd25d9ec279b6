-- ===== src/Ip/Route/Table.antt =====
-- The two search trees of src/ip_route.c agree with each other.
use nstack.Base.{
  ℕ, ◌<◌, ◌≡◌, ◌⊎◌, inl, inr, refl, sym, ap, ◌∙◌, arith, ◌-◌, ◌+◌, false, Option-cases, ==_refl,
  none, some, ◌==◌,
}
use nstack.Base.Errno.{enoent, done, fail}
use nstack.Base.Outcome.{returns}
use mathlib.Core.Path.{subst}
use native.Mathlib.Decide.{ℕ_discrete}
use nstack.RbMap.{RbMap, Near, IsMapOn}
use nstack.Ip.Route.{
  IpRoute, Rib, rb_insert, ip_route_init, ip_route_add, ip_route_tree_insert, ip_route_tree_remove,
  ip_route_update, ip_route_remove, ip_route_find_by_network, ip_route_find_by_iface,
}
use nstack.Ip.Route.Agree.{
  none_apart, same_found, find-insert_self, find-remove_self, find-remove_other, insert-Agree,
  remove-Agree, Agree,
}

module _ (trees : RbMap ℕ IpRoute) (base : ℕ) (laws : IsMapOn (Near base) ◌==◌ trees) where
  -- The trees work as maps, and each route is found in both, by its network and by its interface.
  pub record IsTable (rib : Rib trees) : Type 0 where
    pub routetree : laws.Holds rib.rib_routetree
    pub sourcetree : laws.Holds rib.rib_sourcetree
    pub networks :
        Agree trees
          (Near base)
          (λ r. r.r_network)
          (λ r. r.r_iface)
          rib.rib_routetree
          rib.rib_sourcetree
    pub ifaces :
        Agree trees
          (Near base)
          (λ r. r.r_iface)
          (λ r. r.r_network)
          rib.rib_sourcetree
          rib.rib_routetree

  -- A route for a new network and a new interface.
  abbrev added : Rib trees → IpRoute → Rib trees
  added rib route = record rib {
    rib_routetree = trees.insert route.r_network route rib.rib_routetree;
    rib_sourcetree = trees.insert route.r_iface route rib.rib_sourcetree;
  }

  abbrev without : Rib trees → IpRoute → Rib trees
  without rib route = record rib {
    rib_routetree = trees.remove route.r_network rib.rib_routetree;
    rib_sourcetree = trees.remove route.r_iface rib.rib_sourcetree;
  }

  pub ip_route_init-IsTable : IsTable (ip_route_init trees)
  unfolding ip_route_init
  ip_route_init-IsTable = record {
    routetree = laws.holds-empty;
    sourcetree = laws.holds-empty;
    networks = λ k r o e. absurd (ground (arith, sym (laws.find-empty k) ∙ e));
    ifaces = λ a r o e. absurd (ground (arith, sym (laws.find-empty a) ∙ e));
  }

  -- The keys of a route are near each other.
  abbrev AreNear : IpRoute → Type 0
  AreNear route = Near base route.r_network × Near base route.r_iface

  added-IsTable :
      (rib : Rib trees) (route : IpRoute)
      → AreNear route
      → IsTable rib
      → trees.find route.r_network rib.rib_routetree ≡ none
      → trees.find route.r_iface rib.rib_sourcetree ≡ none
      → IsTable (added rib route)
  added-IsTable rib route (net, iface) v no_net no_iface = record {
    routetree = laws.holds-insert route.r_network route rib.rib_routetree net v.routetree;
    sourcetree = laws.holds-insert route.r_iface route rib.rib_sourcetree iface v.sourcetree;
    networks =
        insert-Agree trees (Near base) laws (λ r. r.r_network) (λ r. r.r_iface) rib.rib_routetree
          rib.rib_sourcetree route v.routetree v.sourcetree net iface v.networks no_iface;
    ifaces =
        insert-Agree trees (Near base) laws (λ r. r.r_iface) (λ r. r.r_network) rib.rib_sourcetree
          rib.rib_routetree route v.sourcetree v.routetree iface net v.ifaces no_net;
  }

  without-IsTable :
      (rib : Rib trees) (route : IpRoute)
      → AreNear route
      → IsTable rib
      → trees.find route.r_network rib.rib_routetree ≡ some route
      → IsTable (without rib route)
  without-IsTable rib route (net, iface) v found = record {
    routetree = laws.holds-remove route.r_network rib.rib_routetree net v.routetree;
    sourcetree = laws.holds-remove route.r_iface rib.rib_sourcetree iface v.sourcetree;
    networks =
        remove-Agree trees (Near base) laws (λ r. r.r_network) (λ r. r.r_iface) rib.rib_routetree
          rib.rib_sourcetree route v.routetree v.sourcetree net v.networks found;
    ifaces =
        remove-Agree trees (Near base) laws (λ r. r.r_iface) (λ r. r.r_network) rib.rib_sourcetree
          rib.rib_routetree route v.sourcetree v.routetree iface v.ifaces
          (v.networks route.r_network route net found).2;
  }

  -- What is found for a network: its own route, which is found by its interface, too.
  abbrev IsEntry : Rib trees → ℕ → IpRoute → Type 0
  IsEntry rib k entry =
      (entry.r_network ≡ k)
      × AreNear entry
      × (trees.find entry.r_network rib.rib_routetree ≡ some entry)
      × (trees.find entry.r_iface rib.rib_sourcetree ≡ some entry)

  found-IsEntry :
      (rib : Rib trees) (k : ℕ) (entry : IpRoute)
      → Near base k
      → IsTable rib
      → trees.find k rib.rib_routetree ≡ some entry
      → IsEntry rib k entry
  found-IsEntry rib k entry near v found =
      let (net, iface, there) = v.networks k entry near found in
      (
        net,
        (subst (Near base) (sym net) near, iface),
        ap (λ j. trees.find j rib.rib_routetree) net ∙ found,
        there,
      )

  removed_lem :
      (rib : Rib trees) (k : ℕ) (entry : IpRoute)
      → IsEntry rib k entry
      → ip_route_tree_remove trees rib entry ≡ returns (without rib entry)
  unfolding ip_route_tree_remove
  removed_lem rib k entry (net, near, found, there) =
      rw (there, ip_route_tree_remove, ==_refl entry.r_network) refl

  inserted_lem :
      (rib : Rib trees) (route : IpRoute)
      → trees.find route.r_network rib.rib_routetree ≡ none
      → trees.find route.r_iface rib.rib_sourcetree ≡ none
      → ip_route_tree_insert trees rib route ≡ added rib route
  unfolding ip_route_tree_insert rb_insert
  inserted_lem rib route no_net no_iface =
      rw (ip_route_tree_insert, rb_insert, no_net, no_iface) refl

  find_by_network :
      (rib : Rib trees) (k : ℕ) (route : IpRoute)
      → trees.find k rib.rib_routetree ≡ some route
      → ip_route_find_by_network trees rib k ≡ some route
  unfolding ip_route_find_by_network
  find_by_network rib k route e = rw (e, ip_route_find_by_network) refl

  find_by_iface :
      (rib : Rib trees) (a : ℕ) (route : IpRoute)
      → trees.find a rib.rib_sourcetree ≡ some route
      → ip_route_find_by_iface trees rib a ≡ some route
  unfolding ip_route_find_by_iface
  find_by_iface rib a route e = e

  iface_is_new :
      (rib : Rib trees) (route : IpRoute)
      → AreNear route
      → IsTable rib
      → ((other : IpRoute)
          → trees.find route.r_iface rib.rib_sourcetree ≡ some other
          → other.r_network ≡ route.r_network)
      → trees.find route.r_network rib.rib_routetree ≡ none
      → trees.find route.r_iface rib.rib_sourcetree ≡ none
  iface_is_new rib route (net, near) v own new =
      elim (Option-cases (trees.find route.r_iface rib.rib_sourcetree)) [
        | inl e ↦ e
        | inr (other, e) ↦
            let same = ap (λ k. trees.find k rib.rib_routetree) (own other e) in
            absurd (none_apart (sym new ∙ sym same ∙ (v.ifaces route.r_iface other near e).2))
      ]

  iface_is_free :
      (rib : Rib trees) (route entry : IpRoute)
      → AreNear route
      → AreNear entry
      → IsTable rib
      → ((other : IpRoute)
          → trees.find route.r_iface rib.rib_sourcetree ≡ some other
          → other.r_network ≡ route.r_network)
      → trees.find route.r_network rib.rib_routetree ≡ some entry
      → trees.find route.r_iface (without rib entry).rib_sourcetree ≡ none
  iface_is_free rib route entry (net, near) (net_e, near_e) v own found =
      elim (ℕ_discrete route.r_iface entry.r_iface) [
        | yes same ↦
            ap (λ a. trees.find a (without rib entry).rib_sourcetree) same
            ∙ find-remove_self trees (Near base) laws entry.r_iface rib.rib_sourcetree near_e
                v.sourcetree
        | no apart ↦
            find-remove_other trees (Near base) laws route.r_iface entry.r_iface rib.rib_sourcetree
              near near_e v.sourcetree apart
            ∙ elim (Option-cases (trees.find route.r_iface rib.rib_sourcetree)) [
              | inl e ↦ e
              | inr (other, e) ↦
                  let (iface, _, there) = v.ifaces route.r_iface other near e in
                  let same = ap (λ k. trees.find k rib.rib_routetree) (own other e) in
                  let it : entry ≡ other =
                    same_found (trees.find route.r_network rib.rib_routetree) found
                      (sym same ∙ there) in
                  absurd (apart (sym iface ∙ sym (ap (λ (r : IpRoute). r.r_iface) it)))
            ]
      ]

  gone_network :
      (rib : Rib trees) (k : ℕ) (entry : IpRoute)
      → IsEntry rib k entry
      → IsTable rib
      → trees.find k (without rib entry).rib_routetree ≡ none
  gone_network rib k entry (net, (near, _), _, _) v =
      ap (λ j. trees.find j (without rib entry).rib_routetree) (sym net)
      ∙ find-remove_self trees (Near base) laws entry.r_network rib.rib_routetree near v.routetree

  -- A route that was added is found.
  added_found :
      (rib : Rib trees) (route : IpRoute)
      → AreNear route
      → IsTable rib
      → trees.find route.r_network rib.rib_routetree ≡ none
      → trees.find route.r_iface rib.rib_sourcetree ≡ none
      → IsTable (added rib route)
        × (ip_route_find_by_network trees (added rib route) route.r_network ≡ some route)
        × (ip_route_find_by_iface trees (added rib route) route.r_iface ≡ some route)
  added_found rib route (net, iface) v no_net no_iface = (
    added-IsTable rib route (net, iface) v no_net no_iface,
    find_by_network (added rib route) route.r_network route (
        find-insert_self trees (Near base) laws route.r_network route rib.rib_routetree net
          v.routetree),
    find_by_iface (added rib route) route.r_iface route (
        find-insert_self trees (Near base) laws route.r_iface route rib.rib_sourcetree iface
          v.sourcetree),
  )

  update_new :
      (rib : Rib trees) (route : IpRoute)
      → trees.find route.r_network rib.rib_routetree ≡ none
      → 0 < rib.free
      → ip_route_update trees rib route
        ≡ returns (ip_route_tree_insert trees (record rib { free = rib.free - 1 }) route)
  unfolding ip_route_update ip_route_add
  update_new rib route new room =
      let some_free : (rib.free == 0) ≡ false = ground arith in
      rw (new, ip_route_update, ip_route_add, some_free) refl

  update_known :
      (rib : Rib trees) (route entry : IpRoute)
      → IsEntry rib route.r_network entry
      → trees.find route.r_network rib.rib_routetree ≡ some entry
      → ip_route_update trees rib route
        ≡ returns (ip_route_tree_insert trees (without rib entry) route)
  unfolding ip_route_update
  update_known rib route entry v found =
      rw (found, ip_route_update, removed_lem rib route.r_network entry v) refl

  -- Where the trees work as maps for keys near each other (32-bit numbers among the 2^31 from
  -- `base` on, for which the comparison by an `int` difference is an order; for others it is none):
  -- on a table that has such keys only and whose trees agree, an update by a route with such keys,
  -- whose interface is not that of another network, succeeds, if the network is in the table or an
  -- entry is free. The trees of the new table agree again, and the route is the one that is found
  -- for its network and for its interface.
  pub ip_route_update-IsTable :
      (rib : Rib trees) (route : IpRoute)
      → Near base route.r_network
      → Near base route.r_iface
      → IsTable rib
      → ((other : IpRoute)
          → trees.find route.r_iface rib.rib_sourcetree ≡ some other
          → other.r_network ≡ route.r_network)
      → (trees.find route.r_network rib.rib_routetree ≡ none → 0 < rib.free)
      → (rib' : Rib trees) × (ip_route_update trees rib route ≡ returns rib')
        × IsTable rib'
        × (ip_route_find_by_network trees rib' route.r_network ≡ some route)
        × (ip_route_find_by_iface trees rib' route.r_iface ≡ some route)
  ip_route_update-IsTable rib route near_net near_iface v own room =
      elim (Option-cases (trees.find route.r_network rib.rib_routetree)) [
        | inl new ↦
            let rib1 : Rib trees = record rib { free = rib.free - 1 } in
            let v1 : IsTable rib1 = record {
              routetree = v.routetree;
              sourcetree = v.sourcetree;
              networks = v.networks;
              ifaces = v.ifaces;
            } in
            let no_iface = iface_is_new rib route (near_net, near_iface) v own new in
            let (kept, by_network, by_iface) =
              added_found rib1 route (near_net, near_iface) v1 new no_iface in
            (
              added rib1 route,
              update_new rib route new (room new)
                  ∙ ap returns (inserted_lem rib1 route new no_iface),
              kept,
              by_network,
              by_iface,
            )
        | inr (entry, found) ↦
            let rib1 : Rib trees = without rib entry in
            let it : IsEntry rib route.r_network entry =
              found-IsEntry rib route.r_network entry near_net v found in
            let (net, near, self, there) = it in
            let v1 : IsTable rib1 = without-IsTable rib entry near v self in
            let no_net : trees.find route.r_network rib1.rib_routetree ≡ none =
              gone_network rib route.r_network entry it v in
            let no_iface = iface_is_free rib route entry (near_net, near_iface) near v own found in
            let (kept, by_network, by_iface) =
              added_found rib1 route (near_net, near_iface) v1 no_net no_iface in
            (
              added rib1 route,
              update_known rib route entry it found
                  ∙ ap returns (inserted_lem rib1 route no_net no_iface),
              kept,
              by_network,
              by_iface,
            )
      ]

  -- Where the trees work as maps for keys near each other (32-bit numbers among the 2^31 from `base`
  -- on, for which the comparison by an `int` difference is an order; for others it is none): on a table
  -- that has such keys only and whose trees agree, removing a network that is such a key and not in it
  -- fails with ENOENT and changes nothing; removing one that is in it succeeds, the trees agree
  -- again, and neither the network's own entry nor that of its interface is left.
  pub ip_route_remove-IsTable :
      (rib : Rib trees) (route : IpRoute)
      → Near base route.r_network
      → IsTable rib
      → ((trees.find route.r_network rib.rib_routetree ≡ none)
          × (ip_route_remove trees rib route ≡ returns (rib, fail enoent)))
        ⊎ ((entry : IpRoute) × (rib' : Rib trees) × (trees.find route.r_network rib.rib_routetree
              ≡ some entry)
            × (ip_route_remove trees rib route ≡ returns (rib', done 0))
            × IsTable rib'
            × (rib'.free ≡ rib.free + 1)
            × (trees.find route.r_network rib'.rib_routetree ≡ none)
            × (ip_route_find_by_iface trees rib' entry.r_iface ≡ none))
  unfolding ip_route_remove ip_route_find_by_iface
  ip_route_remove-IsTable rib route near_net v =
      elim (Option-cases (trees.find route.r_network rib.rib_routetree)) [
        | inl missing ↦ inl (missing, rw (missing, ip_route_remove) refl)
        | inr (entry, found) ↦
            let it : IsEntry rib route.r_network entry =
              found-IsEntry rib route.r_network entry near_net v found in
            let (net, near, self, there) = it in
            let v1 : IsTable (without rib entry) = without-IsTable rib entry near v self in
            inr (
              entry,
              record (without rib entry) { free = rib.free + 1 },
              found,
              rw (found, ip_route_remove, removed_lem rib route.r_network entry it) refl,
              record {
                routetree = v1.routetree;
                sourcetree = v1.sourcetree;
                networks = v1.networks;
                ifaces = v1.ifaces;
              },
              refl,
              gone_network rib route.r_network entry it v,
              find-remove_self trees (Near base) laws entry.r_iface rib.rib_sourcetree near.1
                  v.sourcetree,
            )
      ]
