-- ===== src/Arp/Cache/Laws.antt =====
-- What `arp_cache_insert` does to a cache.
use nstack.Base.{
  ℕ, ◌≡◌, ◌≢◌, ◌⊎◌, inl, inr, refl, sym, ap, ◌∙◌, arith, false, none, some, ◌==◌, Option-cases, set,
  length-set, get_or-set_self, get_or-set_ne,
}
use nstack.Base.Int.{ℤ, pos, neg_part}
use nstack.Base.Errno.{done}
use nstack.Base.Outcome.{returns}
use nstack.RbMap.{RbMap, IsMap}
use nstack.Arp.Cache.{
  ArpCacheEntry, arp_cache_dyn, zero_entry, slot_at, pick_slot, ArpCache, init_cache, is_linked,
  fill_slot, arp_cache_insert, cached_haddr,
}
use nstack.Arp.Cache.Slots.{pick_slot-init}
use nstack.Arp.Cache.Tidy.{IsIndexed, CanTake, same_value, cached_at, find_same, find_other}
use nstack.Arp.Cache.Insert.{is_linked_no, insert_new_lem, insert_new_unused}

module _ (index : RbMap ℕ ℕ) (laws : IsMap ◌==◌ index) where
  -- The entry of an address that the tree has, with its age set to 0 again.
  abbrev renewed : ArpCache index → ℕ → ArpCache index
  renewed c i = record c {
    arp_cache = set c.arp_cache i (record (slot_at c.arp_cache i) { age = arp_cache_dyn });
  }

  module _ (c : ArpCache index) (tidy : IsIndexed index laws c) (addr i : ℕ)
      (found : index.find addr c.arp_cache_head ≡ some i) where
    renewed_slot :
        slot_at (renewed c i).arp_cache i ≡ record (slot_at c.arp_cache i) { age = arp_cache_dyn }
    renewed_slot =
        get_or-set_self c.arp_cache i (record (slot_at c.arp_cache i) { age = arp_cache_dyn })
          zero_entry (omega (arith, tidy.sized, (tidy.linked addr i found).0))

    renewed_other : (j : ℕ) → i ≢ j → slot_at (renewed c i).arp_cache j ≡ slot_at c.arp_cache j
    renewed_other j apart =
        get_or-set_ne c.arp_cache (record (slot_at c.arp_cache i) { age = arp_cache_dyn })
          zero_entry apart

    renewed_addr :
        (j : ℕ) → (slot_at (renewed c i).arp_cache j).ip_addr ≡ (slot_at c.arp_cache j).ip_addr
    renewed_addr j = elim (same_value index laws i j) [
      | inl e ↦
          ap (λ m. (slot_at (renewed c i).arp_cache m).ip_addr) (sym e)
          ∙ ap (λ t. t.ip_addr) renewed_slot
          ∙ ap (λ m. (slot_at c.arp_cache m).ip_addr) e
      | inr apart ↦ ap (λ t. t.ip_addr) (renewed_other j apart)
    ]

    renewed-IsIndexed : IsIndexed index laws (renewed c i)
    renewed-IsIndexed = record {
      sized =
          length-set c.arp_cache i (record (slot_at c.arp_cache i) { age = arp_cache_dyn })
          ∙ tidy.sized;
      linked = λ k j h. let was = tidy.linked k j h in (was.0, renewed_addr j ∙ was.1);
    }

    renewed_cached : cached_haddr index (renewed c i) addr ≡ some (slot_at c.arp_cache i).haddr
    renewed_cached =
        cached_at index laws (renewed c i) addr i found (ap (λ t. neg_part t.age) renewed_slot)
        ∙ ap (λ t. some t.haddr) renewed_slot

  -- In a cache whose tree, a map, refers to its slots, where the loop settles on a slot that can be
  -- taken, a dynamic entry finds a slot, and the tree refers to slots again. An address that was
  -- not known is resolved to the hardware address afterwards; one that was known keeps the hardware
  -- address that it had, whatever the new one.
  pub arp_cache_insert_keeps :
      (c : ArpCache index) (addr haddr : ℕ)
      → IsIndexed index laws c
      → CanTake index laws c
      → addr ≢ 0
      → (c' : ArpCache index) × (arp_cache_insert index c addr haddr arp_cache_dyn
          ≡ returns (c', done 0))
        × IsIndexed index laws c'
        × (((index.find addr c.arp_cache_head ≡ none) × (cached_haddr index c' addr ≡ some haddr))
            ⊎ ((i : ℕ) × (index.find addr c.arp_cache_head ≡ some i)
                × (cached_haddr index c' addr ≡ some (slot_at c.arp_cache i).haddr)))
  unfolding arp_cache_insert
  arp_cache_insert_keeps c addr haddr v room nonzero =
      let t : (addr == 0) ≡ false = ground arith in
      elim (Option-cases (index.find addr c.arp_cache_head)) [
        | inl new ↦
            let (c', e, keeps, m) = insert_new_lem index laws c addr haddr v room in
            (c', rw (t, new) e, keeps, inl (new, m))
        | inr (i, found) ↦ (
          renewed c i,
          rw (t, found) refl,
          renewed-IsIndexed c v addr i found,
          inr (i, found, renewed_cached c v addr i found),
        )
      ]

  -- The cache as the program starts.
  init-IsIndexed : IsIndexed index laws (init_cache index)
  init-IsIndexed = record { sized = refl; linked = λ k i e. absurd (cc (laws.find-empty k, e)) }

  init-CanTake : CanTake index laws (init_cache index)
  init-CanTake = (0, pos 0, pick_slot-init, omega arith, inl (refl, inr refl))

  -- In a cache whose tree, a map, refers to its slots and has no address 0: when a new address that
  -- is not 0 comes and the loop settles on a slot with an age from 0 on that was never filled, the
  -- address is stored in it and every other address is forgotten, static ones included.
  pub arp_cache_insert_forgets :
      (c : ArpCache index) (addr haddr i : ℕ) (type a : ℤ)
      → IsIndexed index laws c
      → addr ≢ 0
      → index.find addr c.arp_cache_head ≡ none
      → pick_slot c.arp_cache 0 none ≡ some (i, a)
      → neg_part a ≡ 0
      → (slot_at c.arp_cache i).ip_addr ≡ 0
      → index.find 0 c.arp_cache_head ≡ none
      → (c' : ArpCache index) × (arp_cache_insert index c addr haddr type ≡ returns (c', done 0))
        × (index.find addr c'.arp_cache_head ≡ some i)
        × ((k : ℕ) → k ≢ addr → index.find k c'.arp_cache_head ≡ none)
        × ((k : ℕ) → k ≢ addr → cached_haddr index c' k ≡ none)
  unfolding arp_cache_insert fill_slot cached_haddr
  arp_cache_insert_forgets c addr haddr i type a v nonzero new e alive unused absent =
      let t : (addr == 0) ≡ false = ground arith in
      let entry : ArpCacheEntry = record { ip_addr = addr; haddr = haddr; age = type } in
      let unlinked : is_linked index c i ≡ false =
        is_linked_no index laws c i
          (λ f. let gone = ap (λ k. index.find k c.arp_cache_head) unused ∙ absent in cc) in
      let lost : (k : ℕ) → k ≢ addr → index.find k (index.insert addr i index.empty) ≡ none =
        λ k apart. find_other index laws k addr i index.empty apart ∙ laws.find-empty k in
      (
        fill_slot index c index.empty i entry,
        rw (t, new) (insert_new_unused index laws c entry i a e alive unlinked unused),
        find_same index laws addr i index.empty,
        lost,
        λ k apart. rw (lost k apart, cached_haddr) refl,
      )
