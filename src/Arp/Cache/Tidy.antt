-- ===== src/Arp/Cache/Tidy.antt =====
-- The caches whose tree refers to their slots, and what filling a slot keeps.
use nstack.Base.{
  ℕ, ◌<◌, ◌≡◌, ◌≢◌, ◌⊎◌, inl, inr, sym, ap, ◌∙◌, arith, none, some, ◌==◌, length, length-set,
  get_or-set_self, get_or-set_ne,
}
use nstack.Base.Int.{ℤ, neg_part}
use nstack.RbMap.{RbMap, IsMap}
use nstack.Arp.Cache.{
  ArpCacheEntry, arp_cache_size, arp_cache_dyn, zero_entry, slot_at, pick_slot, ArpCache, fill_slot,
  cached_haddr,
}

module _ (index : RbMap ℕ ℕ) (laws : IsMap ◌==◌ index) where
  -- The tree refers to slots of the array, each under the slot's address.
  pub record IsIndexed (c : ArpCache index) : Type 0 where
    pub sized : length c.arp_cache ≡ arp_cache_size
    pub linked :
        (k i : ℕ)
        → index.find k c.arp_cache_head ≡ some i
        → (i < arp_cache_size) × ((slot_at c.arp_cache i).ip_addr ≡ k)

  -- The loop of `arp_cache_insert` settles on a dynamic slot that is in the tree or was never
  -- filled, or on a free one that is not in the tree.
  abbrev pub CanTake : ArpCache index → Type 0
  CanTake c =
      (i : ℕ) × (a : ℤ) × (pick_slot c.arp_cache 0 none ≡ some (i, a))
      × (i < arp_cache_size)
      × (((neg_part a ≡ 0)
            × ((index.find (slot_at c.arp_cache i).ip_addr c.arp_cache_head ≡ some i)
                ⊎ ((slot_at c.arp_cache i).ip_addr ≡ 0)))
          ⊎ ((neg_part a ≢ 0)
              × (index.find (slot_at c.arp_cache i).ip_addr c.arp_cache_head ≢ some i)))

  pub same_value : (a b : ℕ) → (a ≡ b) ⊎ (a ≢ b)
  same_value a b = ground arith

  pub find_same : (k v : ℕ) (t : index.Map) → index.find k (index.insert k v t) ≡ some v
  find_same k v t = ground (arith, laws.find-insert k k v t)

  pub find_other :
      (j k v : ℕ) (t : index.Map) → j ≢ k → index.find j (index.insert k v t) ≡ index.find j t
  find_other j k v t apart = ground (arith, laws.find-insert j k v t)

  pub find_removed : (k : ℕ) (t : index.Map) → index.find k (index.remove k t) ≡ none
  find_removed k t = ground (arith, laws.find-remove k k t)

  pub find_left :
      (j k : ℕ) (t : index.Map) → j ≢ k → index.find j (index.remove k t) ≡ index.find j t
  find_left j k t apart = ground (arith, laws.find-remove j k t)

  pub cached_at :
      (c : ArpCache index) (addr i : ℕ)
      → index.find addr c.arp_cache_head ≡ some i
      → neg_part (slot_at c.arp_cache i).age ≡ 0
      → cached_haddr index c addr ≡ some (slot_at c.arp_cache i).haddr
  unfolding cached_haddr
  cached_at c addr i found alive = ground arith

  pub slot-fill_same :
      (c : ArpCache index) (head : index.Map) (i : ℕ) (entry : ArpCacheEntry)
      → i < length c.arp_cache
      → slot_at (fill_slot index c head i entry).arp_cache i ≡ entry
  unfolding fill_slot
  slot-fill_same c head i entry h = get_or-set_self c.arp_cache i entry zero_entry h

  pub slot-fill_other :
      (c : ArpCache index) (head : index.Map) (i j : ℕ) (entry : ArpCacheEntry)
      → i ≢ j
      → slot_at (fill_slot index c head i entry).arp_cache j ≡ slot_at c.arp_cache j
  unfolding fill_slot
  slot-fill_other c head i j entry h = get_or-set_ne c.arp_cache entry zero_entry h

  -- `head` has entries of the tree only, and not the slot's.
  abbrev pub IsWithout : ArpCache index → index.Map → ℕ → Type 0
  IsWithout c head i =
      (k j : ℕ) → index.find k head ≡ some j → (j ≢ i) × (index.find k c.arp_cache_head ≡ some j)

  module _ (c : ArpCache index) (head : index.Map) (i addr haddr : ℕ) (v : IsIndexed c)
      (small : i < arp_cache_size) (without : IsWithout c head i) where
    abbrev pub filled : ArpCache index
    filled =
        fill_slot index c head i (record { ip_addr = addr; haddr = haddr; age = arp_cache_dyn })

    own_slot :
        slot_at filled.arp_cache i ≡ record { ip_addr = addr; haddr = haddr; age = arp_cache_dyn }
    own_slot =
        slot-fill_same c head i (record { ip_addr = addr; haddr = haddr; age = arp_cache_dyn })
          (omega (arith, v.sized))

    own_find : index.find addr filled.arp_cache_head ≡ some i
    unfolding fill_slot
    own_find = find_same addr i head

    other_find : (k : ℕ) → k ≢ addr → index.find k filled.arp_cache_head ≡ index.find k head
    unfolding fill_slot
    other_find k apart = find_other k addr i head apart

    filled_linked :
        (k j : ℕ)
        → index.find k filled.arp_cache_head ≡ some j
        → (j < arp_cache_size) × ((slot_at filled.arp_cache j).ip_addr ≡ k)
    filled_linked k j h = elim (same_value k addr) [
      | inl e ↦
          let f : i ≡ j = cc (own_find, h, e) in
          (
            omega arith,
            ap (λ m. (slot_at filled.arp_cache m).ip_addr) (sym f)
                ∙ ap (λ t. t.ip_addr) own_slot
                ∙ sym e,
          )
      | inr apart ↦
          let old = without k j (sym (other_find k apart) ∙ h) in
          let was = v.linked k j old.1 in
          let same : slot_at filled.arp_cache j ≡ slot_at c.arp_cache j =
            slot-fill_other c head i j
              (record { ip_addr = addr; haddr = haddr; age = arp_cache_dyn })
              (λ e. old.0 (sym e)) in
          (was.0, ap (λ t. t.ip_addr) same ∙ was.1)
    ]

    pub filled-IsIndexed : IsIndexed filled
    unfolding fill_slot
    filled-IsIndexed = record {
      sized =
          length-set c.arp_cache i (record { ip_addr = addr; haddr = haddr; age = arp_cache_dyn })
          ∙ v.sized;
      linked = filled_linked;
    }

    pub filled_cached : cached_haddr index filled addr ≡ some haddr
    filled_cached =
        cached_at filled addr i own_find (ap (λ t. neg_part t.age) own_slot)
        ∙ ap (λ t. some t.haddr) own_slot
