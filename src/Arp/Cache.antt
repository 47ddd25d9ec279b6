-- ===== src/Arp/Cache.antt =====
-- The cache of src/arp.c: an array of 50 slots and a search tree of the slots by address. An entry
-- is a slot of the array. RB_REMOVE of an entry whose links are all null, as they are at the start,
-- makes the tree empty. RB_REMOVE of one that was in the tree before it was emptied, and RB_INSERT
-- of one that is in it, follow links that are out of date; what they do then is not modelled and is
-- the value `faults`.
mod Slots
pub mod Tidy
mod Insert
pub mod Laws
use nstack.Base.{
  ℕ, zero, suc, ◌+◌, ◌-◌, ◌*◌, List, [], ◌∷◌, map, Bool, true, false, ◌&&◌, ◌||◌, Option, none,
  some, leb, ltb, ◌==◌, get_or, set, replicate, if◌then◌else◌,
}
use nstack.Base.Int.{ℤ, pos, negsuc, pos_part, neg_part, ltb_ℤ, ◌+ℤ◌}
use nstack.Base.Errno.{enomem, Ret, done, fail}
use nstack.Base.Outcome.{Fault, null_dereference, out_of_bounds, Outcome, returns, faults}
use nstack.RbMap.{RbMap}

-- `struct arp_cache_entry`, without its tree links.
pub record ArpCacheEntry : Type 0 where
  pub ip_addr : ℕ
  pub haddr : ℕ
  pub age : ℤ

-- `NSTACK_ARP_CACHE_SIZE` and `ARP_CACHE_AGE_MAX`.
abbrev pub arp_cache_size : ℕ
arp_cache_size = 50

abbrev pub arp_cache_age_max : ℤ
arp_cache_age_max = pos 72000

-- `enum arp_cache_entry_type`.
abbrev pub arp_cache_free : ℤ
arp_cache_free = negsuc 1

abbrev pub arp_cache_static : ℤ
arp_cache_static = negsuc 0

abbrev pub arp_cache_dyn : ℤ
arp_cache_dyn = pos 0

-- A static variable without an initializer is zero.
abbrev pub zero_entry : ArpCacheEntry
zero_entry = record { ip_addr = 0; haddr = 0; age = pos 0 }

abbrev pub slot_at : List ArpCacheEntry → ℕ → ArpCacheEntry
slot_at slots i = get_or slots i zero_entry

-- `entry->age > it->age`, or no entry yet and `it->age >= 0`.
unfoldable pub takes_slot : Option (ℕ × ℤ) → ℤ → Bool
takes_slot none age = leb (neg_part age) 0
takes_slot (some best) age = ltb_ℤ age best.1

-- The loop of `arp_cache_insert`: the index and the age of the slot that it settles on.
unfoldable pub pick_slot : List ArpCacheEntry → ℕ → Option (ℕ × ℤ) → Option (ℕ × ℤ)
pick_slot [] i entry = entry
pick_slot (it ∷ slots) i entry =
    let is_free = neg_part it.age == 2 in
    let taken : Bool = if is_free then true else takes_slot entry it.age in
    pick_slot slots (i + 1) (if taken then some (i, it.age) else entry)

-- One slot of `arp_cache_update`.
unfoldable pub age_entry : ℕ → ArpCacheEntry → ArpCacheEntry
age_entry delta_time entry =
    if ltb_ℤ arp_cache_age_max entry.age
    then record entry { age = arp_cache_free }
    else if leb (neg_part entry.age) 0
    then record entry { age = entry.age +ℤ pos delta_time }
    else entry

module _ (index : RbMap ℕ ℕ) where
  pub record ArpCache : Type 0 where
    pub arp_cache : List ArpCacheEntry
    pub arp_cache_head : index.Map

  -- The static variables at the start.
  abbrev pub init_cache : ArpCache
  init_cache = record {
    arp_cache = replicate arp_cache_size zero_entry;
    arp_cache_head = index.empty;
  }

  -- `arp_cache_get_entry`: the slot.
  abbrev pub arp_cache_get_entry : ArpCache → ℕ → Option ℕ
  arp_cache_get_entry c addr = index.find addr c.arp_cache_head

  -- Whether the slot is in the tree under its address.
  unfoldable pub is_linked : ArpCache → ℕ → Bool
  is_linked c i = elim (index.find (slot_at c.arp_cache i).ip_addr c.arp_cache_head) [
    | some j ↦ j == i
    | none ↦ false
  ]

  -- The slot is filled and RB_INSERT is called on it, with `head` as the tree.
  unfoldable pub fill_slot : ArpCache → index.Map → ℕ → ArpCacheEntry → ArpCache
  fill_slot c head i entry = record {
    arp_cache = set c.arp_cache i entry;
    arp_cache_head = index.insert entry.ip_addr i head;
  }

  -- `arp_cache_insert` for an address that is not in the tree. A slot whose address is 0 was never
  -- filled.
  unfoldable pub insert_new : ArpCache → ArpCacheEntry → Outcome (ArpCache × Ret)
  insert_new c entry = elim (pick_slot c.arp_cache 0 none) [
    | none ↦ returns (c, fail enomem)
    | some best ↦
        let old = (slot_at c.arp_cache best.0).ip_addr in
        if leb (neg_part best.1) 0
        then (if is_linked c best.0
            then returns (fill_slot c (index.remove old c.arp_cache_head) best.0 entry, done 0)
            else if old == 0
            then returns (fill_slot c index.empty best.0 entry, done 0)
            else faults out_of_bounds)
        else if is_linked c best.0
        then faults out_of_bounds
        else returns (fill_slot c c.arp_cache_head best.0 entry, done 0)
  ]

  -- `arp_cache_insert`.
  unfoldable pub arp_cache_insert : ArpCache → ℕ → ℕ → ℤ → Outcome (ArpCache × Ret)
  arp_cache_insert c addr haddr type =
      let aged : ℕ → ArpCache = λ i. record c {
        arp_cache = set c.arp_cache i (record (slot_at c.arp_cache i) { age = type });
      } in
      let found : Outcome (ArpCache × Ret) = elim (arp_cache_get_entry c addr) [
        | some i ↦ returns (aged i, done 0)
        | none ↦ insert_new c (record { ip_addr = addr; haddr = haddr; age = type })
      ] in
      if addr == 0 then returns (c, done 0) else found

  -- `arp_cache_remove`: RB_REMOVE comes before the entry is compared with NULL.
  unfoldable pub arp_cache_remove : ArpCache → ℕ → Outcome ArpCache
  arp_cache_remove c addr = elim (arp_cache_get_entry c addr) [
    | none ↦ faults null_dereference
    | some i ↦ returns (record {
      arp_cache = set c.arp_cache i (record (slot_at c.arp_cache i) { age = arp_cache_free });
      arp_cache_head = index.remove addr c.arp_cache_head;
    })
  ]

  -- `arp_cache_update`: an entry that has expired is marked free and stays in the tree.
  unfoldable pub arp_cache_update : ArpCache → ℕ → ArpCache
  arp_cache_update c delta_time = record c { arp_cache = map (age_entry delta_time) c.arp_cache }

  -- The first half of `arp_cache_get_haddr`.
  unfoldable pub cached_haddr : ArpCache → ℕ → Option ℕ
  cached_haddr c addr = elim (arp_cache_get_entry c addr) [
    | none ↦ none
    | some i ↦
        let entry = slot_at c.arp_cache i in
        if leb (neg_part entry.age) 0 then some entry.haddr else none
  ]
