-- ===== src/Arp/Cache/Insert.antt =====
-- `arp_cache_insert` on an address that is not in the tree.
use nstack.Base.{
  ℕ, ◌<◌, ◌≡◌, ◌≢◌, inl, inr, refl, sym, ap, ◌∙◌, arith, true, false, none, some, leb, ◌==◌,
  Option-cases, Bool-cases,
}
use nstack.Base.Int.{ℤ, neg_part}
use nstack.Base.Errno.{done}
use nstack.Base.Outcome.{returns}
use nstack.RbMap.{RbMap, IsMap}
use nstack.Arp.Cache.{
  ArpCacheEntry, arp_cache_size, arp_cache_dyn, slot_at, pick_slot, ArpCache, is_linked, fill_slot,
  insert_new, cached_haddr,
}
use nstack.Arp.Cache.Tidy.{
  IsIndexed, CanTake, same_value, find_removed, find_left, IsWithout, filled, filled-IsIndexed,
  filled_cached,
}

module _ (index : RbMap ℕ ℕ) (laws : IsMap ◌==◌ index) where
  -- The tree after RB_REMOVE of an entry, the empty tree, and the tree as it is.
  removed-IsWithout :
      (c : ArpCache index) (i : ℕ)
      → IsIndexed index laws c
      → IsWithout index laws c (index.remove (slot_at c.arp_cache i).ip_addr c.arp_cache_head) i
  removed-IsWithout c i v k j found =
      let old : ℕ = (slot_at c.arp_cache i).ip_addr in
      elim (same_value index laws k old) [
        | inl e ↦ absurd (
            let gone : index.find old (index.remove old c.arp_cache_head) ≡ none =
              find_removed index laws old c.arp_cache_head in
            cc)
        | inr apart ↦
            let was : index.find k c.arp_cache_head ≡ some j =
              sym (find_left index laws k old c.arp_cache_head apart) ∙ found in
            (
              λ e. apart (sym (v.linked k j was).1 ∙ ap (λ m. (slot_at c.arp_cache m).ip_addr) e),
              was,
            )
      ]

  empty-IsWithout : (c : ArpCache index) (i : ℕ) → IsWithout index laws c index.empty i
  empty-IsWithout c i k j found =
      absurd (let gone : index.find k index.empty ≡ none = laws.find-empty k in cc)

  kept-IsWithout :
      (c : ArpCache index) (i : ℕ)
      → IsIndexed index laws c
      → index.find (slot_at c.arp_cache i).ip_addr c.arp_cache_head ≢ some i
      → IsWithout index laws c c.arp_cache_head i
  kept-IsWithout c i v other k j found = (
    λ e.
        let f : index.find k c.arp_cache_head ≡ some i = found ∙ ap some e in
        other (ap (λ a. index.find a c.arp_cache_head) (v.linked k i f).1 ∙ f),
    found,
  )

  pub is_linked_yes :
      (c : ArpCache index) (i : ℕ)
      → index.find (slot_at c.arp_cache i).ip_addr c.arp_cache_head ≡ some i
      → is_linked index c i ≡ true
  unfolding is_linked
  is_linked_yes c i found = ground arith

  pub is_linked_no :
      (c : ArpCache index) (i : ℕ)
      → index.find (slot_at c.arp_cache i).ip_addr c.arp_cache_head ≢ some i
      → is_linked index c i ≡ false
  unfolding is_linked
  is_linked_no c i other =
      elim (Option-cases (index.find (slot_at c.arp_cache i).ip_addr c.arp_cache_head)) [
        | inl none_found ↦ ground arith
        | inr (j, found) ↦ elim (same_value index laws j i) [
          | inl e ↦ absurd (other (found ∙ ap some e))
          | inr apart ↦ ground arith
        ]
      ]

  pub insert_new_over :
      (c : ArpCache index) (addr haddr i : ℕ) (a : ℤ)
      → pick_slot c.arp_cache 0 none ≡ some (i, a)
      → neg_part a ≡ 0
      → is_linked index c i ≡ true
      → insert_new index c (record { ip_addr = addr; haddr = haddr; age = arp_cache_dyn })
        ≡ returns (
          fill_slot index c
              (index.remove (slot_at c.arp_cache i).ip_addr c.arp_cache_head)
              i
              (record { ip_addr = addr; haddr = haddr; age = arp_cache_dyn }),
          done 0,
        )
  unfolding insert_new
  insert_new_over c addr haddr i a e alive linked =
      let t : leb (neg_part a) 0 ≡ true = ground arith in rw (e, insert_new, t, linked) refl

  pub insert_new_unused :
      (c : ArpCache index) (entry : ArpCacheEntry) (i : ℕ) (a : ℤ)
      → pick_slot c.arp_cache 0 none ≡ some (i, a)
      → neg_part a ≡ 0
      → is_linked index c i ≡ false
      → (slot_at c.arp_cache i).ip_addr ≡ 0
      → insert_new index c entry ≡ returns (fill_slot index c index.empty i entry, done 0)
  unfolding insert_new
  insert_new_unused c entry i a e alive unlinked unused =
      let t : leb (neg_part a) 0 ≡ true = ground arith in
      let z : ((slot_at c.arp_cache i).ip_addr == 0) ≡ true = ground arith in
      rw (e, insert_new, t, unlinked, z) refl

  pub insert_new_free :
      (c : ArpCache index) (addr haddr i : ℕ) (a : ℤ)
      → pick_slot c.arp_cache 0 none ≡ some (i, a)
      → neg_part a ≢ 0
      → is_linked index c i ≡ false
      → insert_new index c (record { ip_addr = addr; haddr = haddr; age = arp_cache_dyn })
        ≡ returns (
          fill_slot index c c.arp_cache_head i
              (record { ip_addr = addr; haddr = haddr; age = arp_cache_dyn }),
          done 0,
        )
  unfolding insert_new
  insert_new_free c addr haddr i a e dead linked =
      let t : leb (neg_part a) 0 ≡ false = ground arith in rw (e, insert_new, t, linked) refl

  taken_slot :
      (c : ArpCache index) (addr haddr i : ℕ) (head : index.Map)
      → IsIndexed index laws c
      → i < arp_cache_size
      → IsWithout index laws c head i
      → insert_new index c (record { ip_addr = addr; haddr = haddr; age = arp_cache_dyn })
        ≡ returns (
          fill_slot index c head i (record { ip_addr = addr; haddr = haddr; age = arp_cache_dyn }),
          done 0,
        )
      → (c' : ArpCache index) × (insert_new index c
            (record { ip_addr = addr; haddr = haddr; age = arp_cache_dyn })
          ≡ returns (c', done 0))
        × IsIndexed index laws c'
        × (cached_haddr index c' addr ≡ some haddr)
  taken_slot c addr haddr i head v lt without e = (
    filled index laws c head i addr haddr v lt without,
    e,
    filled-IsIndexed index laws c head i addr haddr v lt without,
    filled_cached index laws c head i addr haddr v lt without,
  )

  pub insert_new_lem :
      (c : ArpCache index) (addr haddr : ℕ)
      → IsIndexed index laws c
      → CanTake index laws c
      → (c' : ArpCache index) × (insert_new index c
            (record { ip_addr = addr; haddr = haddr; age = arp_cache_dyn })
          ≡ returns (c', done 0))
        × IsIndexed index laws c'
        × (cached_haddr index c' addr ≡ some haddr)
  insert_new_lem c addr haddr v (i, a, e, lt, inr (dead, other)) =
      taken_slot c addr haddr i c.arp_cache_head v lt (kept-IsWithout c i v other)
        (insert_new_free c addr haddr i a e dead (is_linked_no c i other))
  insert_new_lem c addr haddr v (i, a, e, lt, inl (alive, inl own)) =
      taken_slot c addr haddr i (index.remove (slot_at c.arp_cache i).ip_addr c.arp_cache_head) v lt
        (removed-IsWithout c i v) (insert_new_over c addr haddr i a e alive (is_linked_yes c i own))
  insert_new_lem c addr haddr v (i, a, e, lt, inl (alive, inr unused)) =
      elim (Bool-cases (is_linked index c i)) [
        | inl own ↦
            taken_slot c addr haddr i
              (index.remove (slot_at c.arp_cache i).ip_addr c.arp_cache_head) v lt
              (removed-IsWithout c i v) (insert_new_over c addr haddr i a e alive own)
        | inr unlinked ↦ taken_slot c addr haddr i index.empty v lt (empty-IsWithout c i) (
            insert_new_unused c (record { ip_addr = addr; haddr = haddr; age = arp_cache_dyn }) i a
              e alive unlinked unused)
      ]
