-- ===== src/Arp/Cache/Slots.antt =====
-- The loop of `arp_cache_insert` that chooses a slot.
use nstack.Base.{
  ℕ, suc, ◌+◌, ◌-◌, ◌<◌, ◌≤◌, ◌≡◌, ◌≢◌, ◌⊎◌, inl, inr, refl, sym, ap, ◌∙◌, arith, List, [], ◌∷◌,
  Bool, true, false, Option, none, some, leb, ◌==◌, Bool-cases, length, replicate, if◌then◌else◌,
}
use nstack.Base.Int.{ℤ, pos, neg_part}
use nstack.Arp.Cache.{ArpCacheEntry, arp_cache_size, zero_entry, slot_at, takes_slot, pick_slot}

-- The slot that the loop settles on is one that it was given, with its age.
pub IsPicked : List ArpCacheEntry → ℕ → Option (ℕ × ℤ) → (ℕ × ℤ) → Type 0
IsPicked slots i entry best =
    (entry ≡ some best)
    ⊎ ((i ≤ best.0) × (best.0 < i + length slots) × ((slot_at slots (best.0 - i)).age ≡ best.1))

pub IsPicked-step :
    (it : ArpCacheEntry) (slots : List ArpCacheEntry) (i : ℕ) (entry : Option (ℕ × ℤ))
    (best : ℕ × ℤ) (taken : Bool)
    → IsPicked slots (i + 1) (if taken then some (i, it.age) else entry) best
    → IsPicked (it ∷ slots) i entry best
unfolding IsPicked
IsPicked-step it slots i entry best true (inl e) =
    let f : (i, it.age) ≡ best = cc in
    let g : best.0 - i ≡ 0 = omega (arith, ap (λ b. b.0) f) in
    inr (
      omega (arith, ap (λ b. b.0) f),
      omega (arith, ap (λ b. b.0) f),
      ap (λ k. (slot_at (it ∷ slots) k).age) g ∙ ap (λ b. b.1) f,
    )
IsPicked-step it slots i entry best false (inl e) = inl e
IsPicked-step it slots i entry best taken (inr h) =
    let e : best.0 - i ≡ suc (best.0 - (i + 1)) = omega (arith, h.0) in
    inr (omega (arith, h.0), omega (arith, h.1), ap (λ k. (slot_at (it ∷ slots) k).age) e ∙ h.2)

pub pick_slot_lem :
    (slots : List ArpCacheEntry) (i : ℕ) (entry : Option (ℕ × ℤ)) (best : ℕ × ℤ)
    → pick_slot slots i entry ≡ some best
    → IsPicked slots i entry best
unfolding pick_slot IsPicked
pick_slot_lem [] i entry best h = inl h
pick_slot_lem (it ∷ slots) i entry best h =
    let taken : Bool = if neg_part it.age == 2 then true else takes_slot entry it.age in
    IsPicked-step it slots i entry best taken
      (pick_slot_lem slots (i + 1) (if taken then some (i, it.age) else entry) best h)

-- No entry is static: an age is a number, or marks a free slot.
abbrev pub IsFreeOrDynamic : ArpCacheEntry → Type 0
IsFreeOrDynamic entry = neg_part entry.age ≢ 1

pub pick_slot_keeps :
    (slots : List ArpCacheEntry) (i : ℕ) (best : ℕ × ℤ)
    → (other : ℕ × ℤ) × (pick_slot slots i (some best) ≡ some other)
unfolding pick_slot
pick_slot_keeps [] i best = (best, refl)
pick_slot_keeps (it ∷ slots) i best =
    let taken : Bool = if neg_part it.age == 2 then true else takes_slot (some best) it.age in
    elim (Bool-cases taken) [
      | inl t ↦ rw t (pick_slot_keeps slots (i + 1) (i, it.age))
      | inr t ↦ rw t (pick_slot_keeps slots (i + 1) best)
    ]

pub pick_slot-some :
    (it : ArpCacheEntry) (slots : List ArpCacheEntry) (i : ℕ)
    → neg_part it.age ≢ 1
    → neg_part it.age ≤ 2
    → (best : ℕ × ℤ) × (pick_slot (it ∷ slots) i none ≡ some best)
unfolding pick_slot takes_slot
pick_slot-some it slots i h k =
    let taken : Bool = if neg_part it.age == 2 then true else leb (neg_part it.age) 0 in
    let t : taken ≡ true = ground arith in rw t (pick_slot_keeps slots (i + 1) (i, it.age))

pub picked_list :
    (slots : List ArpCacheEntry)
    → length slots ≡ arp_cache_size
    → ((i : ℕ)
        → i < arp_cache_size
        → (neg_part (slot_at slots i).age ≢ 1) × (neg_part (slot_at slots i).age ≤ 2))
    → (i : ℕ) × (a : ℤ) × (pick_slot slots 0 none ≡ some (i, a))
      × (i < arp_cache_size)
      × ((slot_at slots i).age ≡ a)
unfolding IsPicked
picked_list [] sized h = absurd (omega arith)
picked_list (it ∷ slots) sized h =
    let first = h 0 (omega arith) in
    let (best, e) = pick_slot-some it slots 0 first.0 first.1 in
    elim (pick_slot_lem (it ∷ slots) 0 none best e) [
      | inl f ↦ absurd cc
      | inr (low, high, at) ↦
          let k : best.0 - 0 ≡ best.0 = omega arith in
          (best.0, best.1, e, omega arith, ap (λ j. (slot_at (it ∷ slots) j).age) (sym k) ∙ at)
    ]

pub pick_slot-init : pick_slot (replicate arp_cache_size zero_entry) 0 none ≡ some (0, pos 0)
unfolding pick_slot takes_slot
pick_slot-init = refl
