-- ===== src/Ip/Route/Agree.antt =====
-- Two search trees with the same routes under different keys, as src/ip_route.c keeps them.
use nstack.Base.{
  ◌+◌, ◌-◌, ◌%◌, ◌^◌, ◌<◌, ltb, if◌then◌else◌, ℕ, ◌≡◌, ◌≢◌, sym, ap, ◌∙◌, arith, Option, none, some,
  ◌==◌,
}
use mathlib.Core.Path.{subst}
use native.Mathlib.Decide.{ℕ_discrete}
use nstack.RbMap.{RbMap, Near, IsMapOn}
use nstack.Ip.Route.{IpRoute, negative, zeroed, positive, key_cmp}

-- Keys that are near each other are ordered by their distance from the first number.
abbrev offset : ℕ → ℕ → ℕ
offset base k = (k + 2 ^ 32 - base) % 2 ^ 32

key_cmp_lem :
    (base a b : ℕ)
    → base < 2 ^ 32
    → Near base a
    → Near base b
    → key_cmp a b ≡ (
        if offset base a == offset base b
        then zeroed
        else if ltb (offset base b) (offset base a)
        then positive
        else negative)
unfolding key_cmp
key_cmp_lem base a b h (a1, a2) (b1, b2) = ground arith

pub none_apart : {r : IpRoute} → none ≡ some r → ⊥
none_apart e = absurd (ground (arith, e))

pub same_found : {r q : IpRoute} (o : Option IpRoute) → o ≡ some r → o ≡ some q → r ≡ q
same_found o a b = ground (arith, sym a ∙ b)

module _ (trees : RbMap ℕ IpRoute) (ok : ℕ → Type 0) where
  -- What is found in the one tree by its key is found in the other by its other key.
  abbrev pub Agree : (IpRoute → ℕ) → (IpRoute → ℕ) → trees.Map → trees.Map → Type 0
  Agree key other t u =
      (k : ℕ) (r : IpRoute)
      → ok k
      → trees.find k t ≡ some r
      → (key r ≡ k) × ok (other r) × (trees.find (other r) u ≡ some r)

  module _ (laws : IsMapOn ok ◌==◌ trees) where
    pub find-insert_self :
        (k : ℕ) (r : IpRoute) (t : trees.Map)
        → ok k
        → laws.Holds t
        → trees.find k (trees.insert k r t) ≡ some r
    find-insert_self k r t o h = ground (arith, laws.find-insert k k r t o o h)

    find-insert_other :
        (j k : ℕ) (r : IpRoute) (t : trees.Map)
        → ok j
        → ok k
        → laws.Holds t
        → j ≢ k
        → trees.find j (trees.insert k r t) ≡ trees.find j t
    find-insert_other j k r t oj ok h apart = ground (arith, laws.find-insert j k r t oj ok h)

    pub find-remove_self :
        (k : ℕ) (t : trees.Map) → ok k → laws.Holds t → trees.find k (trees.remove k t) ≡ none
    find-remove_self k t o h = ground (arith, laws.find-remove k k t o o h)

    pub find-remove_other :
        (j k : ℕ) (t : trees.Map)
        → ok j
        → ok k
        → laws.Holds t
        → j ≢ k
        → trees.find j (trees.remove k t) ≡ trees.find j t
    find-remove_other j k t oj ok h apart = ground (arith, laws.find-remove j k t oj ok h)

    pub insert-Agree :
        (key other : IpRoute → ℕ) (t u : trees.Map) (route : IpRoute)
        → laws.Holds t
        → laws.Holds u
        → ok (key route)
        → ok (other route)
        → Agree key other t u
        → trees.find (other route) u ≡ none
        → Agree key other (trees.insert (key route) route t) (trees.insert (other route) route u)
    insert-Agree key other t u route ht hu ok_key ok_other v new k r ok_k e =
        elim (ℕ_discrete k (key route)) [
          | yes same ↦
              let at_key : trees.find k (trees.insert (key route) route t) ≡ some route =
                ap (λ j. trees.find j (trees.insert (key route) route t)) same
                ∙ find-insert_self (key route) route t ok_key ht in
              let it : route ≡ r =
                same_found (trees.find k (trees.insert (key route) route t)) at_key e in
              subst
                (λ q.
                  (key q ≡ k)
                  × ok (other q)
                  × (trees.find (other q) (trees.insert (other route) route u) ≡ some q))
                it (sym same, ok_other, find-insert_self (other route) route u ok_other hu)
          | no apart ↦
              let kept = find-insert_other k (key route) route t ok_k ok_key ht apart in
              let (n, o, f) = v k r ok_k (sym kept ∙ e) in
              let apart' : other r ≢ other route =
                λ same. none_apart (sym (ap (λ a. trees.find a u) same ∙ new) ∙ f) in
              (n, o, find-insert_other (other r) (other route) route u o ok_other hu apart' ∙ f)
        ]

    pub remove-Agree :
        (key other : IpRoute → ℕ) (t u : trees.Map) (route : IpRoute)
        → laws.Holds t
        → laws.Holds u
        → ok (key route)
        → Agree key other t u
        → trees.find (key route) t ≡ some route
        → Agree key other (trees.remove (key route) t) (trees.remove (other route) u)
    remove-Agree key other t u route ht hu ok_key v found k r ok_k e =
        elim (ℕ_discrete k (key route)) [
          | yes same ↦
              let gone = ap (λ j. trees.find j (trees.remove (key route) t)) same in
              absurd (none_apart (sym (gone ∙ find-remove_self (key route) t ok_key ht) ∙ e))
          | no apart ↦
              let kept = find-remove_other k (key route) t ok_k ok_key ht apart in
              let (n, o, f) = v k r ok_k (sym kept ∙ e) in
              let (_, ok_other, g) = v (key route) route ok_key found in
              let apart' : other r ≢ other route = λ same.
                let it : r ≡ route =
                  same_found (trees.find (other route) u) (sym (ap (λ a. trees.find a u) same) ∙ f)
                    g in
                apart (sym n ∙ ap key it) in
              (n, o, find-remove_other (other r) (other route) u o ok_other hu apart' ∙ f)
        ]
