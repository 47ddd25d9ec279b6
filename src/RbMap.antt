-- ===== src/RbMap.antt =====
-- The search trees of src/tree.h, a copy of the BSD macros: RB_FIND, RB_INSERT, RB_REMOVE and
-- RB_FOREACH enter the models as the operations of such a record. A node is given by its key and its
-- content; writing through a pointer that RB_FIND has returned is `insert` at the same key.
use nstack.Base.{ℕ, ◌+◌, ◌-◌, ◌%◌, ◌^◌, ◌<◌, ◌≡◌, List, Option, none, some, Bool, if◌then◌else◌}

pub record RbMap (K V : Type 0) : Type 1 where
  pub Map : Type 0
  pub empty : Map
  pub find : K → Map → Option V
  pub insert : K → V → Map → Map
  pub remove : K → Map → Map
  pub to_list : Map → List V

-- What the trees promise when the comparison function is an order whose equality is `same`.
pub record IsMap {K V : Type 0} (same : K → K → Bool) (m : RbMap K V) : Type 0 where
  pub find-empty : (k : K) → m.find k m.empty ≡ none
  pub find-insert :
      (j k : K) (v : V) (t : m.Map)
      → m.find j (m.insert k v t) ≡ (if same j k then some v else m.find j t)
  pub find-remove :
      (j k : K) (t : m.Map) → m.find j (m.remove k t) ≡ (if same j k then none else m.find j t)

-- Keys that their difference as an `int` orders: numbers of 32 bits among the 2^31 that follow `base`.
abbrev pub Near : ℕ → ℕ → Type 0
Near base k = (k < 2 ^ 32) × ((k + 2 ^ 32 - base) % 2 ^ 32 < 2 ^ 31)

-- What the trees promise when the comparison function orders the keys that are `ok`, for the trees that
-- have such keys only.
pub record IsMapOn {K V : Type 0} (ok : K → Type 0) (same : K → K → Bool) (m : RbMap K V)
    : Type 1 where
  pub Holds : m.Map → Type 0
  pub holds-empty : Holds m.empty
  pub holds-insert : (k : K) (v : V) (t : m.Map) → ok k → Holds t → Holds (m.insert k v t)
  pub holds-remove : (k : K) (t : m.Map) → ok k → Holds t → Holds (m.remove k t)
  pub find-empty : (k : K) → m.find k m.empty ≡ none
  pub find-insert :
      (j k : K) (v : V) (t : m.Map)
      → ok j
      → ok k
      → Holds t
      → m.find j (m.insert k v t) ≡ (if same j k then some v else m.find j t)
  pub find-remove :
      (j k : K) (t : m.Map)
      → ok j
      → ok k
      → Holds t
      → m.find j (m.remove k t) ≡ (if same j k then none else m.find j t)
