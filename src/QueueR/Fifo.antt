-- ===== src/QueueR/Fifo.antt =====
-- A ring of blocks behind a control block, as nstack.c and socket.c use include/queue_r.h: allocate,
-- write the block, commit; peek, read the block, discard one. It behaves as a bounded queue.
use nstack.Base.{
  ℕ, zero, suc, ◌+◌, ◌-◌, ◌*◌, ◌/◌, ◌^◌, ◌≤◌, ◌<◌, ◌≡◌, ◌≢◌, refl, ap, ap₂, sym, ◌∙◌, ◌⊎◌, inl, inr,
  false, Option, none, some, List, [], ◌∷◌, ◌++◌, arith, ltb, ◌==◌, ==_iff, if◌then◌else◌, length,
  min, drop, ==_refl, Bool-cases,
}
use native.Mathlib.Nat.{eq_of_mul-eq-mul_right}
use nstack.QueueR.{
  QueueCb, queue_create, next_element, queue_alloc, queue_commit, queue_peek, queue_discard,
  discard_loop,
}
use nstack.QueueR.Inv.{
  IsValid, count, queue_create-IsValid, next_element_lem, m_write-eq, count-lt, queue_alloc_cases,
  queue_peek_cases, count-queue_commit, count_read, queue_commit-IsValid,
}

-- The shared memory of one direction of a socket: the control block and the data array, by offset.
pub record Ring {ℓ} (A : Type ℓ) : Type ℓ where
  pub cb : QueueCb
  pub block : ℕ → A

-- The index after `h` in an array of `len` blocks.
abbrev pub after : ℕ → ℕ → ℕ
after len h = if suc h == len then 0 else suc h

module _ {ℓ} {A : Type ℓ} where
  abbrev pub write_block : (ℕ → A) → ℕ → A → ℕ → A
  write_block f i a j = if j == i then a else f j

  -- Allocate, write, commit. `none`: the queue is full.
  unfoldable pub put : Ring A → A → Option (Ring A)
  put r a = elim (queue_alloc r.cb) [
    | none ↦ none
    | some i ↦ some (record { cb = queue_commit r.cb; block = write_block r.block i a })
  ]

  -- Peek and read. `none`: the queue is empty.
  unfoldable pub front : Ring A → Option A
  front r = elim (queue_peek r.cb) [ none ↦ none | some i ↦ some (r.block i) ]

  unfoldable pub discard : Ring A → ℕ → ℕ × Ring A
  discard r n = ((queue_discard r.cb n).0, record r { cb = (queue_discard r.cb n).1 })

  -- The blocks from index `h` on, going round at `len`.
  abbrev pub window : (ℕ → A) → ℕ → ℕ → ℕ → ℕ → List A
  window f b len h zero = []
  window f b len h (suc n) = f (h * b) ∷ window f b len (after len h) n

  -- What the ring holds, oldest first.
  abbrev pub contents : Ring A → List A
  contents r = window r.block r.cb.b_size r.cb.a_len r.cb.m_read (count r.cb)

  length-window : (f : ℕ → A) (b len h n : ℕ) → length (window f b len h n) ≡ n
  length-window f b len h zero = refl
  length-window f b len h (suc n) = ap suc (length-window f b len (after len h) n)

  -- `window` matches on `suc`, the code tests for emptiness.
  window_of_pos :
      (f : ℕ → A) (b len h n : ℕ)
      → 0 < n
      → window f b len h n ≡ f (h * b) ∷ window f b len (after len h) (n - 1)
  window_of_pos f b len h zero p = absurd (omega arith)
  window_of_pos f b len h (suc n) p = ap (λ k. window f b len h (suc k)) (omega arith)

mul_ne : (i j b : ℕ) → 0 < b → i ≢ j → (i * b == j * b) ≡ false
mul_ne i j b p ne = elim (Bool-cases (i * b == j * b)) [
  | inl e ↦ absurd (ne (eq_of_mul-eq-mul_right b p i j ((==_iff (i * b) (j * b)).0 e)))
  | inr e ↦ e
]

-- Writing the block just past a window extends the window by that block.
window-write_block {ℓ} :
    {A : Type ℓ} (f : ℕ → A) (b len : ℕ) (a : A) (n h w : ℕ)
    → 0 < b
    → h < len
    → n < len
    → w ≡ (if ltb (h + n) len then h + n else h + n - len)
    → window (write_block f (w * b) a) b len h (suc n) ≡ window f b len h n ++ (a ∷ [])
window-write_block {A} f b len a zero h w p q r e =
    let same : h ≡ w = ground arith in rw (same, ==_refl (w * b))
window-write_block f b len a (suc n) h w p q r e =
    let apart : h ≢ w = λ same. absurd (ground arith) in
    rw (mul_ne h w b p apart) (
      ap (λ t. f (h * b) ∷ t)
        (window-write_block f b len a n (after len h) w p (ground arith) (omega arith)
          (ground arith)))

-- A block size that is not 0, besides the invariant of the control block.
pub record IsRing {ℓ} {A : Type ℓ} (r : Ring A) : Type 0 where
  pub valid : IsValid r.cb
  pub sized : 0 < r.cb.b_size

-- The number of blocks that the ring can hold: one less than the array.
abbrev pub capacity {ℓ} : {A : Type ℓ} → Ring A → ℕ
capacity r = r.cb.a_len - 1

module _ {ℓ} {A : Type ℓ} where
  pub length-contents : (r : Ring A) → length (contents r) ≡ count r.cb
  length-contents r = length-window r.block r.cb.b_size r.cb.a_len r.cb.m_read (count r.cb)

  contents-commit :
      (r : Ring A) (a : A)
      → IsRing r
      → count r.cb + 1 < r.cb.a_len
      → contents (record {
        cb = queue_commit r.cb;
        block = write_block r.block (r.cb.m_write * r.cb.b_size) a;
      })
        ≡ contents r ++ (a ∷ [])
  unfolding queue_commit
  contents-commit r a v h =
      let written = write_block r.block (r.cb.m_write * r.cb.b_size) a in
      ap (window written r.cb.b_size r.cb.a_len r.cb.m_read) {y = suc (count r.cb)}
        (omega (arith, count-queue_commit v.valid h))
      ∙ window-write_block r.block r.cb.b_size r.cb.a_len a (count r.cb) r.cb.m_read r.cb.m_write
          v.sized v.valid.read_in (count-lt v.valid) (m_write-eq v.valid)

  commit-IsRing :
      (r : Ring A) (block : ℕ → A)
      → IsRing r
      → IsRing (record { cb = queue_commit r.cb; block = block })
        × ((queue_commit r.cb).a_len ≡ r.cb.a_len)
  commit-IsRing r block v = (
    record { valid = queue_commit-IsValid v.valid; sized = unfold queue_commit in v.sized },
    unfold queue_commit in refl,
  )

  -- On a ring with valid indices and blocks that are not empty, `put` fails exactly when the ring
  -- holds its capacity; else it appends the block, and the ring stays such a ring of the same
  -- capacity.
  pub put_cases :
      (r : Ring A) (a : A)
      → IsRing r
      → ((length (contents r) ≡ capacity r) × (put r a ≡ none))
        ⊎ ((r' : Ring A) × (put r a ≡ some r')
            × (contents r' ≡ contents r ++ (a ∷ []))
            × (length (contents r) < capacity r)
            × (capacity r' ≡ capacity r)
            × IsRing r')
  unfolding put
  put_cases r a v = elim (queue_alloc_cases v.valid) [
    | inl (_, full, e) ↦ inl (omega (arith, length-contents r), rw (e, put))
    | inr (_, room, e, _) ↦
        let written = write_block r.block (r.cb.m_write * r.cb.b_size) a in
        let kept = commit-IsRing r written v in
        inr (
          record { cb = queue_commit r.cb; block = written },
          rw (e, put),
          contents-commit r a v room,
          omega (arith, length-contents r),
          ap (λ (k : ℕ). k - 1) kept.1,
          kept.0,
        )
  ]

  -- On a ring with valid indices and blocks that are not empty, `front` reads the oldest block,
  -- and fails exactly when there is none.
  pub front_cases :
      (r : Ring A)
      → IsRing r
      → ((contents r ≡ []) × (front r ≡ none))
        ⊎ ((a : A) × (rest : List A) × (contents r ≡ a ∷ rest) × (front r ≡ some a))
  unfolding front
  front_cases r v = elim (queue_peek_cases v.valid) [
    | inl (_, none_left, e) ↦
        inl (ap (window r.block r.cb.b_size r.cb.a_len r.cb.m_read) none_left, rw (e, front))
    | inr (_, some_left, e, _) ↦ inr (
      r.block (r.cb.m_read * r.cb.b_size),
      window r.block r.cb.b_size r.cb.a_len (after r.cb.a_len r.cb.m_read) (count r.cb - 1),
      window_of_pos r.block r.cb.b_size r.cb.a_len r.cb.m_read (count r.cb) some_left,
      rw (e, front),
    )
  ]

  -- One round of the loop of `queue_discard`.
  read_on-contents :
      (r : Ring A)
      → IsRing r
      → r.cb.m_read ≢ r.cb.m_write
      → contents r
        ≡ r.block (r.cb.m_read * r.cb.b_size)
          ∷ contents (record r { cb = record r.cb { m_read = next_element r.cb r.cb.m_read } })
  read_on-contents r v ne =
      window_of_pos r.block r.cb.b_size r.cb.a_len r.cb.m_read (count r.cb)
        (omega (arith, count_read v.valid ne))
      ∙ ap₂ (λ h k. r.block (r.cb.m_read * r.cb.b_size) ∷ window r.block r.cb.b_size r.cb.a_len h k)
          (sym (next_element_lem r.cb.m_read v.valid v.valid.read_in)) fewer
    where
      fewer : count r.cb - 1 ≡ count (record r.cb { m_read = next_element r.cb r.cb.m_read })
      fewer = omega (arith, count_read v.valid ne)

  read_on-IsRing :
      (r : Ring A)
      → IsRing r
      → IsRing (record r { cb = record r.cb { m_read = next_element r.cb r.cb.m_read } })
  read_on-IsRing r v = record {
    valid = record {
      write_in = v.valid.write_in;
      read_in = ground (arith, next_element_lem r.cb.m_read v.valid v.valid.read_in);
      small = v.valid.small;
      fits = v.valid.fits;
    };
    sized = v.sized;
  }

  contents_of_eq : (r : Ring A) → r.cb.m_read ≡ r.cb.m_write → contents r ≡ []
  contents_of_eq r e =
      let same : count r.cb ≡ 0 = ground arith in
      ap (window r.block r.cb.b_size r.cb.a_len r.cb.m_read) same

  -- What the loop of `queue_discard` leaves, with `c` blocks skipped before.
  record Skipped (n c : ℕ) (r : Ring A) (out : ℕ × QueueCb) : Type ℓ where
    left : contents (record r { cb = out.1 }) ≡ drop n (contents r)
    skipped : out.0 ≡ c + min n (length (contents r))
    same_len : out.1.a_len ≡ r.cb.a_len
    ring : IsRing (record r { cb = out.1 })

  discard_loop-Skipped : (n c : ℕ) (r : Ring A) → IsRing r → Skipped n c r (discard_loop n c r.cb)
  unfolding discard_loop
  discard_loop-Skipped zero c r v = record {
    left = refl;
    skipped = omega arith;
    same_len = refl;
    ring = v;
  }
  discard_loop-Skipped (suc n) c r v = elim (Bool-cases (r.cb.m_read == r.cb.m_write)) [
    | inl empty ↦
        let none_left = contents_of_eq r ((==_iff r.cb.m_read r.cb.m_write).0 empty) in
        rw empty (record {
          left = rw none_left;
          skipped = rw none_left (omega arith);
          same_len = refl;
          ring = v;
        })
    | inr more ↦
        let ne : r.cb.m_read ≢ r.cb.m_write = λ same. absurd (ground arith) in
        let r' : Ring A = record r {
          cb = record r.cb { m_read = next_element r.cb r.cb.m_read };
        } in
        let rest = discard_loop-Skipped n (c + 1) r' (read_on-IsRing r v) in
        let step = read_on-contents r v ne in
        rw more (record {
          left = rw step rest.left;
          skipped = rw step (omega (arith, rest.skipped));
          same_len = rest.same_len;
          ring = rest.ring;
        })
  ]

  -- On a ring with valid indices and blocks that are not empty, `discard` drops as many of the
  -- oldest blocks as are asked for, or all of them, says how many, and keeps the capacity and the
  -- validity.
  pub discard_lem :
      (r : Ring A) (n : ℕ)
      → IsRing r
      → (contents (discard r n).1 ≡ drop n (contents r))
        × ((discard r n).0 ≡ min n (length (contents r)))
        × (capacity (discard r n).1 ≡ capacity r)
        × IsRing (discard r n).1
  unfolding discard queue_discard
  discard_lem r n v =
      let all = discard_loop-Skipped n 0 r v in
      (all.left, omega (arith, all.skipped), ap (λ (k : ℕ). k - 1) all.same_len, all.ring)

-- `queue_create` gives an empty ring of as many blocks as fit the array, one of which stays free.
pub queue_create-IsRing {ℓ} :
    {A : Type ℓ} (f : ℕ → A) (b a : ℕ)
    → 0 < b
    → b ≤ a
    → a ≤ 2 ^ 31
    → (IsRing (record { cb = queue_create b a; block = f }))
      × (contents (record { cb = queue_create b a; block = f }) ≡ [])
      × (capacity (record { cb = queue_create b a; block = f }) ≡ a / b - 1)
unfolding queue_create
queue_create-IsRing f b a p h k =
    (record { valid = (queue_create-IsValid b a p h k).0; sized = p }, refl, refl)
