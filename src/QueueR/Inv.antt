-- ===== src/QueueR/Inv.antt =====
-- The invariant of a control block, the number of elements that it stands for, and what each
-- operation does to that number.
use nstack.Base.{
  ltb, ◌⊎◌, ◌≢◌, true, false, some, none, ℕ, zero, suc, ◌+◌, ◌-◌, ◌*◌, ◌/◌, ◌%◌, ◌^◌, ◌≤◌, ◌<◌, ◌≡◌,
  refl, arith, ◌==◌, ap, leb, if◌then◌else◌,
}
use native.Mathlib.Decide.{dec_lt}
use native.Mathlib.Nat.{
  suc-mul, mul-le-mul_right, mod-eq_of_lt, mod_self, div-mul-le_self, div-le_self,
  le-div_iff_mul-le, le_trans,
}
use nstack.QueueR.{
  queue_alloc, queue_is_full, queue_peek, queue_is_empty, QueueCb, next_element, queue_create,
  queue_commit, discard_loop,
}

-- Both indices lie in the array, and offsets fit an `int`.
pub record IsValid (cb : QueueCb) : Type 0 where
  pub write_in : cb.m_write < cb.a_len
  pub read_in : cb.m_read < cb.a_len
  pub small : cb.a_len ≤ 2 ^ 31
  pub fits : cb.a_len * cb.b_size ≤ 2 ^ 31

-- The number of blocks between the read and the write index, going round.
abbrev pub count : QueueCb → ℕ
count cb =
    if leb cb.m_read cb.m_write then cb.m_write - cb.m_read else cb.m_write + cb.a_len - cb.m_read

-- With valid indices the successor does not wrap as a `size_t`, and goes round at the length.
pub next_element_lem :
    {cb : QueueCb} (i : ℕ)
    → IsValid cb
    → i < cb.a_len
    → next_element cb i ≡ (if suc i == cb.a_len then 0 else suc i)
unfolding next_element
next_element_lem {cb} i v h = elim (dec_lt (i + 1) cb.a_len) [
  | yes p ↦ ground (arith, mod-eq_of_lt p)
  | no p ↦
      let e : i + 1 ≡ cb.a_len = omega arith in
      ground (arith, e, mod_self cb.a_len, ap (λ (t : ℕ). t % cb.a_len) e)
]

-- `queue_create` gives a valid empty queue, when at least one block fits the array.
pub queue_create-IsValid :
    (b a : ℕ)
    → 0 < b
    → b ≤ a
    → a ≤ 2 ^ 31
    → IsValid (queue_create b a) × (count (queue_create b a) ≡ 0)
unfolding queue_create
queue_create-IsValid b a p h k = (
  record {
    write_in = pos;
    read_in = pos;
    small = le_trans (div-le_self a b) k;
    fits = le_trans (div-mul-le_self a b) k;
  },
  refl,
)
  where
    pos : 0 < a / b
    pos = (le-div_iff_mul-le p).1 (omega arith)

-- Every operation keeps the indices in the array.
pub queue_commit-IsValid : {cb : QueueCb} → IsValid cb → IsValid (queue_commit cb)
unfolding queue_commit
queue_commit-IsValid {cb} v = ground (arith, next_element_lem cb.m_write v)

pub discard_loop-IsValid : (n c : ℕ) {cb : QueueCb} → IsValid cb → IsValid (discard_loop n c cb).1
unfolding discard_loop
discard_loop-IsValid zero c v = v
discard_loop-IsValid (suc n) c {cb} v = ground (
  arith,
  next_element_lem cb.m_read v,
  λ (w : IsValid (record cb { m_read = next_element cb cb.m_read })).
      discard_loop-IsValid n (c + 1) w,
)

-- The write index is `count` steps past the read index.
pub m_write-eq :
    {cb : QueueCb}
    → IsValid cb
    → cb.m_write ≡ (
        if ltb (cb.m_read + count cb) cb.a_len
        then cb.m_read + count cb
        else cb.m_read + count cb - cb.a_len)
m_write-eq v = ground arith

pub count-lt : {cb : QueueCb} → IsValid cb → count cb < cb.a_len
count-lt v = ground arith

-- `queue_alloc` fails exactly when `queue_is_full` says so, which is when the queue holds one block
-- less than the array; else it hands out the offset of the write index, inside the array.
pub queue_alloc_cases :
    {cb : QueueCb}
    → IsValid cb
    → ((queue_is_full cb ≡ true) × (count cb + 1 ≡ cb.a_len) × (queue_alloc cb ≡ none))
      ⊎ ((queue_is_full cb ≡ false)
          × (count cb + 1 < cb.a_len)
          × (queue_alloc cb ≡ some (cb.m_write * cb.b_size))
          × (cb.m_write * cb.b_size + cb.b_size ≤ cb.a_len * cb.b_size))
unfolding queue_alloc queue_is_full
queue_alloc_cases {cb} v = ground (
  arith,
  next_element_lem cb.m_write v,
  mul-le-mul_right {m = suc cb.m_write} {n = cb.a_len} cb.b_size v.write_in,
  suc-mul cb.m_write cb.b_size,
)

-- `queue_peek` fails exactly when `queue_is_empty` says so; else it hands out the offset of the read
-- index, inside the array.
pub queue_peek_cases :
    {cb : QueueCb}
    → IsValid cb
    → ((queue_is_empty cb ≡ true) × (count cb ≡ 0) × (queue_peek cb ≡ none))
      ⊎ ((queue_is_empty cb ≡ false)
          × (0 < count cb)
          × (queue_peek cb ≡ some (cb.m_read * cb.b_size))
          × (cb.m_read * cb.b_size + cb.b_size ≤ cb.a_len * cb.b_size))
unfolding queue_peek queue_is_empty
queue_peek_cases {cb} v = ground (
  arith,
  mul-le-mul_right {m = suc cb.m_read} {n = cb.a_len} cb.b_size v.read_in,
  suc-mul cb.m_read cb.b_size,
)

-- `queue_commit` after a successful `queue_alloc` adds one block.
pub count-queue_commit :
    {cb : QueueCb} → IsValid cb → count cb + 1 < cb.a_len → count (queue_commit cb) ≡ count cb + 1
unfolding queue_commit
count-queue_commit {cb} v h = ground (arith, next_element_lem cb.m_write v)

-- Moving the read index of a queue that is not empty takes one block away.
pub count_read :
    {cb : QueueCb}
    → IsValid cb
    → cb.m_read ≢ cb.m_write
    → count (record cb { m_read = next_element cb cb.m_read }) + 1 ≡ count cb
count_read {cb} v h = ground (arith, next_element_lem cb.m_read v)
