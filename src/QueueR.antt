-- ===== src/QueueR.antt =====
-- include/queue_r.h: the control block of a ring of blocks in shared memory. A function that updates
-- `*cb` returns the new control block. The data array is not part of the control block: `alloc` and
-- `peek` hand out byte offsets into it.
pub mod Inv
pub mod Fifo
use nstack.Base.{
  ℕ, zero, suc, ◌+◌, ◌*◌, ◌/◌, ◌%◌, ◌^◌, Bool, Option, none, some, u32, ◌==◌, if◌then◌else◌,
}

-- `queue_cb_t`.
pub record QueueCb : Type 0 where
  pub b_size : ℕ
  pub a_len : ℕ
  pub m_write : ℕ
  pub m_read : ℕ

-- `(i + 1) % cb->a_len` on `size_t`.
pub next_element : QueueCb → ℕ → ℕ
next_element cb i = (i + 1) % 2 ^ 64 % cb.a_len

-- `queue_create`, for a block size that is not 0.
pub queue_create : ℕ → ℕ → QueueCb
queue_create block_size array_size = record {
  b_size = block_size;
  a_len = array_size / block_size;
  m_write = 0;
  m_read = 0;
}

-- `queue_alloc`. `none` is the -1 of a full queue; the offset is returned as an `int`, here by its
-- bit pattern.
pub queue_alloc : QueueCb → Option ℕ
unfolding next_element
queue_alloc cb =
    if next_element cb cb.m_write == cb.m_read then none else some (u32 (cb.m_write * cb.b_size))

-- `queue_commit`.
pub queue_commit : QueueCb → QueueCb
unfolding next_element
queue_commit cb = record cb { m_write = next_element cb cb.m_write }

-- `queue_peek`. `none` is the `false` of an empty queue, `some` what goes through `index`.
pub queue_peek : QueueCb → Option ℕ
queue_peek cb = if cb.m_read == cb.m_write then none else some (u32 (cb.m_read * cb.b_size))

-- The loop of `queue_discard`, with `n - count` rounds left.
pub discard_loop : ℕ → ℕ → QueueCb → ℕ × QueueCb
discard_loop zero count cb = (count, cb)
discard_loop (suc left) count cb =
    let rest = discard_loop left (count + 1) (record cb { m_read = next_element cb cb.m_read }) in
    if cb.m_read == cb.m_write then (count, cb) else rest

-- `queue_discard`: the number of elements skipped, and the control block.
pub queue_discard : QueueCb → ℕ → ℕ × QueueCb
unfolding discard_loop next_element
queue_discard cb n = discard_loop n 0 cb

-- `queue_clear_from_push_end`.
pub queue_clear_from_push_end : QueueCb → QueueCb
queue_clear_from_push_end cb = record cb { m_write = cb.m_read }

-- `queue_clear_from_pop_end`.
pub queue_clear_from_pop_end : QueueCb → QueueCb
queue_clear_from_pop_end cb = record cb { m_read = cb.m_write }

-- `queue_is_empty`.
pub queue_is_empty : QueueCb → Bool
queue_is_empty cb = cb.m_write == cb.m_read

-- `queue_is_full`.
pub queue_is_full : QueueCb → Bool
unfolding next_element
queue_is_full cb = next_element cb cb.m_write == cb.m_read
