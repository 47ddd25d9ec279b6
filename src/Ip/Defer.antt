-- ===== src/Ip/Defer.antt =====
-- Packets that wait for the address of their receiver: src/ip_defer.c. The queue has 20 slots.
pub mod Laws
use nstack.Base.{
  ℕ, zero, suc, ◌+◌, ◌-◌, ◌%◌, List, Bool, true, false, Option, none, some, ltb, ◌==◌, length,
  if◌then◌else◌,
}
use nstack.Base.Errno.{enobufs, emsgsize, ealready, Ret, done, fail}

-- `struct ip_defer`; `buf_size` is the length of `buf`.
pub record IpDefer : Type 0 where
  pub tries : ℕ
  pub dst : ℕ
  pub proto : ℕ
  pub buf : List ℕ

-- `NSTACK_IP_DEFER_MAX` and `IP_DATA_MAX_BYTES`.
abbrev pub ip_defer_max : ℕ
ip_defer_max = 20

abbrev pub ip_data_max_bytes : ℕ
ip_data_max_bytes = 65515

-- The static variables.
pub record DeferQueue : Type 0 where
  pub ip_defer_queue : ℕ → IpDefer
  pub q_rd : ℕ
  pub q_wr : ℕ
  pub defer_inhibit : Bool

abbrev pub next_slot : ℕ → ℕ
next_slot i = (i + 1) % ip_defer_max

abbrev pub write_slot : (ℕ → IpDefer) → ℕ → IpDefer → ℕ → IpDefer
write_slot f i slot j = if j == i then slot else f j

-- `ip_defer_push`.
unfoldable pub ip_defer_push : DeferQueue → ℕ → ℕ → List ℕ → DeferQueue × Ret
ip_defer_push q dst proto buf =
    let slot : IpDefer = record { tries = 0; dst = dst; proto = proto; buf = buf } in
    let pushed : DeferQueue = record q {
      ip_defer_queue = write_slot q.ip_defer_queue q.q_wr slot;
      q_wr = next_slot q.q_wr;
    } in
    if q.defer_inhibit
    then (q, fail ealready)
    else if next_slot q.q_wr == q.q_rd
    then (q, fail enobufs)
    else if ltb ip_data_max_bytes (length buf)
    then (q, fail emsgsize)
    else (pushed, done 0)

-- `ip_defer_peek`.
unfoldable pub ip_defer_peek : DeferQueue → Option IpDefer
ip_defer_peek q = if q.q_rd == q.q_wr then none else some (q.ip_defer_queue q.q_rd)

-- `ip_defer_drop`.
unfoldable pub ip_defer_drop : DeferQueue → DeferQueue
ip_defer_drop q = if q.q_rd == q.q_wr then q else record q { q_rd = next_slot q.q_rd }

-- `ipd->tries = n` in the slot that is read.
abbrev pub set_tries : DeferQueue → IpDefer → ℕ → DeferQueue
set_tries q ipd n = record q {
  ip_defer_queue = write_slot q.ip_defer_queue q.q_rd (record ipd { tries = n });
}

-- `ip_send` changes the rest of the stack, and says whether it returned -1 with EHOSTUNREACH. It leaves
-- the queue alone, since pushing is inhibited meanwhile.
module _ {S : Type 0} (ip_send : S → ℕ → ℕ → List ℕ → S × Bool) where
  -- The loop of `ip_defer_handler`, with fuel.
  unfoldable pub defer_loop : ℕ → DeferQueue → S → Option (DeferQueue × S)
  unfolding ip_defer_peek ip_defer_drop
  defer_loop zero q s = none
  defer_loop (suc fuel) q s = elim (ip_defer_peek q) [
    | none ↦ some (record q { defer_inhibit = false }, s)
    | some ipd ↦
        let tried = set_tries q ipd (ipd.tries + 1) in
        let (s', unreachable) = ip_send s ipd.dst ipd.proto ipd.buf in
        let again = set_tries q ipd (ipd.tries + 2) in
        let give_up = defer_loop fuel (ip_defer_drop tried) s in
        let go_on = defer_loop fuel (ip_defer_drop tried) s' in
        if ltb 3 ipd.tries
        then give_up
        else if unreachable
        then some (record again { defer_inhibit = false }, s')
        else go_on
  ]

  -- `ip_defer_handler`.
  unfoldable pub ip_defer_handler : ℕ → DeferQueue → S → Option (DeferQueue × S)
  unfolding defer_loop
  ip_defer_handler fuel q s = defer_loop fuel (record q { defer_inhibit = true }) s
