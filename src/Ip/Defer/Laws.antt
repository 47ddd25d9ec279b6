-- ===== src/Ip/Defer/Laws.antt =====
-- The queue of deferred packets: what pushing does, and that handling it ends.
use nstack.Base.{
  ℕ, zero, suc, ◌≡◌, ◌≢◌, ◌<◌, ◌≤◌, ◌⊎◌, inl, inr, refl, arith, ◌+◌, ◌-◌, ◌%◌, List, Bool, true,
  false, Bool-cases, none, some, ltb, ◌==◌, length,
}
use nstack.Base.Errno.{enobufs, emsgsize, ealready, done, fail}
use nstack.Ip.Defer.{
  IpDefer, ip_data_max_bytes, DeferQueue, ip_defer_push, ip_defer_peek, ip_defer_drop, set_tries,
  next_slot, defer_loop, ip_defer_handler,
}

-- The indices stand in the array.
pub record IsQueue (q : DeferQueue) : Type 0 where
  pub rd : q.q_rd < 20
  pub wr : q.q_wr < 20

-- The number of packets that wait.
abbrev pub deferred : DeferQueue → ℕ
deferred q = (q.q_wr + 20 - q.q_rd) % 20

-- With both indices in the array, `ip_defer_push` is refused while the queue is handled, when 19
-- packets wait, and for a packet that is too long, in this order, and leaves the queue alone then;
-- else one more packet waits, and where none waited it is the one that is read next.
pub ip_defer_push_cases :
    (q : DeferQueue) (dst proto : ℕ) (buf : List ℕ)
    → IsQueue q
    → let (q', ret) = ip_defer_push q dst proto buf in
      ((q.defer_inhibit ≡ true) × (ret ≡ fail ealready) × (q' ≡ q))
      ⊎ ((q.defer_inhibit ≡ false) × (deferred q ≡ 19) × (ret ≡ fail enobufs) × (q' ≡ q))
      ⊎ ((q.defer_inhibit ≡ false)
          × (deferred q < 19)
          × (ip_data_max_bytes < length buf)
          × (ret ≡ fail emsgsize)
          × (q' ≡ q))
      ⊎ ((q.defer_inhibit ≡ false)
          × (deferred q < 19)
          × (length buf ≤ ip_data_max_bytes)
          × (ret ≡ done 0)
          × (deferred q' ≡ deferred q + 1)
          × (q'.q_rd ≡ q.q_rd)
          × (q'.q_wr < 20)
          × ((0 < deferred q)
              ⊎ (ip_defer_peek q'
                  ≡ some (record { tries = 0; dst = dst; proto = proto; buf = buf }))))
unfolding ip_defer_push ip_defer_peek
ip_defer_push_cases q dst proto buf v = ground (arith, v.rd, v.wr)

pub ip_defer_drop_waiting :
    (q : DeferQueue) → q.q_rd ≢ q.q_wr → ip_defer_drop q ≡ record q { q_rd = next_slot q.q_rd }
unfolding ip_defer_drop
ip_defer_drop_waiting q waits = let w : (q.q_rd == q.q_wr) ≡ false = ground arith in rw w refl

-- What is read next, and what is left without it.
peek_cases :
    (q : DeferQueue)
    → IsQueue q
    → ((deferred q ≡ 0) × (ip_defer_peek q ≡ none))
      ⊎ ((ipd : IpDefer) × (ip_defer_peek q ≡ some ipd)
          × (0 < deferred q)
          × (deferred (ip_defer_drop (set_tries q ipd (ipd.tries + 1))) + 1 ≡ deferred q)
          × IsQueue (ip_defer_drop (set_tries q ipd (ipd.tries + 1))))
unfolding ip_defer_peek ip_defer_drop
peek_cases q v = elim (Bool-cases (q.q_rd == q.q_wr)) [
  | inl same ↦ inl (ground (arith, v.rd, v.wr), rw same refl)
  | inr apart ↦ inr (
    q.ip_defer_queue q.q_rd,
    rw apart refl,
    ground (arith, v.rd, v.wr),
    rw apart (ground (arith, v.rd, v.wr)),
    rw apart (record { rd = omega arith; wr = v.wr }),
  )
]

module _ {S : Type 0} (ip_send : S → ℕ → ℕ → List ℕ → S × Bool) where
  defer_loop_returns :
      (fuel : ℕ) (q : DeferQueue) (s : S)
      → IsQueue q
      → deferred q < fuel
      → (q' : DeferQueue) × (s' : S) × (defer_loop ip_send fuel q s ≡ some (q', s'))
        × (q'.defer_inhibit ≡ false)
        × IsQueue q'
        × (deferred q' ≤ deferred q)
  unfolding defer_loop
  defer_loop_returns zero q s v enough = absurd (omega arith)
  defer_loop_returns (suc fuel) q s v enough = elim (peek_cases q v) [
    | inl (none_left, e) ↦ (
      record q { defer_inhibit = false },
      s,
      rw (e, defer_loop) refl,
      refl,
      record { rd = v.rd; wr = v.wr },
      omega arith,
    )
    | inr (ipd, e, some_left, fewer, drop_rd) ↦
        let tried = set_tries q ipd (ipd.tries + 1) in
        let left = ip_defer_drop tried in
        let valid : IsQueue left = drop_rd in
        elim (Bool-cases (ltb 3 ipd.tries)) [
          | inl old ↦
              let (q', s', r, i, v', l) =
                defer_loop_returns fuel left s valid (omega (arith, fewer)) in
              (q', s', rw (e, defer_loop) (rw old r), i, v', omega (arith, fewer))
          | inr young ↦ elim (Bool-cases (ip_send s ipd.dst ipd.proto ipd.buf).1) [
            | inl unreachable ↦ (
              record (set_tries q ipd (ipd.tries + 2)) { defer_inhibit = false },
              (ip_send s ipd.dst ipd.proto ipd.buf).0,
              rw (e, defer_loop) (rw (young, unreachable) refl),
              refl,
              record { rd = v.rd; wr = v.wr },
              omega arith,
            )
            | inr sent ↦
                let (q', s', r, i, v', l) =
                  defer_loop_returns fuel left (ip_send s ipd.dst ipd.proto ipd.buf).0 valid
                    (omega (arith, fewer)) in
                (q', s', rw (e, defer_loop) (rw (young, sent) r), i, v', omega (arith, fewer))
          ]
        ]
  ]

  -- With both indices in the array, handling the queue ends within one round for each packet that
  -- waits and one more. Pushing is allowed again then, the indices stay in the array, and no more
  -- packets wait than before.
  pub ip_defer_handler_returns :
      (fuel : ℕ) (q : DeferQueue) (s : S)
      → IsQueue q
      → deferred q < fuel
      → (q' : DeferQueue) × (s' : S) × (ip_defer_handler ip_send fuel q s ≡ some (q', s'))
        × (q'.defer_inhibit ≡ false)
        × IsQueue q'
        × (deferred q' ≤ deferred q)
  unfolding ip_defer_handler
  ip_defer_handler_returns fuel q s v enough =
      defer_loop_returns fuel (record q { defer_inhibit = true }) s
        (record { rd = v.rd; wr = v.wr }) enough
