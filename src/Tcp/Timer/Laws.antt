-- ===== src/Tcp/Timer/Laws.antt =====
-- What the timers of a connection come to in `tcp_slowtimo`.
use nstack.Base.{
  ◌≡◌, ◌≢◌, refl, arith, ap, ◌∙◌, ◌+◌, ◌⊎◌, List, [], ◌∷◌, ◌++◌, Bool, true, false, Bool-cases, inl,
  inr, u32, if◌then◌else◌,
}
use nstack.Base.Outcome.{use_after_free, returns, faults, ◌>>=◌}
use nstack.Base.Int.{ℤ, pos, negsuc, ◌+ℤ◌}
use nstack.Host.{Host}
use nstack.Tcp.{Tcb, Timers, TcpSegment}
use nstack.Tcp.Rto.{nonzero}
use nstack.Tcp.Wire.{TcpPacket}
use nstack.Tcp.Segments.{tcp_send_segments, send_loop, take_segment, segment_packet}
use nstack.Tcp.Timer.{
  Counter, t_rexmt, t_persist, t_keep, t_2msl, read_timer, write_timer, kept, freed, tcp_timer,
  count_down, count_rtt, slow_conn, to_int,
}

-- What is left of a counter after a tick.
abbrev pub ticked : ℤ → ℤ
ticked t = if nonzero t then t +ℤ negsuc 0 else t

-- A counter that is not at 1 does not run out.
not_out : (t : ℤ) → nonzero t ≡ true → t ≢ pos 1 → nonzero (t +ℤ negsuc 0) ≡ true
unfolding ◌+ℤ◌
not_out t running more = ground arith

write_same :
    (i : Counter) (conn : Tcb)
    → conn ≡ record conn { timer = write_timer i (read_timer i conn.timer) conn.timer }
write_same t_rexmt conn = refl
write_same t_persist conn = refl
write_same t_keep conn = refl
write_same t_2msl conn = refl

is_out : (t : ℤ) → (t ≡ pos 1) ⊎ (t ≢ pos 1)
is_out (pos n) = ground arith
is_out (negsuc n) = ground arith

-- The counters but the first are the same.
same_counter :
    (i : Counter) (t t' : Timers)
    → i ≢ t_rexmt
    → t'.persist ≡ t.persist
    → t'.keep ≡ t.keep
    → t'.two_msl ≡ t.two_msl
    → read_timer i t' ≡ read_timer i t
same_counter t_rexmt t t' other p k m = elim (other refl) [ ]
same_counter t_persist t t' other p k m = p
same_counter t_keep t t' other p k m = k
same_counter t_2msl t t' other p k m = m

-- If no other counter runs out, the last one does.
last_out :
    (i : Counter) (t : Timers)
    → i ≢ t_rexmt
    → read_timer i t ≡ pos 1
    → t.persist ≢ pos 1
    → t.keep ≢ pos 1
    → t.two_msl ≡ pos 1
last_out t_rexmt t other out p k = elim (other refl) [ ]
last_out t_persist t other out p k = elim (p out) [ ]
last_out t_keep t other out p k = elim (k out) [ ]
last_out t_2msl t other out p k = out

module _ (host : Host) {S : Type 0} (ip_send : S → TcpPacket → S × Bool) where
  send_loop-timer :
      (segs : List TcpSegment) (conn : Tcb) (s : S)
      → (send_loop host ip_send segs conn s).0.timer ≡ conn.timer
  unfolding send_loop take_segment
  send_loop-timer [] conn s = refl
  send_loop-timer (seg ∷ rest) conn s =
      let (s', sent) = ip_send s (segment_packet host conn seg) in
      elim (Bool-cases sent) [ inl ok ↦ rw ok (send_loop-timer rest _ s') | inr bad ↦ rw bad refl ]

  -- If the mutex is free, the retransmission keeps the connection and its other counters.
  rexmt_fired :
      (conn : Tcb) (s : S)
      → conn.locked ≡ false
      → (conn' : Tcb) × (s' : S) × (tcp_timer host ip_send conn t_rexmt s ≡ returns (kept conn' s'))
        × (conn'.timer.persist ≡ conn.timer.persist)
        × (conn'.timer.keep ≡ conn.timer.keep)
        × (conn'.timer.two_msl ≡ conn.timer.two_msl)
  unfolding tcp_timer tcp_send_segments
  rexmt_fired conn s free =
      let ready : Tcb = record conn {
        timer = record conn.timer { rexmt = to_int conn.retran_timeout };
        rtt = pos 0;
        unsent_list = conn.unacked_list ++ conn.unsent_list;
        unacked_list = [];
        lists_ready = true;
        retran_count = u32 (conn.retran_count + 1);
        locked = true;
      } in
      let (conn', s', sent) = send_loop host ip_send ready.unsent_list ready s in
      let same = send_loop-timer ready.unsent_list ready s in
      (
        conn',
        s',
        rw free refl,
        ap (λ t. t.persist) same,
        ap (λ t. t.keep) same,
        ap (λ t. t.two_msl) same,
      )

  -- So does the whole round for that counter.
  rexmt_kept :
      (conn : Tcb) (s : S)
      → conn.locked ≡ false
      → (conn' : Tcb) × (s' : S) × (count_down host ip_send t_rexmt (kept conn s)
          ≡ returns (kept conn' s'))
        × (conn'.timer.persist ≡ conn.timer.persist)
        × (conn'.timer.keep ≡ conn.timer.keep)
        × (conn'.timer.two_msl ≡ conn.timer.two_msl)
  unfolding count_down
  rexmt_kept conn s free =
      let left = conn.timer.rexmt +ℤ negsuc 0 in
      let conn' : Tcb = record conn { timer = record conn.timer { rexmt = left } } in
      elim (Bool-cases (nonzero conn.timer.rexmt)) [
        | inr off ↦ (conn, s, rw off refl, refl, refl, refl)
        | inl running ↦ elim (Bool-cases (nonzero left)) [
          | inl more ↦ (conn', s, rw running (rw more refl), refl, refl, refl)
          | inr done ↦
              let (c, s', e, p, k, m) = rexmt_fired conn' s free in
              (c, s', rw running (rw done e), p, k, m)
        ]
      ]

  -- The round for another counter that runs out frees the connection.
  count_out :
      (i : Counter) (conn : Tcb) (s : S)
      → i ≢ t_rexmt
      → read_timer i conn.timer ≡ pos 1
      → count_down host ip_send i (kept conn s) ≡ returns (freed s)
  unfolding count_down tcp_timer ◌+ℤ◌
  count_out t_rexmt conn s other out = elim (other refl) [ ]
  count_out t_persist conn s other out = rw out refl
  count_out t_keep conn s other out = rw out refl
  count_out t_2msl conn s other out = rw out refl

  -- The round for a counter that is not at 1 only counts down.
  count_quiet :
      (i : Counter) (conn : Tcb) (s : S)
      → read_timer i conn.timer ≢ pos 1
      → count_down host ip_send i (kept conn s)
        ≡ returns (
            kept
              (record conn { timer = write_timer i (ticked (read_timer i conn.timer)) conn.timer })
              s)
  unfolding count_down
  count_quiet i conn s more = elim (Bool-cases (nonzero (read_timer i conn.timer))) [
    | inl running ↦ rw running (rw (not_out (read_timer i conn.timer) running more) refl)
    | inr off ↦ rw off (ap (λ c. returns (kept c s)) (write_same i conn))
  ]

  -- A connection that is freed is not left alone.
  count_freed : (i : Counter) (s : S) → count_down host ip_send i (freed s) ≡ faults use_after_free
  unfolding count_down
  count_freed i s = refl

  rtt_freed : (s : S) → count_rtt host ip_send (freed s) ≡ faults use_after_free
  unfolding count_rtt
  rtt_freed s = refl

  rtt_kept :
      (conn : Tcb) (s : S)
      → count_rtt host ip_send (kept conn s)
        ≡ returns
            (record conn { rtt = if nonzero conn.rtt then conn.rtt +ℤ pos 1 else conn.rtt }, s)
  unfolding count_rtt
  rtt_kept conn s = elim (Bool-cases (nonzero conn.rtt)) [
    | inl running ↦ rw running refl
    | inr off ↦ rw off refl
  ]

  -- The rounds after the first.
  rest_runs_out :
      (i : Counter) (conn : Tcb) (s : S)
      → i ≢ t_rexmt
      → read_timer i conn.timer ≡ pos 1
      → (count_down host ip_send t_persist (kept conn s)
          >>= count_down host ip_send t_keep
          >>= count_down host ip_send t_2msl
          >>= count_rtt host ip_send)
        ≡ faults use_after_free
  rest_runs_out i conn s other out =
      let c1 : Tcb = record conn {
        timer = record conn.timer { persist = ticked conn.timer.persist };
      } in
      let c2 : Tcb = record c1 { timer = record c1.timer { keep = ticked conn.timer.keep } } in
      elim (is_out conn.timer.persist) [
        | inl p ↦
            rw (count_out t_persist conn s (λ e. ground arith) p) (rw (count_freed t_keep s) refl)
        | inr p ↦ rw (count_quiet t_persist conn s p) (elim (is_out conn.timer.keep) [
          | inl k ↦
              rw (count_out t_keep c1 s (λ e. ground arith) k) (rw (count_freed t_2msl s) refl)
          | inr k ↦ rw (count_quiet t_keep c1 s k) (
              rw (count_out t_2msl c2 s (λ e. ground arith) (last_out i conn.timer other out p k))
                (rtt_freed s))
        ])
      ]

  -- If the mutex is free and the counter for persisting, for keeping alive or for 2MSL runs out,
  -- the body of `tcp_slowtimo` goes on with the connection that `tcp_timer` has freed.
  pub slow_conn_runs_out :
      (conn : Tcb) (s : S) (i : Counter)
      → conn.locked ≡ false
      → i ≢ t_rexmt
      → read_timer i conn.timer ≡ pos 1
      → slow_conn host ip_send conn s ≡ faults use_after_free
  unfolding slow_conn
  slow_conn_runs_out conn s i free other out =
      let (c, s', e, p, k, m) = rexmt_kept conn s free in
      rw e (rest_runs_out i c s' other (same_counter i conn.timer c.timer other p k m ∙ out))

  -- If no counter is at 1, every counter that runs goes down by one, the counter of the round trip goes
  -- up by one if it runs, and nothing else changes.
  slow_conn_counts :
      (conn : Tcb) (s : S)
      → conn.timer.rexmt ≢ pos 1
      → conn.timer.persist ≢ pos 1
      → conn.timer.keep ≢ pos 1
      → conn.timer.two_msl ≢ pos 1
      → slow_conn host ip_send conn s
        ≡ returns (
          record conn {
            timer = record {
              rexmt = ticked conn.timer.rexmt;
              persist = ticked conn.timer.persist;
              keep = ticked conn.timer.keep;
              two_msl = ticked conn.timer.two_msl;
            };
            rtt = if nonzero conn.rtt then conn.rtt +ℤ pos 1 else conn.rtt;
          },
          s,
        )
  unfolding slow_conn
  slow_conn_counts conn s a b c d =
      let c1 : Tcb = record conn {
        timer = record conn.timer { rexmt = ticked conn.timer.rexmt };
      } in
      let c2 : Tcb = record c1 {
        timer = record c1.timer { persist = ticked conn.timer.persist };
      } in
      let c3 : Tcb = record c2 { timer = record c2.timer { keep = ticked conn.timer.keep } } in
      let c4 : Tcb = record c3 {
        timer = record c3.timer { two_msl = ticked conn.timer.two_msl };
      } in
      rw (count_quiet t_rexmt conn s a) (
        rw (count_quiet t_persist c1 s b)
          (rw (count_quiet t_keep c2 s c) (rw (count_quiet t_2msl c3 s d) (rtt_kept c4 s))))
