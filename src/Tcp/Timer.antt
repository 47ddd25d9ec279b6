-- ===== src/Tcp/Timer.antt =====
-- The timers of src/tcp.c: `tcp_timer` and `tcp_slowtimo`.
pub mod Laws
use nstack.Base.{ℕ, ◌+◌, ◌-◌, ◌^◌, ltb, List, [], ◌∷◌, Bool, true, false, ◌&&◌, u32, if◌then◌else◌}
use nstack.Base.Outcome.{Fault, use_after_free, Outcome, returns, faults, ◌>>=◌}
use nstack.Base.Int.{ℤ, pos, negsuc, ◌+ℤ◌}
use nstack.Host.{Host}
use nstack.RbMap.{RbMap}
use nstack.Tcp.{Tcb, Timers, ConnAttr}
use nstack.Tcp.Rto.{nonzero}
use nstack.Tcp.Wire.{TcpPacket}
use nstack.Tcp.Segments.{tcp_rexmt_prepare, tcp_rexmt_commit}

-- The counters: TCP_T_REXMT, TCP_T_PERSIST, TCP_T_KEEP and TCP_T_2MSL.
pub data Counter : Type 0 where
  t_rexmt t_persist t_keep t_2msl : Counter

abbrev pub read_timer : Counter → Timers → ℤ
read_timer t_rexmt t = t.rexmt
read_timer t_persist t = t.persist
read_timer t_keep t = t.keep
read_timer t_2msl t = t.two_msl

abbrev pub write_timer : Counter → ℤ → Timers → Timers
write_timer t_rexmt x t = record t { rexmt = x }
write_timer t_persist x t = record t { persist = x }
write_timer t_keep x t = record t { keep = x }
write_timer t_2msl x t = record t { two_msl = x }

-- An `unsigned` stored into an `int`.
abbrev pub to_int : ℕ → ℤ
to_int n = if ltb n (2 ^ 31) then pos n else negsuc (2 ^ 32 - n - 1)

module _ (host : Host) {S : Type 0} (ip_send : S → TcpPacket → S × Bool) where
  -- What a step leaves of the connection.
  pub data Step : Type 0 where
    kept : Tcb → S → Step
    freed : S → Step

  -- `tcp_timer`. The cases PERSIST and KEEP free the connection below ESTABLISHED, and fall through to
  -- the case 2MSL, which does the same, from there on.
  unfoldable pub tcp_timer : Tcb → Counter → S → Outcome Step
  unfolding tcp_rexmt_prepare tcp_rexmt_commit
  tcp_timer conn t_rexmt s =
      let restarted : Tcb = record conn {
        timer = record conn.timer { rexmt = to_int conn.retran_timeout };
        rtt = pos 0;
      } in
      tcp_rexmt_prepare restarted
      >>= (λ prepared. tcp_rexmt_commit host ip_send prepared s)
      >>= (λ (conn', s', sent). returns (kept conn' s'))
  tcp_timer conn t_persist s = returns (freed s)
  tcp_timer conn t_keep s = returns (freed s)
  tcp_timer conn t_2msl s = returns (freed s)

  -- One round of the loop over the counters, on a connection that may have been freed by the round
  -- before.
  unfoldable pub count_down : Counter → Step → Outcome Step
  unfolding tcp_timer
  count_down i (freed s) = faults use_after_free
  count_down i (kept conn s) =
      let left = read_timer i conn.timer +ℤ negsuc 0 in
      let conn' : Tcb = record conn { timer = write_timer i left conn.timer } in
      if nonzero (read_timer i conn.timer)
      then (if nonzero left then returns (kept conn' s) else tcp_timer conn' i s)
      else returns (kept conn s)

  -- The rest of the body of `tcp_slowtimo`: `if (conn->rtt) conn->rtt++;`.
  unfoldable pub count_rtt : Step → Outcome (Tcb × S)
  count_rtt (freed s) = faults use_after_free
  count_rtt (kept conn s) =
      if nonzero conn.rtt
      then returns (record conn { rtt = conn.rtt +ℤ pos 1 }, s)
      else returns (conn, s)

  -- The body of `tcp_slowtimo` for one connection.
  unfoldable pub slow_conn : Tcb → S → Outcome (Tcb × S)
  slow_conn conn s =
      count_down t_rexmt (kept conn s)
      >>= count_down t_persist
      >>= count_down t_keep
      >>= count_down t_2msl
      >>= count_rtt

  module _ (conns : RbMap ConnAttr Tcb) where
    -- The connections one by one, each changed where it stands in the table.
    pub slow_loop : List Tcb → conns.Map → S → Outcome (conns.Map × S)
    slow_loop [] map s = returns (map, s)
    slow_loop (conn ∷ rest) map s = slow_conn conn s >>= (λ (conn', s').
        slow_loop rest
          (conns.insert (record { attr_local = conn.local; attr_remote = conn.remote }) conn' map)
          s')

    -- `tcp_slowtimo`, with the clock `tcp_now`.
    unfoldable pub tcp_slowtimo : conns.Map → ℕ → S → Outcome (conns.Map × ℕ × S)
    unfolding slow_loop
    tcp_slowtimo map tcp_now s =
        slow_loop (conns.to_list map) map s
        >>= (λ (map', s'). returns (map', u32 (tcp_now + 1), s'))
