-- ===== src/Tcp/Segments/Laws.antt =====
-- What sending, acknowledging and retransmitting do to the segments of a connection.
use mathlib.Core.List.{append-nil, append_assoc}
use nstack.Base.{
  ℕ, ◌+◌, ◌<◌, ◌≡◌, ◌≢◌, ◌⊎◌, inl, inr, refl, ap, sym, ◌∙◌, List, [], ◌∷◌, ◌++◌, Bool, true, false,
  u32, ◌==◌, length, arith, Bool-cases,
}
use nstack.Base.Outcome.{deadlock, returns, faults}
use nstack.Base.Int.{pos}
use nstack.Host.{Host}
use nstack.Tcp.{TcpHdr, TcpSegment, Tcb}
use nstack.Tcp.Wire.{TcpPacket}
use nstack.Tcp.Segments.{
  keep_unacked, tcp_ack_segments, tcp_rexmt_prepare, segment_packet, take_segment, send_loop,
  tcp_send_segments,
}

-- The number of payload bytes.
abbrev pub total_bytes : List TcpSegment → ℕ
total_bytes [] = 0
total_bytes (seg ∷ segs) = length seg.payload + total_bytes segs

-- The loop sent everything: the segments went over to the other list in order, the numbers moved by
-- the bytes sent, the mutex is free.
pub record AllSent (segs waiting : List TcpSegment) (start : ℕ) (c : Tcb) : Type 0 where
  pub unsent : c.unsent_list ≡ []
  pub unacked : c.unacked_list ≡ waiting ++ segs
  pub next : u32 c.send_next ≡ u32 (start + total_bytes segs)
  pub free : c.locked ≡ false

-- The loop failed at one segment: that segment is in neither list, and the mutex is held.
pub record FailedAt (segs waiting : List TcpSegment) (c : Tcb) : Type 0 where
  pub sent : List TcpSegment
  pub lost : TcpSegment
  pub rest : List TcpSegment
  pub split : segs ≡ sent ++ lost ∷ rest
  pub unsent : c.unsent_list ≡ rest
  pub unacked : c.unacked_list ≡ waiting ++ sent
  pub held : c.locked ≡ true

AllSent-cons :
    (seg : TcpSegment) (segs waiting : List TcpSegment) (start : ℕ) (c : Tcb)
    → AllSent segs (waiting ++ (seg ∷ [])) (u32 (start + length seg.payload)) c
    → AllSent (seg ∷ segs) waiting start c
AllSent-cons seg segs waiting start c a = record {
  unsent = a.unsent;
  unacked = a.unacked ∙ append_assoc waiting (seg ∷ []) segs;
  next = omega (arith, a.next);
  free = a.free;
}

FailedAt-cons :
    (seg : TcpSegment) (segs waiting : List TcpSegment) (c : Tcb)
    → FailedAt segs (waiting ++ (seg ∷ [])) c
    → FailedAt (seg ∷ segs) waiting c
FailedAt-cons seg segs waiting c f = record {
  sent = seg ∷ f.sent;
  lost = f.lost;
  rest = f.rest;
  split = ap (λ t. seg ∷ t) f.split;
  unsent = f.unsent;
  unacked = f.unacked ∙ append_assoc waiting (seg ∷ []) f.sent;
  held = f.held;
}

module _ (host : Host) {S : Type 0} (ip_send : S → TcpPacket → S × Bool) where
  -- A segment is handed to `ip_send` with the number `n` of the connection: the state after it, and
  -- whether it was sent.
  abbrev pub hand : Tcb → ℕ → TcpSegment → S → S × Bool
  hand conn n seg s = ip_send s (segment_packet host (record conn { send_next = n }) seg)

  -- The segments handed to `ip_send` one after the other, each numbered behind the bytes of those
  -- before it.
  abbrev pub hand_all : Tcb → ℕ → List TcpSegment → S → S
  hand_all conn n [] s = s
  hand_all conn n (seg ∷ segs) s =
      hand_all conn (u32 (n + length seg.payload)) segs (hand conn n seg s).0

  -- Each of them was sent.
  abbrev pub EachSent : Tcb → ℕ → List TcpSegment → S → Type 0
  EachSent conn n [] s = Unit {0}
  EachSent conn n (seg ∷ segs) s =
      ((hand conn n seg s).1 ≡ true)
      × EachSent conn (u32 (n + length seg.payload)) segs (hand conn n seg s).0

  -- What came of the segments: all were handed over and sent, or one of them was not and no further one
  -- was handed over.
  abbrev pub Handed : Tcb → ℕ → List TcpSegment → S → S → Bool → Type 0
  Handed conn n segs s s' sent =
      ((sent ≡ true) × EachSent conn n segs s × (s' ≡ hand_all conn n segs s))
      ⊎ ((sent ≡ false)
          × ((before : List TcpSegment) × (lost : TcpSegment) × (rest : List TcpSegment) × (segs
                ≡ before ++ lost ∷ rest)
              × EachSent conn n before s
              × (s' ≡ hand_all conn n (before ++ (lost ∷ [])) s)))

  after : TcpSegment → List TcpSegment → Tcb → Tcb
  unfolding take_segment
  after seg rest conn = record (take_segment rest conn seg) {
    unacked_list = conn.unacked_list ++ (seg ∷ []);
  }

  send_loop_cases :
      (segs : List TcpSegment) (conn : Tcb) (s : S)
      → conn.unsent_list ≡ segs
      → conn.locked ≡ true
      → let (c, s', sent) = send_loop host ip_send segs conn s in
        ((sent ≡ true) × AllSent segs conn.unacked_list conn.send_next c)
        ⊎ ((sent ≡ false) × FailedAt segs conn.unacked_list c)
  unfolding send_loop after
  send_loop_cases [] conn s e k = inl (
    refl,
    record {
      unsent = e;
      unacked = sym (append-nil conn.unacked_list);
      next = omega arith;
      free = refl;
    },
  )
  send_loop_cases (seg ∷ rest) conn s e k =
      elim (Bool-cases (ip_send s (segment_packet host conn seg)).1) [
        | inl ok ↦
            rw ok
              (elim (send_loop_cases rest (after seg rest conn)
                (ip_send s (segment_packet host conn seg)).0 refl k) [
                  | inl (sent, a) ↦
                      inl (sent, AllSent-cons seg rest conn.unacked_list conn.send_next _ a)
                  | inr (failed, f) ↦ inr (failed, FailedAt-cons seg rest conn.unacked_list _ f)
                ])
        | inr bad ↦ rw bad (
            inr (
              refl,
              record {
                sent = [];
                lost = seg;
                rest = rest;
                split = refl;
                unsent = refl;
                unacked = sym (append-nil conn.unacked_list);
                held = k;
              },
            ))
      ]

  -- After `tcp_send_segments` has returned -1, calling it again for the connection waits for the mutex
  -- for ever.
  pub tcp_send_segments_twice :
      (conn : Tcb) (s t : S) {c : Tcb} {s' : S}
      → tcp_send_segments host ip_send conn s ≡ returns (c, s', false)
      → tcp_send_segments host ip_send c t ≡ faults deadlock
  unfolding tcp_send_segments
  tcp_send_segments_twice conn s t h =
      ground (arith, send_loop_cases conn.unsent_list (record conn { locked = true }) s refl refl)

-- A retransmission sends what waits for its acknowledgement first, in order, and then what was not
-- sent: no segment is lost or sent twice by the exchange of the lists.
pub tcp_rexmt_prepare_lem :
    (conn : Tcb)
    → conn.locked ≡ false
    → (c : Tcb) × (tcp_rexmt_prepare conn ≡ returns c)
      × (c.unsent_list ≡ conn.unacked_list ++ conn.unsent_list)
      × (c.unacked_list ≡ [])
      × (c.locked ≡ false)
unfolding tcp_rexmt_prepare
tcp_rexmt_prepare_lem conn free = (
  record conn {
    unsent_list = conn.unacked_list ++ conn.unsent_list;
    unacked_list = [];
    lists_ready = true;
  },
  rw free,
  refl,
  refl,
  free,
)

-- The segments of the list that are not numbered: `nstack_tcp_send` stores 0, and the number is only
-- written into the packet.
abbrev pub Unnumbered : List TcpSegment → Type 0
Unnumbered [] = Unit {0}
Unnumbered (seg ∷ segs) = (seg.header.tcp_seqno ≡ 0) × Unnumbered segs

pub keep_unacked-Unnumbered :
    (una : ℕ) (segs : List TcpSegment) → 0 < una → Unnumbered segs → keep_unacked una segs ≡ []
unfolding keep_unacked
keep_unacked-Unnumbered una [] p u = refl
keep_unacked-Unnumbered una (seg ∷ segs) p u =
    ground (arith, keep_unacked-Unnumbered una segs p u.1)

-- If the mutex is free and the segments that wait carry the number 0, as queued segments do, an
-- acknowledgement that is above the oldest unacknowledged number drops every one of them, also
-- those that it does not cover.
tcp_ack_segments_drops_all :
    (conn : Tcb) (tcp : TcpHdr)
    → conn.locked ≡ false
    → conn.send_una < tcp.tcp_ack_num
    → Unnumbered conn.unacked_list
    → (c : Tcb) × (tcp_ack_segments conn tcp ≡ returns c)
      × (c.unacked_list ≡ [])
      × (c.send_una ≡ tcp.tcp_ack_num)
      × (((tcp.tcp_ack_num ≡ conn.send_max) × (c.send_next ≡ conn.send_next))
          ⊎ ((tcp.tcp_ack_num ≢ conn.send_max) × (c.send_next ≡ tcp.tcp_ack_num)))
unfolding tcp_ack_segments
tcp_ack_segments_drops_all conn tcp free h u =
    let una = tcp.tcp_ack_num in
    let acked : Tcb = record conn {
      send_una = una;
      unacked_list = keep_unacked una conn.unacked_list;
    } in
    let dropped = keep_unacked-Unnumbered una conn.unacked_list (omega arith) u in
    elim (Bool-cases (una == conn.send_max)) [
      | inl e ↦ (
        record acked { timer = record conn.timer { rexmt = pos 0 } },
        ground arith,
        dropped,
        refl,
        inl (ground arith, refl),
      )
      | inr e ↦ (
        record acked { send_next = una; timer = record conn.timer { rexmt = conn.rtt_est } },
        ground arith,
        dropped,
        refl,
        inr ((λ same. absurd (ground arith)), refl),
      )
    ]
