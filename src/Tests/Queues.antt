-- ===== src/Tests/Queues.antt =====
-- Examples for the queues and the datagrams of a socket.
use nstack.Tests.{ring, ring-IsRing, two_bytes}
use nstack.Base.{
  ℕ, arith, false, true, List, Bool, ◌<◌, ◌≡◌, ◌⊎◌, none, some, [], ◌∷◌, ◌++◌, length, min, drop,
  ◌≤◌,
}
use nstack.QueueR.Fifo.{put, discard, contents, capacity, put_cases, discard_lem, Ring, IsRing}
use nstack.Ip.Defer.{DeferQueue, ip_defer_handler}
use nstack.Ip.Defer.Laws.{deferred, ip_defer_handler_returns, IsQueue}

abbrev no_defers : DeferQueue
no_defers = record {
  ip_defer_queue = λ i. record { tries = 0; dst = 0; proto = 0; buf = two_bytes };
  q_rd = 19;
  q_wr = 19;
  defer_inhibit = false;
}

no_defers-IsQueue : IsQueue no_defers
no_defers-IsQueue = record { rd = omega arith; wr = omega arith }

abbrev unreachable : ℕ → ℕ → ℕ → List ℕ → ℕ × Bool
unreachable s dst proto buf = (s, true)

put_cases_example :
    ((length (contents ring) ≡ capacity ring) × (put ring 9 ≡ none))
    ⊎ ((r' : Ring ℕ) × (put ring 9 ≡ some r')
        × (contents r' ≡ contents ring ++ (9 ∷ []))
        × (length (contents ring) < capacity ring)
        × (capacity r' ≡ capacity ring)
        × IsRing r')
put_cases_example = put_cases ring 9 ring-IsRing

discard_lem_example :
    (contents (discard ring 2).1 ≡ drop 2 (contents ring))
    × ((discard ring 2).0 ≡ min 2 (length (contents ring)))
    × (capacity (discard ring 2).1 ≡ capacity ring)
    × IsRing (discard ring 2).1
discard_lem_example = discard_lem ring 2 ring-IsRing

ip_defer_handler_returns_example :
    (q' : DeferQueue) × (s' : ℕ) × (ip_defer_handler unreachable 1 no_defers 0 ≡ some (q', s'))
    × (q'.defer_inhibit ≡ false)
    × IsQueue q'
    × (deferred q' ≤ deferred no_defers)
ip_defer_handler_returns_example =
    ip_defer_handler_returns unreachable 1 no_defers 0 no_defers-IsQueue (omega arith)
