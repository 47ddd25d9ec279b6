-- ===== src/Tcp/Rto.antt =====
-- `tcp_rto_update` of src/tcp.c: the round trip estimate and the retransmission timeout.
use nstack.Base.{
  ℕ, zero, suc, ◌+◌, ◌-◌, ◌*◌, ◌/◌, ◌%◌, ◌^◌, ◌<◌, ◌≡◌, ◌⊎◌, inl, inr, refl, arith, Bool, true,
  false, leb, u32, max, Bool-cases, if◌then◌else◌,
}
use nstack.Base.Int.{ℤ, pos, negsuc, pos_part, neg_part, ◌+ℤ◌, ◌-ℤ◌, shr_ℤ, abs}
use nstack.Tcp.{Tcb}

-- `x <= 0`, on an `int`.
abbrev pub not_positive : ℤ → Bool
not_positive (pos n) = leb n 0
not_positive (negsuc n) = true

-- `x != 0`, on an `int`.
abbrev pub nonzero : ℤ → Bool
nonzero (pos zero) = false
nonzero (pos (suc n)) = true
nonzero (negsuc n) = true

-- `if ((x += delta) <= 0) x = 1;`
unfoldable pub add_positive : ℤ → ℤ → ℤ
unfolding ◌+ℤ◌
add_positive x delta = let sum = x +ℤ delta in if not_positive sum then pos 1 else sum

-- An `int` stored into an `unsigned`.
abbrev pub to_unsigned : ℤ → ℕ
to_unsigned (pos n) = u32 n
to_unsigned (negsuc n) = (2 ^ 32 - 1 - n % 2 ^ 32) % 2 ^ 32

-- `x << k`, on an `int`.
abbrev pub shl_ℤ : ℤ → ℕ → ℤ
shl_ℤ (pos n) k = pos (n * 2 ^ k)
shl_ℤ (negsuc n) k = negsuc (suc n * 2 ^ k - 1)

-- `TCP_REXMTVAL`.
unfoldable pub tcp_rexmtval : ℤ → ℤ → ℤ
unfolding ◌+ℤ◌
tcp_rexmtval rtt_est rtt_var = shr_ℤ rtt_est 3 +ℤ rtt_var

-- `tcp_rto_update`.
unfoldable pub tcp_rto_update : Tcb → ℤ → Tcb
unfolding add_positive tcp_rexmtval ◌-ℤ◌
tcp_rto_update conn rtt =
    let delta = (rtt -ℤ pos 1) -ℤ shr_ℤ conn.rtt_est 3 in
    let delta' = abs delta -ℤ shr_ℤ conn.rtt_var 2 in
    let est = if nonzero conn.rtt_est then add_positive conn.rtt_est delta else shl_ℤ rtt 3 in
    let var = if nonzero conn.rtt_est then add_positive conn.rtt_var delta' else shl_ℤ rtt 1 in
    record conn {
      rtt_est = est;
      rtt_var = var;
      retran_timeout = to_unsigned (tcp_rexmtval est var);
      rtt = pos 0;
    }

-- The estimators are not negative.
pub record IsEstimated (conn : Tcb) : Type 0 where
  pub est_nonneg : neg_part conn.rtt_est ≡ 0
  pub var_nonneg : neg_part conn.rtt_var ≡ 0

add_positive-pos :
    (x delta : ℤ) → (0 < pos_part (add_positive x delta)) × (neg_part (add_positive x delta) ≡ 0)
unfolding add_positive
add_positive-pos x delta = ground arith

-- The smoothed estimate as a number.
smoothed :
    (e : ℤ) (rtt : ℕ)
    → neg_part e ≡ 0
    → 0 < rtt
    → pos_part (add_positive e (pos rtt -ℤ pos 1 -ℤ shr_ℤ e 3))
      ≡ max 1 (pos_part e - pos_part e / 8 + (rtt - 1))
unfolding add_positive ◌-ℤ◌
smoothed (pos n) rtt h p = ground arith
smoothed (negsuc n) rtt h p = absurd (omega arith)

to_unsigned-rexmtval :
    (e v : ℤ)
    → neg_part e ≡ 0
    → neg_part v ≡ 0
    → to_unsigned (tcp_rexmtval e v) ≡ u32 (pos_part e / 8 + pos_part v)
unfolding tcp_rexmtval
to_unsigned-rexmtval (pos n) (pos m) h k = ground arith
to_unsigned-rexmtval (negsuc n) v h k = absurd (omega arith)
to_unsigned-rexmtval (pos n) (negsuc m) h k = absurd (omega arith)

measured : (x : ℤ) → neg_part x ≡ 0 → nonzero x ≡ true → 0 < pos_part x
measured (pos zero) n m = cc
measured (pos (suc k)) n m = omega arith
measured (negsuc k) n m = absurd (omega arith)

unmeasured : (x : ℤ) → nonzero x ≡ false → pos_part x ≡ 0
unmeasured (pos zero) m = refl
unmeasured (pos (suc k)) m = cc
unmeasured (negsuc k) m = cc

-- Where the estimators are not negative, after an update by a positive sample the measurement is
-- off and the timeout is an eighth of the estimate plus the variance, as a word. The first sample
-- makes the timeout 3 samples; a later one moves the estimate by the sample less one less an
-- eighth of the estimate. Both estimators are at least 1 then.
pub tcp_rto_update_lem :
    (conn : Tcb) (rtt : ℕ)
    → IsEstimated conn
    → 0 < rtt
    → let c = tcp_rto_update conn (pos rtt) in
      IsEstimated c
      × (0 < pos_part c.rtt_est)
      × (0 < pos_part c.rtt_var)
      × (c.rtt ≡ pos 0)
      × (c.retran_timeout ≡ u32 (pos_part c.rtt_est / 8 + pos_part c.rtt_var))
      × (((pos_part conn.rtt_est ≡ 0) × (c.retran_timeout ≡ u32 (3 * rtt)))
          ⊎ ((0 < pos_part conn.rtt_est)
              × (pos_part c.rtt_est
                  ≡ max 1 (pos_part conn.rtt_est - pos_part conn.rtt_est / 8 + (rtt - 1)))))
unfolding tcp_rto_update
tcp_rto_update_lem conn rtt v p =
    let e = conn.rtt_est in
    let delta = pos rtt -ℤ pos 1 -ℤ shr_ℤ e 3 in
    let delta' = abs delta -ℤ shr_ℤ conn.rtt_var 2 in
    elim (Bool-cases (nonzero e)) [
      | inl more ↦
          let good_est = add_positive-pos e delta in
          let good_var = add_positive-pos conn.rtt_var delta' in
          rw more (
            record { est_nonneg = good_est.1; var_nonneg = good_var.1 },
            good_est.0,
            good_var.0,
            refl,
            to_unsigned-rexmtval _ _ good_est.1 good_var.1,
            inr (measured e v.est_nonneg more, smoothed e rtt v.est_nonneg p),
          )
      | inr initial ↦ rw initial (
        omega arith,
        omega arith,
        omega arith,
        refl,
        to_unsigned-rexmtval (pos (rtt * 8)) (pos (rtt * 2)) refl refl,
        inl (
          unmeasured e initial,
          omega (arith, to_unsigned-rexmtval (pos (rtt * 8)) (pos (rtt * 2)) refl refl),
        ),
      )
    ]
