-- ===== src/Nstack/Stop.antt =====
-- The threads of src/nstack.c while `nstack_stop` waits for them, as steps of one thread at a time.
use nstack.Base.{ℕ, ◌≡◌, ◌≢◌, refl, true, false}
use nstack.Nstack.{NstackState, stopped, dying, Threads, Nstack, nstack_start}

-- Where the thread that runs `main` stands.
pub data MainAt : Type 0 where
  waiting joining_ingress joining_egress joining_tcp_timer back : MainAt

pub record Process : Type 0 where
  pub nstack : Nstack
  pub main_at : MainAt

-- `set_state`.
abbrev pub set_state : Process → NstackState → Process
set_state p state = record p { nstack = record p.nstack { nstack_state = state } }

abbrev pub main_goes : Process → MainAt → Process
main_goes p at = record p { main_at = at }

abbrev pub thread_ends : Process → Threads → Process
thread_ends p threads = record p { nstack = record p.nstack { threads = threads } }

-- The ingress and the egress thread end when they find NSTACK_DYING. `nstack_tcp_timer_thread` has no
-- step that ends it. `pthread_join` goes on when its thread has ended.
pub data Step : Process → Process → Type 0 where
  stop :
      (p : Process) → p.main_at ≡ waiting → Step p (main_goes (set_state p dying) joining_ingress)
  ingress_exit :
      (p : Process)
      → p.nstack.nstack_state ≡ dying
      → Step p (thread_ends p (record p.nstack.threads { ingress = false }))
  egress_exit :
      (p : Process)
      → p.nstack.nstack_state ≡ dying
      → Step p (thread_ends p (record p.nstack.threads { egress = false }))
  ingress_joined :
      (p : Process)
      → p.main_at ≡ joining_ingress
      → p.nstack.threads.ingress ≡ false
      → Step p (main_goes p joining_egress)
  egress_joined :
      (p : Process)
      → p.main_at ≡ joining_egress
      → p.nstack.threads.egress ≡ false
      → Step p (main_goes p joining_tcp_timer)
  tcp_timer_joined :
      (p : Process)
      → p.main_at ≡ joining_tcp_timer
      → p.nstack.threads.timer ≡ false
      → Step p (main_goes (set_state p stopped) back)

pub data Reach (p : Process) : Process → Type 0 where
  here : Reach p p
  further : {q r : Process} → Reach p q → Step q r → Reach p r

-- The timer thread runs, and `nstack_stop` has not returned.
abbrev IsStuck : Process → Type 0
IsStuck p = (p.nstack.threads.timer ≡ true) × (p.main_at ≢ back) × (p.nstack.nstack_state ≢ stopped)

Step-IsStuck : {p q : Process} → Step p q → IsStuck p → IsStuck q
Step-IsStuck (stop p at) h = (h.0, λ e. cc e, λ e. cc e)
Step-IsStuck (ingress_exit p d) h = h
Step-IsStuck (egress_exit p d) h = h
Step-IsStuck (ingress_joined p at ended) h = (h.0, λ e. cc e, h.2)
Step-IsStuck (egress_joined p at ended) h = (h.0, λ e. cc e, h.2)
Step-IsStuck (tcp_timer_joined p at ended) h = absurd (cc (h.0, ended))

Reach-IsStuck : {p q : Process} → IsStuck p → Reach p q → IsStuck q
Reach-IsStuck h here = h
Reach-IsStuck h (further r s) = Step-IsStuck s (Reach-IsStuck h r)

-- The process after `nstack_start`.
abbrev pub started_process : Nstack → ℕ → Process
started_process st handle = record {
  nstack = (nstack_start true true true st handle).0;
  main_at = waiting;
}

started_process-IsStuck :
    (st : Nstack) (handle : ℕ) → st.nstack_state ≡ stopped → IsStuck (started_process st handle)
unfolding nstack_start
started_process-IsStuck st handle off = rw off (refl, λ e. cc e, λ e. cc e)

-- Both threads end, and are joined.
joined :
    (p : Process)
    → p.main_at ≡ waiting
    → (q : Process) × Reach p q
      × (q.main_at ≡ joining_tcp_timer)
      × (q.nstack.threads.ingress ≡ false)
      × (q.nstack.threads.egress ≡ false)
joined p at =
    let p1 : Process = main_goes (set_state p dying) joining_ingress in
    let p2 : Process = thread_ends p1 (record p1.nstack.threads { ingress = false }) in
    let p3 : Process = thread_ends p2 (record p2.nstack.threads { egress = false }) in
    let p4 : Process = main_goes p3 joining_egress in
    let p5 : Process = main_goes p4 joining_tcp_timer in
    let r1 : Reach p p1 = further here (stop p at) in
    let r2 : Reach p p2 = further r1 (ingress_exit p1 refl) in
    let r3 : Reach p p3 = further r2 (egress_exit p2 refl) in
    let r4 : Reach p p4 = further r3 (ingress_joined p3 refl refl) in
    (p5, further r4 (egress_joined p4 refl refl), refl, refl, refl)

-- When `nstack_start` on a stopped stack has created its three threads, `nstack_stop` never
-- returns: no sequence of steps brings `main` back or the state to NSTACK_STOPPED, since the thread for
-- the TCP timers never ends. The other two threads can end, and are joined.
pub nstack_stop_hangs :
    (st : Nstack) (handle : ℕ)
    → st.nstack_state ≡ stopped
    → ((q : Process)
        → Reach (started_process st handle) q
        → (q.main_at ≢ back) × (q.nstack.nstack_state ≢ stopped))
      × ((q : Process) × Reach (started_process st handle) q
          × (q.main_at ≡ joining_tcp_timer)
          × (q.nstack.threads.ingress ≡ false)
          × (q.nstack.threads.egress ≡ false))
nstack_stop_hangs st handle off =
    let p : Process = started_process st handle in
    let stuck : IsStuck p = started_process-IsStuck st handle off in
    (λ q r. (let h = Reach-IsStuck stuck r in (h.1, h.2)), joined p refl)
