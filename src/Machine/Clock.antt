-- ===== src/Machine/Clock.antt =====
-- Documented behaviour of the clock, and the EAGAIN answers in a trace.
use rdma_prototype.Base.{ℕ, ◌+◌, ◌≤◌, ◌≡◌, List, [], ◌∷◌, is_zero, arith, if◌then◌else◌}
use rdma_prototype.Ffi.{Ptr, Status, post_recv}
use rdma_prototype.Machine.{Machine, Env, Call, called}
use rdma_prototype.Machine.Laws.{Steps, Posts}

-- `Instant` does not go back, and `thread::sleep` sleeps for the given time at least.
pub record Clocked (M : Machine) : Type 0 where
  pub time : M.World → ℕ
  pub now_reads : (w : M.World) → (M.now w).0 ≡ time (M.now w).1
  pub now_later : (w : M.World) → time w ≤ time (M.now w).1
  pub sleep_later : (d : ℕ) (w : M.World) → time w + d ≤ time (M.sleep d w)
  pub status_later : (c : Status) (w : M.World) → time w ≤ time (M.status c w).1
  pub eq_poll_later : (q : Ptr) (w : M.World) → time w ≤ time (M.eq_poll q w).2
  pub cq_poll_later : (q : Ptr) (w : M.World) → time w ≤ time (M.cq_poll q w).2
  pub store_later : (p : Ptr) (text : List ℕ) (w : M.World) → time w ≤ time (M.store p text w)

module _ {M : Machine} (clock : Clocked M) where
  -- The clock of the one environment is not after that of the other.
  abbrev pub Later : Env M → Env M → Type 0
  Later e f = clock.time e.world ≤ clock.time f.world

  pub Later-Steps : Steps M Later
  Later-Steps = record {
    here = λ e. omega arith;
    then = λ p q. omega arith;
    eq_poll = λ q e. clock.eq_poll_later q e.world;
    cq_poll = λ q e. clock.cq_poll_later q e.world;
  }

  pub Later-Posts : Posts M Later
  Later-Posts = record {
    status = λ c e. clock.status_later c e.world;
    store = λ p text e. clock.store_later p text e.world;
  }

-- The answers EAGAIN to posted receives.
module _ (M : Machine) where
  abbrev pub refuses : Call → ℕ
  refuses (called (post_recv ep op mr len buf) code) =
      if is_zero (M.error_is_again code) then 0 else 1
  refuses call = 0

  abbrev pub refusals : List Call → ℕ
  refusals [] = 0
  refusals (call ∷ trace) = refuses call + refusals trace

  abbrev pub Grown : Env M → Env M → Type 0
  Grown e f = refusals e.trace ≤ refusals f.trace

  pub Grown-Steps : Steps M Grown
  Grown-Steps = record {
    here = λ e. omega arith;
    then = λ p q. omega arith;
    eq_poll = λ q e. omega arith;
    cq_poll = λ q e. omega arith;
  }

  pub Grown-Posts : Posts M Grown
  Grown-Posts = record { status = λ c e. omega arith; store = λ p text e. omega arith }
