-- ===== src/Transport/Construction.antt =====
-- src/transport.rs: `connect` and `from_request`, and the fuel of the loop they run.
use rdma_prototype.Base.{◌≡◌, ℕ, suc, ◌+◌, ◌*◌, ◌≤◌, arith}
use rdma_prototype.Outcome.{Outcome, ok, err, panic, unfinished, Result, value, error}
use rdma_prototype.Machine.{Machine, At, Env, Exec, do_now, me, zoom, in_env, attempt, ◌>>=◌}
use rdma_prototype.Machine.Logic.{Finishes-bind}
use rdma_prototype.Machine.Halting.{
  Halted, Halts, Halts-bind, Halts-if, Halts-zoom, Halts-attempt, Halts-construct,
}
use rdma_prototype.Machine.Clock.{Clocked}
use rdma_prototype.Transport.Info.{Info}
use rdma_prototype.Transport.Fabric.{Fabric}
use rdma_prototype.Transport.Request
use rdma_prototype.Transport.Request.{Listener, Request}
use rdma_prototype.Transport.Listener.{millisecond}
use rdma_prototype.Transport.Slot
use rdma_prototype.Transport.Connection.{Connection}
use rdma_prototype.Transport.Connection.Close
use rdma_prototype.Transport.Connection.Setup
use rdma_prototype.Transport.Halting.{open_resources-Halts}
use rdma_prototype.Transport.Waiting.{now-Finishes, post_until-Halted}

module _ {M : Machine} (clock : Clocked M) where
  abbrev clock_at : Env M → ℕ
  clock_at e = clock.time e.world

  initialize-Halts :
      (k : ℕ) (info : Info) (timeout : ℕ)
      → timeout ≤ k * millisecond
      → Halts (Setup.initialize M (suc k) info timeout)
  unfolding Setup.initialize
  initialize-Halts k info timeout h =
      Halts-bind (Setup.open_resources M info) _ (open_resources-Halts M info) (λ _ s.
        Finishes-bind (λ t u. (t ≡ clock_at u.env) × (clock_at s.env ≤ clock_at u.env))
          (λ _ _. Unit) (in_env M (do_now M)) _ s (now-Finishes clock s.env)
          (λ start u m. post_until-Halted clock k (start + timeout) u (omega arith)))

  -- `connect` and `from_request` with one round of fuel for each millisecond of their timeout, and
  -- one more.
  pub connect-Halts :
      (k : ℕ) (fabric : Fabric) (info : Info) (timeout : ℕ)
      → timeout ≤ k * millisecond
      → Halts (Setup.connect M (suc k) fabric info timeout)
  unfolding Setup.connect Setup.start_connect Setup.empty Slot.empty
  connect-Halts k fabric info timeout h =
      Halts-bind (Setup.empty M fabric) _ (λ e. tt)
        (λ conn.
          Halts-construct M conn (Close.drop M) (Setup.start_connect M (suc k) info timeout) (
            Halts-bind (Setup.initialize M (suc k) info timeout) _
              (initialize-Halts k info timeout h) (λ _ s. ground arith)))

  accept_request-Halts :
      (k timeout : ℕ) → timeout ≤ k * millisecond → Halts (Setup.accept_request M (suc k) timeout)
  unfolding Setup.accept_request
  accept_request-Halts k timeout h =
      Halts-bind (me M) _ (λ s. tt)
        (λ s.
          Halts-bind
            (zoom M (λ s. s.conn) (λ c s. record s { conn = c })
              (Setup.initialize M (suc k) s.request.info timeout))
            _
            (Halts-zoom M (λ s. s.conn) (λ c s. record s { conn = c })
              (Setup.initialize M (suc k) s.request.info timeout)
              (initialize-Halts k s.request.info timeout h))
            (λ _ s. ground arith))

  refuse-Halts : (result : Result Unit) → Halts (Setup.refuse M result)
  unfolding Setup.refuse Request.reject
  refuse-Halts (value u) s = tt
  refuse-Halts (error e) s = ground arith

  leave-Halted :
      (r : Outcome Unit) (t : At M Setup.Setup) → Halted (r, t) → Halted (Setup.leave M r t)
  unfolding Setup.leave
  leave-Halted (ok u) t h = tt
  leave-Halted (err e) t h = tt
  leave-Halted panic t h = tt
  leave-Halted unfinished t h = h

  set_up-Halts :
      (k timeout : ℕ) (conn : Connection)
      → timeout ≤ k * millisecond
      → Halts (Setup.set_up M (suc k) timeout conn)
  unfolding Setup.set_up
  set_up-Halts k timeout conn h s =
      let locals : Setup.Setup = record { request = s.self; conn = conn } in
      let start : At M Setup.Setup = record { self = locals; env = s.env } in
      let both : Exec (At M Setup.Setup) Unit =
        attempt (Setup.accept_request M (suc k) timeout) >>= Setup.refuse M in
      leave-Halted (both start).0 (both start).1 (
        Halts-bind (attempt (Setup.accept_request M (suc k) timeout)) (Setup.refuse M)
          (Halts-attempt (Setup.accept_request M (suc k) timeout)
            (accept_request-Halts k timeout h))
          refuse-Halts start)

  pub from_request-Halts :
      (k timeout : ℕ) → timeout ≤ k * millisecond → Halts (Setup.from_request M (suc k) timeout)
  unfolding Setup.from_request Setup.empty Slot.empty
  from_request-Halts k timeout h =
      Halts-bind (me M) _ (λ s. tt)
        (λ request.
          Halts-if request.handled _ _ (λ s. tt)
            (Halts-bind (in_env M (Setup.empty M request.listener.fabric)) _ (λ s. tt)
              (λ conn. set_up-Halts k timeout conn h)))
