-- ===== src/Server/Rejection.antt =====
-- src/bin/server.rs: how often the accept of one request rejects it.
use rdma_prototype.Base.{some, ap, ◌≡◌, refl, ◌∙◌, ℕ, ◌+◌, true, false, arith}
use rdma_prototype.Outcome.{Outcome, ok, err, panic, unfinished, error}
use rdma_prototype.Machine.{Machine, At, Env, Exec, attempt, caught, resume, zoom, ◌>>=◌}
use rdma_prototype.Machine.Logic.{Leaves, Leaves-bind}
use rdma_prototype.Transport.Info.{Info}
use rdma_prototype.Transport.Info
use rdma_prototype.Transport.Slot
use rdma_prototype.Transport.Slot.{Slot}
use rdma_prototype.Ffi.{Ptr, null}
use rdma_prototype.Transport.Request
use rdma_prototype.Transport.Request.{Request}
use rdma_prototype.Transport.Connection.{Connection}
use rdma_prototype.Transport.Connection.Setup
use rdma_prototype.Transport.Rejection.{rejections, Unrejected, initialize-Passing, drop-Unrejected}
use rdma_prototype.Server.Run.{accept_one}

module _ (M : Machine) where
  -- The request is as it was, and no rejection was made.
  abbrev Kept : At M Setup.Setup → At M Setup.Setup → Type 0
  Kept s t = (t.self.request ≡ s.self.request) × Unrejected M s.env t.env

  zoom-Kept :
      (m : Exec (At M Connection) Unit) (s : At M Setup.Setup)
      → ((c : At M Connection) → Unrejected M c.env (m c).1.env)
      → Leaves
          (λ _ t. Kept s t)
          (λ t. Kept s t)
          (zoom M (λ s. s.conn) (λ c s. record s { conn = c }) m s)
  zoom-Kept m s h =
      go (m (record { self = s.self.conn; env = s.env })).0
        (m (record { self = s.self.conn; env = s.env })).1
        (h (record { self = s.self.conn; env = s.env }))
    where
      go :
          (r : Outcome Unit) (t : At M Connection)
          → Unrejected M s.env t.env
          → Leaves {S = At M Setup.Setup}
              (λ _ t. Kept s t)
              (λ t. Kept s t)
              (r, record { self = record s.self { conn = t.self }; env = t.env })
      go (ok u) t h = (refl, h)
      go (err e) t h = (refl, h)
      go panic t h = (refl, h)
      go unfinished t h = (refl, h)

  -- A setup that goes well leaves the request handled, and any other leaves it as it is.
  accept_request-Leaves :
      (fuel timeout : ℕ) (s : At M Setup.Setup)
      → Leaves
          (λ _ t. (t.self.request.handled ≡ true) × Unrejected M s.env t.env)
          (λ t. Kept s t)
          (Setup.accept_request M fuel timeout s)
  unfolding Setup.accept_request
  accept_request-Leaves fuel timeout s =
      Leaves-bind (λ _ t. Kept s t)
        (λ _ t. (t.self.request.handled ≡ true) × Unrejected M s.env t.env) (λ t. Kept s t)
        (zoom M (λ s. s.conn) (λ c s. record s { conn = c })
          (Setup.initialize M fuel s.self.request.info timeout))
        _ s
        (zoom-Kept (Setup.initialize M fuel s.self.request.info timeout) s
          (initialize-Passing M fuel s.self.request.info timeout).passes)
        (λ _ t k. ground (arith, k))

  -- How a request ends, which had not been handled: once accepted or rejected it is handled.
  abbrev Ended : Env M → Outcome Unit × At M Setup.Setup → Type 0
  Ended e (ok u, t) = (t.self.request.handled ≡ true) × Unrejected M e t.env
  Ended e (err x, t) =
      (t.self.request.handled ≡ true) × (rejections t.env.trace ≡ 1 + rejections e.trace)
  Ended e (panic, t) = (t.self.request.handled ≡ false) × Unrejected M e t.env
  Ended e (unfinished, t) = (t.self.request.handled ≡ false) × Unrejected M e t.env

  refuse-error :
      (x : _) (e : Env M) (t : At M Setup.Setup)
      → t.self.request.handled ≡ false
      → Unrejected M e t.env
      → Ended e (Setup.refuse M (error x) t)
  unfolding Setup.refuse Request.reject
  refuse-error x e t open_yet h = ground (arith, open_yet, h)

  refused-Ended :
      (s : At M Setup.Setup) (r : Outcome Unit) (t : At M Setup.Setup)
      → s.self.request.handled ≡ false
      → Leaves
          (λ _ t. (t.self.request.handled ≡ true) × Unrejected M s.env t.env)
          (λ t. Kept s t)
          (r, t)
      → Ended s.env (resume (caught r) (Setup.refuse M) t)
  unfolding Setup.refuse
  refused-Ended s (ok u) t fresh h = h
  refused-Ended s (err e) t fresh h = refuse-error e s.env t (ap (λ r. r.handled) h.0 ∙ fresh) h.1
  refused-Ended s panic t fresh h = (ap (λ r. r.handled) h.0 ∙ fresh, h.1)
  refused-Ended s unfinished t fresh h = (ap (λ r. r.handled) h.0 ∙ fresh, h.1)

  -- The same once `from_request` has returned.
  abbrev Returned : Env M → Outcome Connection × At M Request → Type 0
  Returned e (ok c, t) = (t.self.handled ≡ true) × Unrejected M e t.env
  Returned e (err x, t) =
      (t.self.handled ≡ true) × (rejections t.env.trace ≡ 1 + rejections e.trace)
  Returned e (panic, t) = (t.self.handled ≡ false) × Unrejected M e t.env
  Returned e (unfinished, t) = (t.self.handled ≡ false) × Unrejected M e t.env

  leave-Returned :
      (e : Env M) (r : Outcome Unit) (t : At M Setup.Setup)
      → Ended e (r, t)
      → Returned e (Setup.leave M r t)
  unfolding Setup.leave
  leave-Returned e (ok u) t h = h
  leave-Returned e (err x) t h = (h.0, drop-Unrejected M t.self.conn t.env ∙ h.1)
  leave-Returned e panic t h = (h.0, drop-Unrejected M t.self.conn t.env ∙ h.1)
  leave-Returned e unfinished t h = (h.0, drop-Unrejected M t.self.conn t.env ∙ h.1)

  set_up-Returned :
      (fuel timeout : ℕ) (conn : Connection) (s : At M Request)
      → s.self.handled ≡ false
      → Returned s.env (Setup.set_up M fuel timeout conn s)
  unfolding Setup.set_up
  set_up-Returned fuel timeout conn s fresh =
      let start : At M Setup.Setup = record {
        self = record { request = s.self; conn = conn };
        env = s.env;
      } in
      let done = Setup.accept_request M fuel timeout start in
      let both : Exec (At M Setup.Setup) Unit =
        attempt (Setup.accept_request M fuel timeout) >>= Setup.refuse M in
      leave-Returned s.env (both start).0 (both start).1
        (refused-Ended start done.0 done.1 fresh (accept_request-Leaves fuel timeout start))

  from_request-Returned :
      (fuel timeout : ℕ) (s : At M Request)
      → s.self.handled ≡ false
      → Returned s.env (Setup.from_request M fuel timeout s)
  unfolding Setup.from_request Setup.empty Slot.empty
  from_request-Returned fuel timeout s fresh =
      let (p, w) = M.allocate Slot.buffer_size s.env.world in
      let (q, v) = M.allocate Slot.buffer_size w in
      let slot : Ptr → Slot = λ p. record {
        bytes = some (record { ptr = p; len = Slot.buffer_size });
        mr = null;
        op = null;
        pending = false;
      } in
      rw fresh (
        set_up-Returned fuel timeout
          (record {
            fabric = s.self.listener.fabric;
            domain = null;
            eq = null;
            tx_cq = null;
            rx_cq = null;
            ep = null;
            tx = slot p;
            rx = slot q;
            cm_started = false;
            closing = false;
          })
          (record { self = record s.self { handled = false }; env = record s.env { world = v } })
          refl)

  -- What an accept leaves in the trace, by how it ended.
  abbrev pub RejectsOnce : Env M → Outcome Connection × Env M → Type 0
  RejectsOnce e (ok c, f) = rejections f.trace ≡ rejections e.trace
  RejectsOnce e (err x, f) = rejections f.trace ≡ 1 + rejections e.trace
  RejectsOnce e (panic, f) = rejections f.trace ≡ 1 + rejections e.trace
  RejectsOnce e (unfinished, f) = rejections f.trace ≡ 1 + rejections e.trace

  dropped-RejectsOnce :
      (e : Env M) (r : Outcome Connection) (t : At M Request)
      → Returned e (r, t)
      → RejectsOnce e (r, Request.drop M t.self t.env)
  unfolding Request.drop Request.reject Info.drop
  dropped-RejectsOnce e (ok c) t h = ground (arith, h)
  dropped-RejectsOnce e (err x) t h = ground (arith, h)
  dropped-RejectsOnce e panic t h = ground (arith, h)
  dropped-RejectsOnce e unfinished t h = ground (arith, h)

  -- The accept of a request that was not handled yet, with any fuel and timeout: if it gives a
  -- connection, the request is never rejected; if it ends in any other way, by an error, a panic or
  -- out of fuel, the request is rejected exactly once, by `from_request` or by its drop.
  pub accept_one-RejectsOnce :
      (fuel timeout : ℕ) (request : Request) (e : Env M)
      → request.handled ≡ false
      → RejectsOnce e (accept_one M fuel timeout request e)
  unfolding accept_one
  accept_one-RejectsOnce fuel timeout request e fresh =
      let start : At M Request = record { self = request; env = e } in
      let done = Setup.from_request M fuel timeout start in
      dropped-RejectsOnce e done.0 done.1 (from_request-Returned fuel timeout start fresh)
