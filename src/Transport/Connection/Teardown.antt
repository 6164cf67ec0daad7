-- ===== src/Transport/Connection/Teardown.antt =====
-- What `Connection::close` does: the endpoint, its queues, the slots, the event queue, the domain.
use rdma_prototype.Base.{◌≡◌, refl, ap, List, ◌∷◌, ◌++◌, true, ◌&&◌, not, arith, if◌then◌else◌}
use rdma_prototype.Outcome.{ok}
use rdma_prototype.Ffi.{is_null, shutdown, endpoint_close, cq_close, eq_close, domain_close}
use rdma_prototype.Machine.{Machine, At, Call, called}
use rdma_prototype.Transport.Handle.{close_handle}
use rdma_prototype.Transport.Handle.Plan.{
  Step, closing, Ran, Closes, Closes-close_handle, Closes-zoom, Closes-seq,
}
use rdma_prototype.Transport.Slot
use rdma_prototype.Transport.Slot.{Slot}
use rdma_prototype.Transport.Slot.Teardown.{slot_plan, Closes-close as Closes-slot}
use rdma_prototype.Transport.Connection.{Connection}
use rdma_prototype.Transport.Connection.Close.{
  shutdown_started, close_ep, close_tx_cq, close_rx_cq, close_tx, close_rx, close_eq, close_domain,
  close,
}
use rdma_prototype.Transport.Connection.Keeping.{
  from_domain, from_eq, from_rx, from_tx, from_rx_cq, from_tx_cq, from_ep, Keeps-close_domain,
  Keeps-close_eq, Keeps-from_eq, Keeps-close_rx, Keeps-from_rx, Keeps-close_tx, Keeps-from_tx,
  Keeps-close_rx_cq, Keeps-from_rx_cq, Keeps-close_tx_cq, Keeps-from_tx_cq, Keeps-close_ep,
}

-- What a connection owes, from each resource on.
abbrev pub plan_domain : Connection → List Step
plan_domain c = closing domain_close c.domain

abbrev pub plan_eq : Connection → List Step
plan_eq c = closing eq_close c.eq ++ plan_domain c

abbrev pub plan_rx : Connection → List Step
plan_rx c = slot_plan c.rx ++ plan_eq c

abbrev pub plan_tx : Connection → List Step
plan_tx c = slot_plan c.tx ++ plan_rx c

abbrev pub plan_rx_cq : Connection → List Step
plan_rx_cq c = closing cq_close c.rx_cq ++ plan_tx c

abbrev pub plan_tx_cq : Connection → List Step
plan_tx_cq c = closing cq_close c.tx_cq ++ plan_rx_cq c

abbrev pub plan_ep : Connection → List Step
plan_ep c = closing endpoint_close c.ep ++ plan_tx_cq c

-- The whole plan of a connection.
abbrev pub plan : Connection → List Step
plan = plan_ep

module _ (M : Machine) where
  Closes-close_domain : Closes M (λ c. closing domain_close c.domain) (close_domain M)
  unfolding close_domain
  Closes-close_domain =
      Closes-zoom M (λ c. c.domain) (λ p c. record c { domain = p }) (closing domain_close)
        (close_handle M domain_close "shim_domain_close") (λ p c. refl)
        (Closes-close_handle M domain_close "shim_domain_close")

  Closes-close_eq : Closes M (λ c. closing eq_close c.eq) (close_eq M)
  unfolding close_eq
  Closes-close_eq =
      Closes-zoom M (λ c. c.eq) (λ p c. record c { eq = p }) (closing eq_close)
        (close_handle M eq_close "shim_eq_close") (λ p c. refl)
        (Closes-close_handle M eq_close "shim_eq_close")

  Closes-from_eq : Closes M plan_eq (from_eq M)
  Closes-from_eq =
      Closes-seq M (λ c. closing eq_close c.eq) plan_domain (close_eq M) (from_domain M)
        Closes-close_eq Closes-close_domain (Keeps-close_eq M plan_domain (λ p c. refl))
        (Keeps-close_domain M (λ c. closing eq_close c.eq) (λ p c. refl))

  Closes-close_rx : Closes M (λ c. slot_plan c.rx) (close_rx M)
  unfolding close_rx
  Closes-close_rx =
      Closes-zoom M (λ c. c.rx) (λ p c. record c { rx = p }) slot_plan (Slot.close M) (λ p c. refl)
        (Closes-slot M)

  Closes-from_rx : Closes M plan_rx (from_rx M)
  Closes-from_rx =
      Closes-seq M (λ c. slot_plan c.rx) plan_eq (close_rx M) (from_eq M) Closes-close_rx
        Closes-from_eq (Keeps-close_rx M plan_eq (λ p c. refl))
        (Keeps-from_eq M (λ c. slot_plan c.rx) (λ p c. refl) (λ p c. refl))

  Closes-close_tx : Closes M (λ c. slot_plan c.tx) (close_tx M)
  unfolding close_tx
  Closes-close_tx =
      Closes-zoom M (λ c. c.tx) (λ p c. record c { tx = p }) slot_plan (Slot.close M) (λ p c. refl)
        (Closes-slot M)

  Closes-from_tx : Closes M plan_tx (from_tx M)
  Closes-from_tx =
      Closes-seq M (λ c. slot_plan c.tx) plan_rx (close_tx M) (from_rx M) Closes-close_tx
        Closes-from_rx (Keeps-close_tx M plan_rx (λ p c. refl))
        (Keeps-from_rx M (λ c. slot_plan c.tx) (λ p c. refl) (λ p c. refl) (λ p c. refl))

  Closes-close_rx_cq : Closes M (λ c. closing cq_close c.rx_cq) (close_rx_cq M)
  unfolding close_rx_cq
  Closes-close_rx_cq =
      Closes-zoom M (λ c. c.rx_cq) (λ p c. record c { rx_cq = p }) (closing cq_close)
        (close_handle M cq_close "shim_cq_close") (λ p c. refl)
        (Closes-close_handle M cq_close "shim_cq_close")

  Closes-from_rx_cq : Closes M plan_rx_cq (from_rx_cq M)
  Closes-from_rx_cq =
      Closes-seq M (λ c. closing cq_close c.rx_cq) plan_tx (close_rx_cq M) (from_tx M)
        Closes-close_rx_cq Closes-from_tx (Keeps-close_rx_cq M plan_tx (λ p c. refl))
        (Keeps-from_tx M (λ c. closing cq_close c.rx_cq) (λ p c. refl) (λ p c. refl) (λ p c. refl)
          (λ p c. refl))

  Closes-close_tx_cq : Closes M (λ c. closing cq_close c.tx_cq) (close_tx_cq M)
  unfolding close_tx_cq
  Closes-close_tx_cq =
      Closes-zoom M (λ c. c.tx_cq) (λ p c. record c { tx_cq = p }) (closing cq_close)
        (close_handle M cq_close "shim_cq_close") (λ p c. refl)
        (Closes-close_handle M cq_close "shim_cq_close")

  Closes-from_tx_cq : Closes M plan_tx_cq (from_tx_cq M)
  Closes-from_tx_cq =
      Closes-seq M (λ c. closing cq_close c.tx_cq) plan_rx_cq (close_tx_cq M) (from_rx_cq M)
        Closes-close_tx_cq Closes-from_rx_cq (Keeps-close_tx_cq M plan_rx_cq (λ p c. refl))
        (Keeps-from_rx_cq M (λ c. closing cq_close c.tx_cq) (λ p c. refl) (λ p c. refl)
          (λ p c. refl) (λ p c. refl) (λ p c. refl))

  Closes-close_ep : Closes M (λ c. closing endpoint_close c.ep) (close_ep M)
  unfolding close_ep
  Closes-close_ep =
      Closes-zoom M (λ c. c.ep) (λ p c. record c { ep = p }) (closing endpoint_close)
        (close_handle M endpoint_close "shim_endpoint_close") (λ p c. refl)
        (Closes-close_handle M endpoint_close "shim_endpoint_close")

  Closes-from_ep : Closes M plan_ep (from_ep M)
  Closes-from_ep =
      Closes-seq M (λ c. closing endpoint_close c.ep) plan_tx_cq (close_ep M) (from_tx_cq M)
        Closes-close_ep Closes-from_tx_cq (Keeps-close_ep M plan_tx_cq (λ p c. refl))
        (Keeps-from_tx_cq M (λ c. closing endpoint_close c.ep) (λ p c. refl) (λ p c. refl)
          (λ p c. refl) (λ p c. refl) (λ p c. refl) (λ p c. refl))

  -- The trace once the advisory shutdown was made, if it was due, with whatever code.
  abbrev pub after_shutdown : At M Connection → List Call
  after_shutdown s =
      if s.self.cm_started && not (is_null s.self.ep)
      then called (shutdown s.self.ep) (M.status (shutdown s.self.ep) s.env.world).0 ∷ s.env.trace
      else s.env.trace

  -- The connection when its plan begins.
  abbrev marked : At M Connection → At M Connection
  marked s = record { self = record s.self { closing = true }; env = s.env }

  shutdown_ok : (s : At M Connection) → (shutdown_started M s).0 ≡ ok tt
  unfolding shutdown_started
  shutdown_ok s = ground arith

  shutdown_trace : (s : At M Connection) → (shutdown_started M s).1.env.trace ≡ after_shutdown s
  unfolding shutdown_started
  shutdown_trace s = ground arith

  -- It touches nothing but `cm_started`.
  shutdown_self :
      (s : At M Connection)
      → (shutdown_started M s).1.self
        ≡ record s.self { cm_started = (shutdown_started M s).1.self.cm_started }
  unfolding shutdown_started
  shutdown_self s = ground arith

  -- `Connection::close`, on every connection and in every world, makes the advisory shutdown if
  -- connection management was started and the endpoint is open, and then carries out the plan up
  -- to its first failure: endpoint, TX and RX queues, each slot's operation, registration and
  -- buffer, event queue, domain, without the handles that are null. It succeeds exactly if no step
  -- failed, and what it leaves owed is the plan from the failed step on.
  pub close-Ran :
      (s : At M Connection)
      → Ran
          (plan s.self)
          (after_shutdown s)
          (close M s).1.env.trace
          (close M s).0
          (plan (close M s).1.self)
  unfolding close
  close-Ran s =
      let t : At M Connection = (shutdown_started M (marked s)).1 in
      let h = Closes-from_ep.at t in
      rw (shutdown_ok (marked s))
        (rw shutdown_trace at (rw (ap plan (shutdown_self (marked s))) at h))
