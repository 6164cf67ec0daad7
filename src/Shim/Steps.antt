-- ===== src/Shim/Steps.antt =====
-- The steps of `Connection::close` of src/transport.rs on naive/fabric_shim.c.
use rdma_prototype.Base.{◌≡◌, refl, sym, ap, ℕ, pos, none, arith}
use rdma_prototype.Outcome.{ok}
use rdma_prototype.Ffi as Ffi
use rdma_prototype.Ffi.{Ptr, null}
use rdma_prototype.Machine.{Machine, At}
use rdma_prototype.Machine.Logic.{Leaves, Leaves-bind, Leaves-map}
use rdma_prototype.Libfabric.{Libfabric}
use rdma_prototype.Transport.Slot
use rdma_prototype.Transport.Slot.{Slot}
use rdma_prototype.Transport.Connection.{Connection}
use rdma_prototype.Transport.Connection.Close
use rdma_prototype.Transport.Connection.Keeping.{from_ep}
use rdma_prototype.Shim.Objects.{Store}
use rdma_prototype.Shim.Closing as Closing
use rdma_prototype.Shim.Lending.{Retired, Drained, Retired-Frame, Drained-Frame}
use rdma_prototype.Shim.Teardown.{
  Closes, DomainAt, EqAt, cq_close-Retired, eq_close-EqAt, domain_close-DomainAt,
}
use rdma_prototype.Shim.Endpoint.{Distinct, Wired, endpoint_close-Wired}
use rdma_prototype.Shim.Slots.{cleared, Slot_close-Leaves}
use rdma_prototype.Shim.Backing.{Backed, zoom-Leaves, close_field-Leaves}

module _ {M : Machine} {L : Libfabric} (backed : Backed M L) (closes : Closes L) (c : Connection)
    (names : Distinct c) where
  abbrev memory : At M Connection → Store L
  memory t = backed.store t.env.world

  -- What is left in the shim's memory after each step of `close`.
  abbrev AfterEp : Store L → Type 0
  AfterEp s =
      Retired c.domain c.tx_cq c.tx.mr c.tx.op s
      × Retired c.domain c.rx_cq c.rx.mr c.rx.op s
      × DomainAt c.domain 4 s
      × EqAt c.eq 0 s

  abbrev AfterTxCq : Store L → Type 0
  AfterTxCq s =
      Drained c.domain c.tx.mr c.tx.op s
      × Retired c.domain c.rx_cq c.rx.mr c.rx.op s
      × DomainAt c.domain 3 s
      × EqAt c.eq 0 s

  abbrev AfterRxCq : Store L → Type 0
  AfterRxCq s =
      Drained c.domain c.tx.mr c.tx.op s
      × Drained c.domain c.rx.mr c.rx.op s
      × DomainAt c.domain 2 s
      × EqAt c.eq 0 s

  abbrev AfterTx : Store L → Type 0
  AfterTx s = DomainAt c.domain 1 s × (Drained c.domain c.rx.mr c.rx.op s × EqAt c.eq 0 s)

  abbrev AfterRx : Store L → Type 0
  AfterRx s = DomainAt c.domain 0 s × EqAt c.eq 0 s

  EqAt-same :
      (n : ℕ) (s t : Store L)
      → t.eqs ≡ s.eqs
      → t.fabrics ≡ s.fabrics
      → EqAt c.eq n s
      → EqAt c.eq n t
  EqAt-same n s t he hf (q, f, hq, hg, count) = (q, f, rw he hq, rw hf hg, count)

  tx_cq_step :
      (s : Store L)
      → AfterEp s
      → (t : Store L) × (Closing.cq_close L c.tx_cq s ≡ (ok (pos 0), t)) × AfterTxCq t
  tx_cq_step s (tx, rx, domain, eq) =
      let (t, h, drained, left, frame, he, hf) =
        cq_close-Retired closes c.domain c.tx_cq c.tx.mr c.tx.op 3 s names.tx_cq names.tx_op
          (omega arith) tx domain in
      (
        t,
        h,
        (
          drained,
          Retired-Frame c.domain c.rx_cq c.rx.mr c.rx.op c.tx_cq c.tx.mr c.tx.op s t
              (λ e. names.cqs (sym e)) (λ e. names.mrs (sym e)) (λ e. names.ops (sym e)) frame rx,
          left,
          EqAt-same 0 s t he hf eq,
        ),
      )

  rx_cq_step :
      (s : Store L)
      → AfterTxCq s
      → (t : Store L) × (Closing.cq_close L c.rx_cq s ≡ (ok (pos 0), t)) × AfterRxCq t
  rx_cq_step s (tx, rx, domain, eq) =
      let (t, h, drained, left, frame, he, hf) =
        cq_close-Retired closes c.domain c.rx_cq c.rx.mr c.rx.op 2 s names.rx_cq names.rx_op
          (omega arith) rx domain in
      (
        t,
        h,
        (
          Drained-Frame c.domain c.tx.mr c.tx.op c.rx_cq c.rx.mr c.rx.op s t names.mrs names.ops
              frame tx,
          drained,
          left,
          EqAt-same 0 s t he hf eq,
        ),
      )

  close_ep-Leaves :
      (s : At M Connection)
      → s.self ≡ c
      → Wired c (memory s)
      → Leaves
          (λ _ u. (u.self ≡ record c { ep = null }) × AfterEp (memory u))
          (λ _. ⊥)
          (Close.close_ep M s)
  unfolding Close.close_ep
  close_ep-Leaves s here wired =
      close_field-Leaves backed AfterEp (λ c. c.ep) (λ p c. record c { ep = p }) Ffi.endpoint_close
        "shim_endpoint_close" (λ p. Closing.endpoint_close L p (memory s)) c c.ep s here refl
        names.ep (backed.status (Ffi.endpoint_close c.ep) s.env.world)
        (endpoint_close-Wired {L = L} closes c (memory s) names wired)

  abbrev without_ep : Connection
  without_ep = record c { ep = null }

  abbrev without_tx_cq : Connection
  without_tx_cq = record without_ep { tx_cq = null }

  abbrev without_cqs : Connection
  without_cqs = record without_tx_cq { rx_cq = null }

  abbrev without_tx : Connection
  without_tx = record without_cqs { tx = cleared c.tx }

  abbrev without_slots : Connection
  without_slots = record without_tx { rx = cleared c.rx }

  close_tx_cq-Leaves :
      (s : At M Connection)
      → s.self ≡ without_ep
      → AfterEp (memory s)
      → Leaves
          (λ _ u. (u.self ≡ without_tx_cq) × AfterTxCq (memory u))
          (λ _. ⊥)
          (Close.close_tx_cq M s)
  unfolding Close.close_tx_cq
  close_tx_cq-Leaves s here left =
      close_field-Leaves backed AfterTxCq (λ c. c.tx_cq) (λ p c. record c { tx_cq = p })
        Ffi.cq_close "shim_cq_close" (λ p. Closing.cq_close L p (memory s)) without_ep c.tx_cq s
        here refl names.tx_cq (backed.status (Ffi.cq_close c.tx_cq) s.env.world)
        (tx_cq_step (memory s) left)

  close_rx_cq-Leaves :
      (s : At M Connection)
      → s.self ≡ without_tx_cq
      → AfterTxCq (memory s)
      → Leaves
          (λ _ u. (u.self ≡ without_cqs) × AfterRxCq (memory u))
          (λ _. ⊥)
          (Close.close_rx_cq M s)
  unfolding Close.close_rx_cq
  close_rx_cq-Leaves s here left =
      close_field-Leaves backed AfterRxCq (λ c. c.rx_cq) (λ p c. record c { rx_cq = p })
        Ffi.cq_close "shim_cq_close" (λ p. Closing.cq_close L p (memory s)) without_tx_cq c.rx_cq s
        here refl names.rx_cq (backed.status (Ffi.cq_close c.rx_cq) s.env.world)
        (rx_cq_step (memory s) left)

  close_tx-Leaves :
      (s : At M Connection)
      → s.self ≡ without_cqs
      → AfterRxCq (memory s)
      → Leaves (λ _ u. (u.self ≡ without_tx) × AfterTx (memory u)) (λ _. ⊥) (Close.close_tx M s)
  unfolding Close.close_tx
  close_tx-Leaves s here (tx, rx, domain, eq) =
      zoom-Leaves backed AfterTx (λ c. c.tx) (λ s c. record c { tx = s }) (cleared c.tx) without_cqs
        (Slot.close M) s here
        (Slot_close-Leaves backed closes c.domain c.tx_cq c.tx.mr c.tx.op 1 names.tx_mr names.tx_op
          (omega arith) (λ s. Drained c.domain c.rx.mr c.rx.op s × EqAt c.eq 0 s)
          (λ s t frame he hf h. (
            Drained-Frame c.domain c.rx.mr c.rx.op c.tx_cq c.tx.mr c.tx.op s t
                (λ e. names.mrs (sym e)) (λ e. names.ops (sym e)) frame h.0,
            EqAt-same 0 s t he hf h.1,
          ))
          c.tx (record { self = s.self.tx; env = s.env }) (ap (λ c. c.tx) here) refl refl
          (tx, domain, (rx, eq)))

  close_rx-Leaves :
      (s : At M Connection)
      → s.self ≡ without_tx
      → AfterTx (memory s)
      → Leaves (λ _ u. (u.self ≡ without_slots) × AfterRx (memory u)) (λ _. ⊥) (Close.close_rx M s)
  unfolding Close.close_rx
  close_rx-Leaves s here (domain, (rx, eq)) =
      zoom-Leaves backed AfterRx (λ c. c.rx) (λ s c. record c { rx = s }) (cleared c.rx) without_tx
        (Slot.close M) s here
        (Slot_close-Leaves backed closes c.domain c.rx_cq c.rx.mr c.rx.op 0 names.rx_mr names.rx_op
          (omega arith) (EqAt c.eq 0) (λ s t _ he hf h. EqAt-same 0 s t he hf h) c.rx
          (record { self = s.self.rx; env = s.env }) (ap (λ c. c.rx) here) refl refl
          (rx, domain, eq))

  close_eq-Leaves :
      (s : At M Connection)
      → s.self ≡ without_slots
      → AfterRx (memory s)
      → Leaves
          (λ _ u. (u.self ≡ record without_slots { eq = null }) × DomainAt c.domain 0 (memory u))
          (λ _. ⊥)
          (Close.close_eq M s)
  unfolding Close.close_eq
  close_eq-Leaves s here (domain, eq) =
      close_field-Leaves backed (DomainAt c.domain 0) (λ c. c.eq) (λ p c. record c { eq = p })
        Ffi.eq_close "shim_eq_close" (λ p. Closing.eq_close L p (memory s)) without_slots c.eq s
        here refl names.eq (backed.status (Ffi.eq_close c.eq) s.env.world)
        (eq_close-EqAt closes c.domain c.eq 0 (memory s) names.eq eq domain)

  -- Nothing of the domain is left, and so of no object below it.
  abbrev Freed : Store L → Type 0
  Freed s = s.domains c.domain ≡ none

  close_domain-Leaves :
      (s : At M Connection)
      → s.self ≡ record without_slots { eq = null }
      → DomainAt c.domain 0 (memory s)
      → Leaves
          (λ _ u. (u.self ≡ record without_slots { eq = null; domain = null }) × Freed (memory u))
          (λ _. ⊥)
          (Close.close_domain M s)
  unfolding Close.close_domain
  close_domain-Leaves s here left =
      close_field-Leaves backed Freed (λ c. c.domain) (λ p c. record c { domain = p })
        Ffi.domain_close "shim_domain_close" (λ p. Closing.domain_close L p (memory s))
        (record without_slots { eq = null }) c.domain s here refl names.domain
        (backed.status (Ffi.domain_close c.domain) s.env.world)
        (domain_close-DomainAt closes c.domain (memory s) names.domain left)

  close_domain_last :
      (s : At M Connection)
      → s.self ≡ record without_slots { eq = null }
      → DomainAt c.domain 0 (memory s)
      → Leaves (λ _ u. Freed (memory u)) (λ _. ⊥) (Close.close_domain M s)
  close_domain_last s here left =
      Leaves-map _ (λ _ u. Freed (memory u)) (λ _. ⊥) (Close.close_domain M s).0
        (Close.close_domain M s).1 (close_domain-Leaves s here left) (λ _ u h. h.1)

  -- From the endpoint on.
  pub from_ep-Leaves :
      (s : At M Connection)
      → s.self ≡ c
      → Wired c (memory s)
      → Leaves (λ _ u. Freed (memory u)) (λ _. ⊥) (from_ep M s)
  from_ep-Leaves s here wired =
      Leaves-bind _ _ _ (Close.close_ep M) _ s (close_ep-Leaves s here wired) (λ _ s h.
        Leaves-bind _ _ _ (Close.close_tx_cq M) _ s (close_tx_cq-Leaves s h.0 h.1) (λ _ s h.
          Leaves-bind _ _ _ (Close.close_rx_cq M) _ s (close_rx_cq-Leaves s h.0 h.1) (λ _ s h.
            Leaves-bind _ _ _ (Close.close_tx M) _ s (close_tx-Leaves s h.0 h.1) (λ _ s h.
              Leaves-bind _ _ _ (Close.close_rx M) _ s (close_rx-Leaves s h.0 h.1) (λ _ s h.
                Leaves-bind _ _ _ (Close.close_eq M) _ s (close_eq-Leaves s h.0 h.1)
                  (λ _ s h. close_domain_last s h.0 h.1))))))
