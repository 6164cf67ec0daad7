-- ===== src/Shim/Setup/Initial.antt =====
-- `initialize` of src/transport.rs on naive/fabric_shim.c: its opens set a connection up.
use rdma_prototype.Base.{sym}
use rdma_prototype.Ffi as Ffi
use rdma_prototype.Ffi.{Ptr, null, access_send, access_recv}
use rdma_prototype.Machine.{Machine, At, zoom}
use rdma_prototype.Machine.Logic.{Concludes, Concludes-bind, Concludes-map}
use rdma_prototype.Libfabric.{Libfabric, FiInfo}
use rdma_prototype.Transport.Handle.{open_into}
use rdma_prototype.Transport.Info.{Info}
use rdma_prototype.Transport.Connection.{Connection, tx_id, rx_id}
use rdma_prototype.Transport.Connection.Setup as Setup
use rdma_prototype.Shim.Backing.{Backed, memory}
use rdma_prototype.Shim.Sync.Working.{Works}
use rdma_prototype.Shim.Setup.Opened.{Failing}
use rdma_prototype.Shim.Setup.Stages.{Ready}
use rdma_prototype.Shim.Setup.SettingUp.{domain-Concludes, eq-Concludes}
use rdma_prototype.Shim.Setup.Queues.{tx_cq-Concludes, rx_cq-Concludes}
use rdma_prototype.Shim.Setup.Fitting.{endpoint-Concludes}
use rdma_prototype.Shim.Setup.Placing.{tx-Concludes, rx-Concludes, HasAll, HasAll-Works}

module _ {M : Machine} {L : Libfabric} (backed : Backed M L) (fails : Failing L) (info : Ptr)
    (i : FiInfo) where
  -- The opens of `initialize`.
  opens-Concludes :
      (s : At M Connection)
      → Ready info i s.self (memory backed s)
      → Concludes (λ _ u. Works backed u) (Setup.open_resources M (record { raw = info }) s)
  unfolding Setup.open_resources
  opens-Concludes s ready =
      let Goal : Unit → At M Connection → Type 0 = λ _ u. Works backed u in
      Concludes-bind _ Goal
        (open_into M (λ p c. record c { domain = p }) (Ffi.domain_open s.self.fabric.raw info)
          "shim_domain_open")
        _ s (domain-Concludes backed fails info i s ready)
        λ _ s1 (same, r1, d1). rw (sym same) (
          Concludes-bind _ Goal
            (open_into M (λ p c. record c { eq = p }) (Ffi.eq_open s1.self.fabric.raw)
              "shim_eq_open")
            _ s1 (eq-Concludes backed fails info i s1 r1 d1)
            λ _ s2 (r2, d2, e2).
              Concludes-bind _ Goal
                (open_into M (λ p c. record c { tx_cq = p }) (Ffi.cq_open s2.self.domain 16)
                  "TX CQ open")
                _ s2 (tx_cq-Concludes backed fails info i s2 r2 d2 e2)
                λ _ s3 (same3, r3, d3, e3, t3). rw (sym same3) (
                  Concludes-bind _ Goal
                    (open_into M (λ p c. record c { rx_cq = p }) (Ffi.cq_open s3.self.domain 16)
                      "RX CQ open")
                    _ s3 (rx_cq-Concludes backed fails info i s3 r3 d3 e3 t3)
                    λ _ s4 (r4, d4, e4, t4, q4, apart).
                      Concludes-bind _ Goal
                        (open_into M (λ p c. record c { ep = p })
                          (Ffi.endpoint_open s4.self.domain info s4.self.eq s4.self.tx_cq
                            s4.self.rx_cq)
                          "shim_endpoint_open")
                        _ s4 (endpoint-Concludes backed fails info i s4 r4 d4 e4 t4 q4 apart)
                        λ _ s5 (same5, r5, c5). rw (sym same5) (
                          Concludes-bind _ Goal
                            (zoom M (λ c. c.tx) (λ s c. record c { tx = s })
                              (Setup.register M s5.self.domain access_send tx_id))
                            _ s5 (tx-Concludes backed fails info i s5 r5 c5)
                            λ _ s6 (same6, h6). rw (sym same6) (
                              Concludes-map
                                (λ _ u. HasAll backed fails info i u.self (memory backed u)) Goal
                                (zoom M (λ c. c.rx) (λ s c. record c { rx = s })
                                  (Setup.register M s6.self.domain access_recv rx_id) s6).0
                                (zoom M (λ c. c.rx) (λ s c. record c { rx = s })
                                  (Setup.register M s6.self.domain access_recv rx_id) s6).1
                                (rx-Concludes backed fails info i s6 h6)
                                (λ _ u h.
                                  HasAll-Works backed fails info i u.self (memory backed u) h)))))

-- The opens of `initialize`, on a machine whose foreign calls are the shim's and a libfabric whose
-- error codes are not 0: from a fabric and an info that are there and a connection whose slots
-- have their buffers, they come to an end, by an error, or with a connection that is in step with
-- the shim: its handles are distinct, and the shim's memory has its objects with the references
-- that they count, the operations with the ids of their slots, and a flag that is not set only where
-- no operation is in flight.
pub open_resources-Works :
    {M : Machine} {L : Libfabric} (backed : Backed M L) (fails : Failing L) (info : Info)
    (i : FiInfo) (s : At M Connection)
    → Ready info.raw i s.self (memory backed s)
    → Concludes (λ _ u. Works backed u) (Setup.open_resources M info s)
open_resources-Works backed fails info i s ready = opens-Concludes backed fails info.raw i s ready
