-- ===== src/Transport/Halting.antt =====
-- src/transport.rs: the operations without a loop, which end in an answer.
use rdma_prototype.Base.{◌≡◌, ◌⊎◌, inl, inr, ℕ, List, Bool, Option, arith}
use rdma_prototype.Outcome.{Outcome, ok, err, panic, unfinished}
use rdma_prototype.Ffi.{Ptr, Open, access_send, access_recv}
use rdma_prototype.Machine.{Machine, At, construct, me}
use rdma_prototype.Machine.Halting.{Halted, Halts, Halts-bind, Halts-zoom}
use rdma_prototype.Transport.Handle.{open_into}
use rdma_prototype.Transport.Handle.Plan.{Fails, Ran-ends}
use rdma_prototype.Transport.Info
use rdma_prototype.Transport.Info.{Info}
use rdma_prototype.Transport.Fabric
use rdma_prototype.Transport.Fabric.{Fabric}
use rdma_prototype.Transport.Request
use rdma_prototype.Transport.Request.{Listener, Request}
use rdma_prototype.Transport.Listener
use rdma_prototype.Transport.Listener.{millisecond}
use rdma_prototype.Transport.Connection.{Connection, tx_id, rx_id}
use rdma_prototype.Transport.Connection.Close
use rdma_prototype.Transport.Connection.Setup
use rdma_prototype.Transport.Connection.Teardown.{plan, after_shutdown, close-Ran}

module _ (M : Machine) where
  pub Fabric_close-Halts : Halts (Fabric.close M)
  unfolding Fabric.close
  Fabric_close-Halts s = ground arith

  pub Listener_close-Halts : Halts (Listener.close M)
  unfolding Listener.close
  Listener_close-Halts s = ground arith

  pub reject-Halts : Halts (Request.reject M)
  unfolding Request.reject
  reject-Halts s = ground arith

  pub query-Halts :
      (ip port : List ℕ) (domain : Option (List ℕ)) (is_source : Bool)
      → Halts (Info.query M ip port domain is_source)
  unfolding Info.query construct
  query-Halts ip port domain is_source s = ground arith

  pub open_fabric-Halts : (info : Info) → Halts (Fabric.open_fabric M info)
  unfolding Fabric.open_fabric construct
  open_fabric-Halts info s = ground arith

  pub bind-Halts : (fabric : Fabric) (info : Info) → Halts (Listener.bind M fabric info)
  unfolding Listener.bind construct
  bind-Halts fabric info s = ground arith

  ended : (r : Outcome Unit) (t : At M Connection) → (r ≡ ok tt) ⊎ Fails r → Halted (r, t)
  ended (ok u) t h = tt
  ended (err e) t h = tt
  ended panic t h = tt
  ended unfinished t h = elim h [ inl bad ↦ cc | inr bad ↦ absurd bad ]

  pub close-Halts : Halts (Close.close M)
  close-Halts s = ended (Close.close M s).0 (Close.close M s).1 (
      Ran-ends (plan s.self) (after_shutdown M s) (Close.close M s).1.env.trace (Close.close M s).0
        _ (close-Ran M s))

  open_into-Halts :
      {T : Type 0} (put : Ptr → T → T) (function : Open) (name : _)
      → Halts (open_into M put function name)
  unfolding open_into
  open_into-Halts put function name s = ground arith

  register-Halts : (domain : Ptr) (access id : ℕ) → Halts (Setup.register M domain access id)
  unfolding Setup.register
  register-Halts domain access id s = ground arith

  pub open_resources-Halts : (info : Info) → Halts (Setup.open_resources M info)
  unfolding Setup.open_resources
  open_resources-Halts info =
      Halts-bind (me M) _ (λ s. tt)
        (λ c. Halts-bind _ _ (open_into-Halts (λ p c. record c { domain = p }) _ _) (λ _.
          Halts-bind _ _ (open_into-Halts (λ p c. record c { eq = p }) _ _) (λ _.
            Halts-bind (me M) _ (λ s. tt)
              (λ c. Halts-bind _ _ (open_into-Halts (λ p c. record c { tx_cq = p }) _ _) (λ _.
                Halts-bind _ _ (open_into-Halts (λ p c. record c { rx_cq = p }) _ _) (λ _.
                  Halts-bind (me M) _ (λ s. tt)
                    (λ c. Halts-bind _ _ (open_into-Halts (λ p c. record c { ep = p }) _ _) (λ _.
                      Halts-bind _ _
                        (Halts-zoom M (λ c. c.tx) (λ s c. record c { tx = s }) _
                          (register-Halts c.domain access_send tx_id))
                        (λ _.
                          Halts-zoom M (λ c. c.rx) (λ s c. record c { rx = s }) _
                            (register-Halts c.domain access_recv rx_id))))))))))
