-- ===== src/Shim/Setup/Fitting.antt =====
-- `initialize` of src/transport.rs on naive/fabric_shim.c: the endpoint.
use rdma_prototype.Base.{ap, ◌≡◌, ◌≢◌, ◌∙◌, refl, sym, true, some, arith}
use rdma_prototype.Ffi as Ffi
use rdma_prototype.Ffi.{Ptr, null, access_send, access_recv}
use rdma_prototype.Machine.{Machine, At}
use rdma_prototype.Machine.Logic.{Concludes}
use rdma_prototype.Libfabric.{Libfabric, FiInfo}
use rdma_prototype.Transport.Handle.{open_into}
use rdma_prototype.Transport.Connection.{Connection}
use rdma_prototype.Shim.Objects.{up, put, put-same, put-other}
use rdma_prototype.Shim.Opening.{take_queue}
use rdma_prototype.Shim.Backing.{Backed, memory}
use rdma_prototype.Shim.Setup.Opened.{Failing}
use rdma_prototype.Shim.Setup.Enabling.{new_endpoint}
use rdma_prototype.Shim.Setup.Endpoints.{endpoint_open-Answers}
use rdma_prototype.Shim.Setup.Stages.{Ready, HasDomain, HasEq, HasQueue, HasConnection}
use rdma_prototype.Shim.Setup.SettingUp.{open_into-Concludes}

module _ {M : Machine} {L : Libfabric} (backed : Backed M L) (fails : Failing L) (info : Ptr)
    (i : FiInfo) where
  pub endpoint-Concludes :
      (s : At M Connection)
      → Ready info i s.self (memory backed s)
      → HasDomain 2 s.self (memory backed s)
      → HasEq 0 s.self (memory backed s)
      → HasQueue s.self s.self.tx_cq (memory backed s)
      → HasQueue s.self s.self.rx_cq (memory backed s)
      → s.self.tx_cq ≢ s.self.rx_cq
      → Concludes
          (λ _ u.
            let t = memory backed u in
            (u.self.domain ≡ s.self.domain) × Ready info i u.self t × HasConnection 3 u.self t)
          (open_into M
            (λ p c. record c { ep = p })
            (Ffi.endpoint_open s.self.domain info s.self.eq s.self.tx_cq s.self.rx_cq)
            "shim_endpoint_open"
            s)
  endpoint-Concludes s (nn, nf, ni, live, there, tx, rx) (nd, (d, hd, df, count))
        (ne, (q, hq, qf, users)) ((nt, ot), (t, ht, dt, it, ct)) ((nr, or), (r, hr, dr, ir, cr))
        apart =
      let m = backed.store s.env.world in
      let c = s.self in
      open_into-Concludes backed fails
        (λ c t. (c.domain ≡ s.self.domain) × Ready info i c t × HasConnection 3 c t)
        (λ p c. record c { ep = p }) (Ffi.endpoint_open c.domain info c.eq c.tx_cq c.rx_cq)
        "shim_endpoint_open" s
        (endpoint_open-Answers fails _ c.domain info c.eq c.tx_cq c.rx_cq i t r q d m nn there ht hr
          hq hd it ir (λ e. apart (sym e))
          (λ raw w. (
            refl,
            (λ e. omega (arith, e), nf, ni, live, there, tx, rx),
            (
              (
                nd,
                (
                  _,
                  put-same c.domain (some (record d { children = up d.children })) m.domains,
                  df,
                  ap up count,
                ),
              ),
              (
                ne,
                (_, put-same c.eq (some (record q { users = up q.users })) m.eqs, qf, ap up users),
              ),
              (
                (nt, omega (arith, ot)),
                (
                  _,
                  put-other c.rx_cq c.tx_cq (some (take_queue L r))
                        (put c.tx_cq (some (take_queue L t)) m.cqs) apart
                      ∙ put-same c.tx_cq (some (take_queue L t)) m.cqs,
                  dt,
                  it,
                  ct,
                ),
              ),
              (
                (nr, omega (arith, or)),
                (
                  _,
                  put-same c.rx_cq (some (take_queue L r))
                      (put c.tx_cq (some (take_queue L t)) m.cqs),
                  dr,
                  ir,
                  cr,
                ),
              ),
              apart,
              (
                nn,
                (
                  _,
                  put-same m.next
                      (some
                        (record (new_endpoint raw c.domain c.eq c.tx_cq c.rx_cq i.max_msg_size) {
                          ready = true;
                        }))
                      (put m.next
                        (some (new_endpoint raw c.domain c.eq c.tx_cq c.rx_cq i.max_msg_size))
                        m.endpoints),
                  refl,
                  refl,
                  refl,
                  refl,
                ),
              ),
            ),
          )))
