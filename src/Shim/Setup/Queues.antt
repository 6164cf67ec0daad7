-- ===== src/Shim/Setup/Queues.antt =====
-- The completion queues that `initialize` of src/transport.rs opens on naive/fabric_shim.c.
use rdma_prototype.Base.{ap, ◌≡◌, ◌≢◌, ◌∙◌, refl, some, arith}
use rdma_prototype.Ffi as Ffi
use rdma_prototype.Ffi.{Ptr, null, Open}
use rdma_prototype.Machine.{Machine, At}
use rdma_prototype.Machine.Logic.{Concludes}
use rdma_prototype.Libfabric.{Libfabric, FiInfo}
use rdma_prototype.Transport.Handle.{open_into}
use rdma_prototype.Transport.Connection.{Connection}
use rdma_prototype.Shim.Objects.{up, put-same}
use rdma_prototype.Shim.Backing.{Backed, memory}
use rdma_prototype.Shim.Setup.Opened.{Failing, new_queue, cq_open-Answers}
use rdma_prototype.Shim.Setup.Stages.{Ready, HasDomain, HasEq, HasQueue, put-older}
use rdma_prototype.Shim.Setup.SettingUp.{open_into-Concludes}

module _ {M : Machine} {L : Libfabric} (backed : Backed M L) (fails : Failing L) (info : Ptr)
    (i : FiInfo) where
  pub tx_cq-Concludes :
      (s : At M Connection)
      → Ready info i s.self (memory backed s)
      → HasDomain 0 s.self (memory backed s)
      → HasEq 0 s.self (memory backed s)
      → Concludes
          (λ _ u.
            (u.self.domain ≡ s.self.domain)
            × Ready info i u.self (memory backed u)
            × HasDomain 1 u.self (memory backed u)
            × HasEq 0 u.self (memory backed u)
            × HasQueue u.self u.self.tx_cq (memory backed u))
          (open_into M
            (λ p c. record c { tx_cq = p })
            (Ffi.cq_open s.self.domain 16)
            "TX CQ open"
            s)
  tx_cq-Concludes s (nn, nf, ni, live, there, tx, rx) (nd, (d, hd, df, count)) he =
      open_into-Concludes backed fails
        (λ c t.
          (c.domain ≡ s.self.domain)
          × Ready info i c t
          × HasDomain 1 c t
          × HasEq 0 c t
          × HasQueue c c.tx_cq t)
        (λ p c. record c { tx_cq = p }) (Ffi.cq_open s.self.domain 16) "TX CQ open" s
        (cq_open-Answers fails _ s.self.domain 16 d (memory backed s) nd nn hd (λ raw w. (
          refl,
          (λ e. omega (arith, e), nf, ni, live, there, tx, rx),
          (
            nd,
            (
              _,
              put-same s.self.domain (some (record d { children = up d.children }))
                  (memory backed s).domains,
              df,
              ap up count,
            ),
          ),
          he,
          (
            (nn, omega arith),
            (
              _,
              put-same (memory backed s).next (some (new_queue raw s.self.domain 16))
                  (memory backed s).cqs,
              refl,
              refl,
              refl,
            ),
          ),
        )))

  pub rx_cq-Concludes :
      (s : At M Connection)
      → Ready info i s.self (memory backed s)
      → HasDomain 1 s.self (memory backed s)
      → HasEq 0 s.self (memory backed s)
      → HasQueue s.self s.self.tx_cq (memory backed s)
      → Concludes
          (λ _ u.
            Ready info i u.self (memory backed u)
            × HasDomain 2 u.self (memory backed u)
            × HasEq 0 u.self (memory backed u)
            × HasQueue u.self u.self.tx_cq (memory backed u)
            × HasQueue u.self u.self.rx_cq (memory backed u)
            × (u.self.tx_cq ≢ u.self.rx_cq))
          (open_into M
            (λ p c. record c { rx_cq = p })
            (Ffi.cq_open s.self.domain 16)
            "RX CQ open"
            s)
  rx_cq-Concludes s (nn, nf, ni, live, there, tx, rx) (nd, (d, hd, df, count)) he
        ((nt, older), (q, hq, parent, idle, none_yet)) =
      open_into-Concludes backed fails
        (λ c t.
          Ready info i c t
          × HasDomain 2 c t
          × HasEq 0 c t
          × HasQueue c c.tx_cq t
          × HasQueue c c.rx_cq t
          × (c.tx_cq ≢ c.rx_cq))
        (λ p c. record c { rx_cq = p }) (Ffi.cq_open s.self.domain 16) "RX CQ open" s
        (cq_open-Answers fails _ s.self.domain 16 d (memory backed s) nd nn hd (λ raw w. (
          (λ e. omega (arith, e), nf, ni, live, there, tx, rx),
          (
            nd,
            (
              _,
              put-same s.self.domain (some (record d { children = up d.children }))
                  (memory backed s).domains,
              df,
              ap up count,
            ),
          ),
          he,
          (
            (nt, omega (arith, older)),
            (
              q,
              put-older (memory backed s) s.self.tx_cq (new_queue raw s.self.domain 16)
                    (memory backed s).cqs older
                  ∙ hq,
              parent,
              idle,
              none_yet,
            ),
          ),
          (
            (nn, omega arith),
            (
              _,
              put-same (memory backed s).next (some (new_queue raw s.self.domain 16))
                  (memory backed s).cqs,
              refl,
              refl,
              refl,
            ),
          ),
          λ e. omega (arith, older, e),
        )))
