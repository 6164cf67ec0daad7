-- ===== src/Shim/Setup/Placing.antt =====
-- `initialize` of src/transport.rs on naive/fabric_shim.c: the slots, and all that it has opened.
use rdma_prototype.Base.{ap, ◌+◌, ◌≡◌, ◌≢◌, ◌∙◌, refl, some, none, Option, inl, inr, arith}
use rdma_prototype.Ffi.{Ptr, access_send, access_recv}
use rdma_prototype.Machine.{Machine, At, zoom}
use rdma_prototype.Machine.Logic.{Concludes}
use rdma_prototype.Libfabric.{Libfabric, FiInfo}
use rdma_prototype.Transport.Connection.{Connection, tx_id, rx_id}
use rdma_prototype.Transport.Connection.Setup as Setup
use rdma_prototype.Shim.Objects.{Store, up, put-same, put-other}
use rdma_prototype.Shim.Backing.{Backed, memory}
use rdma_prototype.Transport.Connection.Buffers.{Holds}
use rdma_prototype.Shim.Sync.Synchrony.{InStep}
use rdma_prototype.Shim.Setup.Opened.{Failing}
use rdma_prototype.Shim.Setup.Stages.{Ready, HasMr, HasOp, HasConnection, put-older}
use rdma_prototype.Shim.Setup.Attaching.{new_mr, new_op, zoom-Concludes, register-Concludes}

some_there : {A : Type 0} {a : A} {o : Option A} → o ≡ some a → o ≢ none
some_there h e = cc

module _ {M : Machine} {L : Libfabric} (backed : Backed M L) (fails : Failing L) (info : Ptr)
    (i : FiInfo) where
  -- What a connection has once a slot is set up.
  abbrev pub HasSend : Connection → Store L → Type 0
  HasSend c t = Ready info i c t × HasConnection 4 c t × HasMr c c.tx t × HasOp tx_id c.tx t

  pub tx-Concludes :
      (s : At M Connection)
      → Ready info i s.self (memory backed s)
      → HasConnection 3 s.self (memory backed s)
      → Concludes
          (λ _ u. (u.self.domain ≡ s.self.domain) × HasSend u.self (memory backed u))
          (zoom M
            (λ c. c.tx)
            (λ s c. record c { tx = s })
            (Setup.register M s.self.domain access_send tx_id)
            s)
  tx-Concludes s (nn, nf, ni, live, there, (b, tx), rx)
        ((nd, (d, hd, df, count)), he, ((nt, ot), ht), ((nr, or), hr), apart, hp) =
      let m = backed.store s.env.world in
      let c = s.self in
      zoom-Concludes backed fails (λ c t. (c.domain ≡ s.self.domain) × HasSend c t) (λ c. c.tx)
        (λ s c. record c { tx = s }) (Setup.register M c.domain access_send tx_id) s
        (register-Concludes backed fails
          (λ slot t. (c.domain ≡ s.self.domain) × HasSend (record c { tx = slot }) t) c.domain
          access_send tx_id b d (record { self = c.tx; env = s.env }) tx nd nn hd
          (λ raw w. (
            refl,
            (
              (λ e. omega (arith, e), nf, ni, live, there, (b, tx), rx),
              (
                (
                  nd,
                  (
                    _,
                    put-same c.domain (some (record d { children = up d.children })) m.domains,
                    df,
                    ap up count,
                  ),
                ),
                he,
                ((nt, omega (arith, ot)), ht),
                ((nr, omega (arith, or)), hr),
                apart,
                hp,
              ),
              (
                (nn, omega arith),
                (_, put-same m.next (some (new_mr raw c.domain access_send b)) m.mrs, refl, refl),
              ),
              (
                (λ e. omega (arith, e), omega arith),
                (_, put-same (m.next + 1) (some (new_op tx_id)) m.ops, refl, refl, refl),
              ),
            ),
          )))

  -- And once the other slot is.
  abbrev pub HasAll : Connection → Store L → Type 0
  HasAll c t =
      Ready info i c t
      × HasConnection 5 c t
      × HasMr c c.tx t
      × HasOp tx_id c.tx t
      × HasMr c c.rx t
      × HasOp rx_id c.rx t
      × (c.tx.mr ≢ c.rx.mr)
      × (c.tx.op ≢ c.rx.op)

  pub rx-Concludes :
      (s : At M Connection)
      → HasSend s.self (memory backed s)
      → Concludes
          (λ _ u. HasAll u.self (memory backed u))
          (zoom M
            (λ c. c.rx)
            (λ s c. record c { rx = s })
            (Setup.register M s.self.domain access_recv rx_id)
            s)
  rx-Concludes s
        (
          (nn, nf, ni, live, there, tx, (b, rx)),
          ((nd, (d, hd, df, count)), he, ((nt, ot), ht), ((nr, or), hr), apart, hp),
          ((nm, om), (mr, hm, dm, pm)),
          ((nop, oo), (op, ho, oi, oc, ofree)),
        ) =
      let m = backed.store s.env.world in
      let c = s.self in
      zoom-Concludes backed fails HasAll (λ c. c.rx) (λ s c. record c { rx = s })
        (Setup.register M c.domain access_recv rx_id) s
        (register-Concludes backed fails (λ slot t. HasAll (record c { rx = slot }) t) c.domain
          access_recv rx_id b d (record { self = c.rx; env = s.env }) rx nd nn hd
          (λ raw w. (
            (λ e. omega (arith, e), nf, ni, live, there, tx, (b, rx)),
            (
              (
                nd,
                (
                  _,
                  put-same c.domain (some (record d { children = up d.children })) m.domains,
                  df,
                  ap up count,
                ),
              ),
              he,
              ((nt, omega (arith, ot)), ht),
              ((nr, omega (arith, or)), hr),
              apart,
              hp,
            ),
            (
              (nm, omega (arith, om)),
              (mr, put-older m c.tx.mr (new_mr raw c.domain access_recv b) m.mrs om ∙ hm, dm, pm),
            ),
            (
              (nop, omega (arith, oo)),
              (
                op,
                put-other (m.next + 1) c.tx.op (some (new_op rx_id)) m.ops
                      (λ e. omega (arith, oo, e))
                    ∙ ho,
                oi,
                oc,
                ofree,
              ),
            ),
            (
              (nn, omega arith),
              (_, put-same m.next (some (new_mr raw c.domain access_recv b)) m.mrs, refl, refl),
            ),
            (
              (λ e. omega (arith, e), omega arith),
              (_, put-same (m.next + 1) (some (new_op rx_id)) m.ops, refl, refl, refl),
            ),
            λ e. omega (arith, om, e),
            λ e. omega (arith, oo, e),
          )))

  pub HasAll-Works : (c : Connection) (t : Store L) → HasAll c t → InStep c t × Holds c
  HasAll-Works c t
        (
          ready,
          (
            (nd, (d, hd, df, children)),
            (ne, (q, hq, qf, users)),
            (nt, (tx, ht, dt, it, ct)),
            (nr, (rx, hr, dr, ir, cr)),
            apart,
            (np, (e, hep, etx, erx, eeq, ed)),
          ),
          (nm, (m, hm, dm, pm)),
          (nop, (o, ho, oi, oc, om)),
          (nm2, (m2, hm2, dm2, pm2)),
          (nop2, (o2, ho2, oi2, oc2, om2)),
          mrs,
          ops,
        ) =
      (
        record {
          names = record {
            ep = np;
            eq = ne;
            domain = nd;
            tx_cq = nt.0;
            rx_cq = nr.0;
            tx_mr = nm.0;
            tx_op = nop.0;
            rx_mr = nm2.0;
            rx_op = nop2.0;
            cqs = apart;
            mrs = mrs;
            ops = ops;
          };
          wired = record {
            endpoint = e;
            there = hep;
            its_tx = etx;
            its_rx = erx;
            its_eq = eeq;
            its_domain = ed;
            tx = (tx, m, o, ht, hm, ho, dt, dm, inr (it, pm, oc, om, ct));
            rx = (rx, m2, o2, hr, hm2, ho2, dr, dm2, inr (ir, pm2, oc2, om2, cr));
            domain = (d, ready.3.0, hd, rw df ready.3.1, children);
            eq = (q, ready.3.0, hq, rw qf ready.3.1, users);
          };
          tx = (tx, o, ht, ho, oi, inl it);
          rx = (rx, o2, hr, ho2, oi2, inl ir);
        },
        (some_there ready.5.1, some_there ready.6.1),
      )
