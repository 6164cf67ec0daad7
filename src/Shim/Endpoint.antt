-- ===== src/Shim/Endpoint.antt =====
-- naive/fabric_shim.c: `shim_endpoint_close` on the objects of a connection.
use rdma_prototype.Base.{
  Bool-cases, inl, inr, ℤ, ◌≡◌, ◌≢◌, ◌∙◌, refl, sym, pos, true, some, none, arith,
}
use rdma_prototype.Outcome.{ok}
use rdma_prototype.Ffi.{Ptr, null}
use rdma_prototype.Libfabric.{Libfabric, einval, fi_shutdown, fi_close}
use rdma_prototype.Transport.Connection.{Connection}
use rdma_prototype.Shim.Objects.{Store, Domain, Eq, Endpoint, put, put-same, down}
use rdma_prototype.Shim.Closing.{retire_cq, release_endpoint, endpoint_close}
use rdma_prototype.Shim.Posting as Posting
use rdma_prototype.Shim.Lending.{Attached, Retired, retire-Attached, Attached-Frame, Retired-Frame}
use rdma_prototype.Shim.Teardown.{Closes, DomainAt, EqAt}

-- The handles of a connection that is set up: none is null, and the slots share nothing.
pub record Distinct (c : Connection) : Type 0 where
  pub ep : c.ep ≢ null
  pub eq : c.eq ≢ null
  pub domain : c.domain ≢ null
  pub tx_cq : c.tx_cq ≢ null
  pub rx_cq : c.rx_cq ≢ null
  pub tx_mr : c.tx.mr ≢ null
  pub tx_op : c.tx.op ≢ null
  pub rx_mr : c.rx.mr ≢ null
  pub rx_op : c.rx.op ≢ null
  pub cqs : c.tx_cq ≢ c.rx_cq
  pub mrs : c.tx.mr ≢ c.rx.mr
  pub ops : c.tx.op ≢ c.rx.op

-- The connection's objects in the shim's memory, as `initialize` opens them: the domain is the parent
-- of the endpoint, two queues and two registrations, and the endpoint uses the event queue. Each
-- slot has at most its own operation in flight.
pub record Wired {L : Libfabric} (c : Connection) (s : Store L) : Type 0 where
  pub endpoint : Endpoint
  pub there : s.endpoints c.ep ≡ some endpoint
  pub its_tx : endpoint.tx ≡ c.tx_cq
  pub its_rx : endpoint.rx ≡ c.rx_cq
  pub its_eq : endpoint.eq ≡ c.eq
  pub its_domain : endpoint.domain ≡ c.domain
  pub tx : Attached c.domain c.tx_cq c.tx.mr c.tx.op s
  pub rx : Attached c.domain c.rx_cq c.rx.mr c.rx.op s
  pub domain : DomainAt c.domain 5 s
  pub eq : EqAt c.eq 1 s

module _ {L : Libfabric} (closes : Closes L) where
  -- Once both queues are retired.
  release_endpoint-retired :
      (ep tx rx eq domain : Ptr) (e : Endpoint) (q : Eq) (d : Domain) (s t u : Store L)
      → e.tx ≡ tx
      → e.rx ≡ rx
      → e.eq ≡ eq
      → e.domain ≡ domain
      → retire_cq L tx s ≡ (ok tt, t)
      → retire_cq L rx t ≡ (ok tt, u)
      → u.eqs eq ≡ some q
      → u.domains domain ≡ some d
      → release_endpoint L ep e s ≡ (
        ok tt,
        record u {
          eqs = put eq (some (record q { users = down q.users })) u.eqs;
          domains = put domain (some (record d { children = down d.children })) u.domains;
          endpoints = put ep none u.endpoints;
        },
      )
  unfolding release_endpoint
  release_endpoint-retired ep tx rx eq domain e q d s t u htx hrx heq hdomain ht hu hq hd =
      rw (htx, hrx, heq, hdomain) (rw ht (rw hu (rw hq (rw hd refl))))

  endpoint_close-released :
      (ep : Ptr) (e : Endpoint) (s t : Store L)
      → ep ≢ null
      → s.endpoints ep ≡ some e
      → release_endpoint L ep
          (record e { closing = true })
          (record s {
            world = (L.call (fi_close e.raw) s.world).1;
            endpoints = put ep (some (record e { closing = true })) s.endpoints;
          })
        ≡ (ok tt, t)
      → endpoint_close L ep s ≡ (ok (pos 0), t)
  unfolding endpoint_close
  endpoint_close-released ep e s t nep he ht = ground (arith, closes e.raw s.world)

  pub endpoint_close-Wired :
      (c : Connection) (s : Store L)
      → Distinct c
      → Wired c s
      → (t : Store L) × (endpoint_close L c.ep s ≡ (ok (pos 0), t))
        × (Retired c.domain c.tx_cq c.tx.mr c.tx.op t
            × Retired c.domain c.rx_cq c.rx.mr c.rx.op t
            × DomainAt c.domain 4 t
            × EqAt c.eq 0 t)
  endpoint_close-Wired c s names wired =
      let e = wired.endpoint in
      let closed : Store L = record s {
        world = (L.call (fi_close e.raw) s.world).1;
        endpoints = put c.ep (some (record e { closing = true })) s.endpoints;
      } in
      let (t, ht, tx, frame_tx, still_tx) =
        retire-Attached c.domain c.tx_cq c.tx.mr c.tx.op closed names.tx_op names.tx_mr wired.tx in
      let rx_yet =
        Attached-Frame c.domain c.rx_cq c.rx.mr c.rx.op c.tx_cq c.tx.mr c.tx.op closed t
          (λ h. names.cqs (sym h)) (λ h. names.mrs (sym h)) (λ h. names.ops (sym h)) frame_tx
          wired.rx in
      let (u, hu, rx, frame_rx, still_rx) =
        retire-Attached c.domain c.rx_cq c.rx.mr c.rx.op t names.rx_op names.rx_mr rx_yet in
      let tx_still =
        Retired-Frame c.domain c.tx_cq c.tx.mr c.tx.op c.rx_cq c.rx.mr c.rx.op t u names.cqs
          names.mrs names.ops frame_rx tx in
      let (d, f, hd, hf, five) = wired.domain in
      let (q, g, hq, hg, one) = wired.eq in
      let te : u.eqs ≡ s.eqs = still_rx.2 ∙ still_tx.2 in
      let td : u.domains ≡ s.domains = still_rx.1 ∙ still_tx.1 in
      let tf : u.fabrics ≡ s.fabrics = still_rx.0 ∙ still_tx.0 in
      (
        record u {
          eqs = put c.eq (some (record q { users = down q.users })) u.eqs;
          domains = put c.domain (some (record d { children = down d.children })) u.domains;
          endpoints = put c.ep none u.endpoints;
        },
        endpoint_close-released c.ep e s _ names.ep wired.there (
            release_endpoint-retired c.ep c.tx_cq c.rx_cq c.eq c.domain
              (record e { closing = true }) q d closed t u wired.its_tx wired.its_rx wired.its_eq
              wired.its_domain ht hu (rw te hq) (rw td hd)),
        (
          tx_still,
          rx,
          (
            record d { children = down d.children },
            f,
            put-same c.domain (some (record d { children = down d.children })) u.domains,
            rw tf hf,
            ground (arith, five),
          ),
          (
            record q { users = down q.users },
            g,
            put-same c.eq (some (record q { users = down q.users })) u.eqs,
            rw tf hg,
            ground (arith, one),
          ),
        ),
      )

-- The advisory shutdown leaves the objects as they are, but for the state of the endpoint.
pub shutdown-Wired :
    {L : Libfabric} (c : Connection) (s : Store L)
    → c.ep ≢ null
    → Wired c s
    → (code : ℤ) × (t : Store L) × (Posting.shutdown L c.ep s ≡ (ok code, t)) × Wired c t
unfolding Posting.shutdown
shutdown-Wired {L} c s live w =
    let e = w.endpoint in
    let there = w.there in
    elim (Bool-cases e.ready) [
      | inl ready ↦ (
        (L.call (fi_shutdown e.raw) s.world).0,
        record s {
          world = (L.call (fi_shutdown e.raw) s.world).1;
          endpoints = put c.ep (some (record e { closing = true })) s.endpoints;
        },
        ground (arith, ready, there, live),
        record {
          endpoint = record e { closing = true };
          there = put-same c.ep (some (record e { closing = true })) s.endpoints;
          its_tx = w.its_tx;
          its_rx = w.its_rx;
          its_eq = w.its_eq;
          its_domain = w.its_domain;
          tx = w.tx;
          rx = w.rx;
          domain = w.domain;
          eq = w.eq;
        },
      )
      | inr unready ↦ (L.code einval, s, ground (arith, unready, there, live), w)
    ]
