-- ===== src/Shim/Sync/Aside.antt =====
-- naive/fabric_shim.c: calls of a connection that leave the objects of its slots alone.
use rdma_prototype.Base.{◌+◌, ◌≡◌, some, none, arith, Option}
use rdma_prototype.Outcome.{Outcome, ok, err, panic, unfinished}
use rdma_prototype.Ffi.{Ptr, ConnectEvent}
use rdma_prototype.Libfabric.{
  Libfabric, FiInfo, EqEvent, fi_connreq, fi_connected, fi_shutdown_event, fi_other_event,
}
use rdma_prototype.Shim.Objects.{Store, Eq, Endpoint}
use rdma_prototype.Shim.Connecting.{connect, accept}
use rdma_prototype.Shim.Listening.{eq_poll, received_event, failed_event, source_of, no_event}
use rdma_prototype.Shim.Lending.{Still}

-- The call returns without undefined behaviour, and no object of a slot or of a connection changes.
abbrev pub LeavesAside : {A : Type 0} {L : Libfabric} → Store L → Outcome A × Store L → Type 0
LeavesAside s (ok a, t) = (t.cqs ≡ s.cqs) × (t.mrs ≡ s.mrs) × (t.ops ≡ s.ops) × Still s t
LeavesAside s (err e, t) = ⊥
LeavesAside s (panic, t) = ⊥
LeavesAside s (unfinished, t) = ⊥

module _ {L : Libfabric} where
  received_event-LeavesAside :
      (request : Ptr) (event : EqEvent) (info : Option FiInfo) (out : ConnectEvent) (s : Store L)
      → LeavesAside s (received_event L request event info out s)
  unfolding received_event
  received_event-LeavesAside request fi_connreq none out s = ground arith
  received_event-LeavesAside request fi_connreq (some info) out s = ground arith
  received_event-LeavesAside request fi_connected none out s = ground arith
  received_event-LeavesAside request fi_connected (some info) out s = ground arith
  received_event-LeavesAside request fi_shutdown_event none out s = ground arith
  received_event-LeavesAside request fi_shutdown_event (some info) out s = ground arith
  received_event-LeavesAside request fi_other_event none out s = ground arith
  received_event-LeavesAside request fi_other_event (some info) out s = ground arith

  failed_event-LeavesAside : (raw : Ptr) (s : Store L) → LeavesAside s (failed_event L raw s)
  unfolding failed_event
  failed_event-LeavesAside raw s = ground arith

  pub eq_poll-LeavesAside :
      (eq : Ptr) (q : Eq) (s : Store L) → s.eqs eq ≡ some q → LeavesAside s (eq_poll L eq s)
  unfolding eq_poll
  eq_poll-LeavesAside eq q s hq =
      let opened : Store L = record s { world = (L.has_memory s.world).1; next = s.next + 1 } in
      let read = L.eq_read q.raw (L.has_memory s.world).1 in
      let polled : Store L = record opened { world = read.3 } in
      ground (
        arith,
        failed_event-LeavesAside q.raw polled,
        received_event-LeavesAside s.next read.1 read.2.info
            (record no_event { source = source_of read.2.context }) polled,
      )

  pub connect-LeavesAside :
      (ep info : Ptr) (e : Endpoint) (i : FiInfo) (s : Store L)
      → s.endpoints ep ≡ some e
      → s.infos info ≡ some i
      → LeavesAside s (connect L ep info s)
  unfolding connect
  connect-LeavesAside ep info e i s he hi = ground arith

  pub accept-LeavesAside :
      (ep : Ptr) (e : Endpoint) (s : Store L)
      → s.endpoints ep ≡ some e
      → LeavesAside s (accept L ep s)
  unfolding accept
  accept-LeavesAside ep e s he = ground arith
