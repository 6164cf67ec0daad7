-- ===== src/Shim/Info/Consuming.antt =====
-- naive/fabric_shim.c: `shim_reject` consumes its request.
use rdma_prototype.Base.{refl, ◌≡◌, ◌≢◌, true, some, arith}
use rdma_prototype.Outcome.{ok}
use rdma_prototype.Ffi.{Ptr, null}
use rdma_prototype.Libfabric.{FiInfo, Libfabric, einval, fi_reject}
use rdma_prototype.Shim.Objects.{Store, Listener, put, put-same}
use rdma_prototype.Shim.Connecting.{reject}

module _ {L : Libfabric} (listener info : Ptr) (l : Listener) (i : FiInfo) (s : Store L) where
  abbrev consumed : Store L
  consumed = record s {
    world = (L.call (fi_reject l.raw i.handle) s.world).1;
    infos = put info (some (record i { handle = null })) s.infos;
  }

  reject_first :
      s.listeners listener ≡ some l
      → s.infos info ≡ some i
      → listener ≢ null
      → info ≢ null
      → l.ready ≡ true
      → i.handle ≢ null
      → reject L listener info s ≡ (ok (L.call (fi_reject l.raw i.handle) s.world).0, consumed)
  unfolding reject
  reject_first hl hi nl ni ready fresh = ground arith

-- A request without its handle.
reject_consumed :
    {L : Libfabric} (listener info : Ptr) (l : Listener) (i : FiInfo) (t : Store L)
    → t.listeners listener ≡ some l
    → t.infos info ≡ some i
    → listener ≢ null
    → i.handle ≡ null
    → reject L listener info t ≡ (ok (L.code einval), t)
unfolding reject
reject_consumed listener info l i t hl hi nl gone = ground arith

-- A rejection of a request that waits, by a listener that is ready, answers what libfabric answers; and
-- whatever that is, a second rejection of the request answers -FI_EINVAL and changes nothing.
pub reject-reject :
    {L : Libfabric} (listener info : Ptr) (l : Listener) (i : FiInfo) (s : Store L)
    → s.listeners listener ≡ some l
    → s.infos info ≡ some i
    → listener ≢ null
    → info ≢ null
    → l.ready ≡ true
    → i.handle ≢ null
    → (t : Store L) × (reject L listener info s
        ≡ (ok (L.call (fi_reject l.raw i.handle) s.world).0, t))
      × (reject L listener info t ≡ (ok (L.code einval), t))
reject-reject listener info l i s hl hi nl ni ready fresh = (
  consumed listener info l i s,
  reject_first listener info l i s hl hi nl ni ready fresh,
  reject_consumed listener info l (record i { handle = null }) (consumed listener info l i s) hl
      (put-same info (some (record i { handle = null })) s.infos) nl refl,
)
