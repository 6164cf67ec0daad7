-- ===== src/Shim/Connecting.antt =====
-- naive/fabric_shim.c: the listener, and the calls that make or refuse a connection.
use rdma_prototype.Base.{ℤ, pos, true, false, not, ◌||◌, is_zero, ◌==◌, if◌then◌else◌}
use rdma_prototype.Ffi.{Ptr, null}
use rdma_prototype.Machine.{Exec, pure, ◌>>=◌, ◌>>◌}
use rdma_prototype.Libfabric.{
  Libfabric, einval, enomem, fi_passive_ep, fi_pep_bind, fi_listen, fi_reject, fi_connect,
  fi_accept, fi_close,
}
use rdma_prototype.Shim.Objects.{
  Store, up, down, infos, fabrics, eqs, listeners, endpoints, at, change, insert, free, calloc,
  do_raw, do_call, errno,
}
use rdma_prototype.Shim.Opening.{refuse, then_call}

module _ (L : Libfabric) where
  unfoldable pub listener_close : Ptr → Exec (Store L) ℤ
  listener_close listener = if listener == null then pure (pos 0) else do
    l ← at L (listeners L) listener
    ret ← do_call L (fi_close l.raw)
    if not (is_zero ret) then pure ret else do
      change L (eqs L) l.eq (λ q. record q { users = down q.users })
      change L (fabrics L) l.fabric (λ f. record f { children = down f.children })
      free L (listeners L) listener
      pure (pos 0)

  -- After the bind and the listen: a failure closes the listener, and keeps it if that fails.
  unfoldable pub listening : (ret : ℤ) → (obj : Ptr) → Exec (Store L) (ℤ × Ptr)
  listening ret obj =
      if is_zero ret
      then (do change L (listeners L) obj (λ l. record l { ready = true }); pure (pos 0, obj))
      else do closed ← listener_close obj; pure (ret, (if is_zero closed then null else obj))

  unfoldable pub listener_open : (fabric info eq : Ptr) → Exec (Store L) (ℤ × Ptr)
  listener_open fabric info eq =
      if fabric == null || info == null || eq == null then refuse L einval else do
        q ← at L (eqs L) eq
        if not (q.fabric == fabric) then refuse L einval else do
          obj ← calloc L
          if obj == null then refuse L enomem else do
            f ← at L (fabrics L) fabric
            i ← at L (infos L) info
            made ← do_raw L (fi_passive_ep f.raw i.raw)
            if not (is_zero made.0) then pure (made.0, null) else do
              insert L (listeners L) obj
                  (record { raw = made.1; fabric = fabric; eq = eq; ready = false })
              change L (fabrics L) fabric (λ f. record f { children = up f.children })
              change L (eqs L) eq (λ q. record q { users = up q.users })
              ret ← do_call L (fi_pep_bind made.1 q.raw)
              ret ← then_call L ret (do_call L (fi_listen made.1))
              listening ret obj

  unfoldable pub connect : (ep info : Ptr) → Exec (Store L) ℤ
  connect ep info = if ep == null then errno L einval else do
    e ← at L (endpoints L) ep
    if not e.ready || e.closing || info == null then errno L einval else do
      i ← at L (infos L) info
      if i.dest_addr == null then errno L einval else do_call L (fi_connect e.raw i.dest_addr)

  unfoldable pub accept : (ep : Ptr) → Exec (Store L) ℤ
  accept ep = if ep == null then errno L einval else do
    e ← at L (endpoints L) ep
    if not e.ready || e.closing then errno L einval else do_call L (fi_accept e.raw)

  -- The request is gone even when its rejection fails.
  unfoldable pub reject : (listener info : Ptr) → Exec (Store L) ℤ
  reject listener info = if listener == null then errno L einval else do
    l ← at L (listeners L) listener
    if not l.ready || info == null then errno L einval else do
      i ← at L (infos L) info
      if i.handle == null then errno L einval else do
        ret ← do_call L (fi_reject l.raw i.handle)
        change L (infos L) info (λ i. record i { handle = null })
        pure ret
