-- ===== src/Shim/Closing.antt =====
-- naive/fabric_shim.c: the functions that close an object. Success frees it and gives its references
-- back; a failure keeps it.
use rdma_prototype.Base.{ℕ, zero, suc, ℤ, pos, true, false, not, is_zero, ◌==◌, if◌then◌else◌}
use rdma_prototype.Outcome.{unfinished}
use rdma_prototype.Ffi.{Ptr, null}
use rdma_prototype.Machine.{Exec, pure, raise, ◌>>=◌, ◌>>◌}
use rdma_prototype.Libfabric.{Libfabric, ebusy, fi_close}
use rdma_prototype.Shim.Objects.{
  Store, Endpoint, down, fabrics, domains, eqs, cqs, endpoints, mrs, ops, at, change, free, do_call,
  errno,
}

module _ (L : Libfabric) where
  -- `release_op`
  unfoldable pub release_op : Ptr → Exec (Store L) Unit
  release_op op = do
    o ← at L (ops L) op
    if o.mr == null
        then pure tt
        else change L (mrs L) o.mr (λ m. record m { pending = down m.pending })
    change L (ops L) op (λ o. record o { mr = null; cq = null; next = null })

  -- The `for` loop of `retire_cq`.
  unfoldable pub release_buffers : ℕ → Ptr → Exec (Store L) Unit
  release_buffers zero op = raise unfinished
  release_buffers (suc fuel) op =
      let rest : Ptr → Exec (Store L) Unit = release_buffers fuel in
      if op == null then pure tt else do
        o ← at L (ops L) op
        if o.mr == null
            then pure tt
            else change L (mrs L) o.mr (λ m. record m { pending = down m.pending })
        change L (ops L) op (λ o. record o { mr = null })
        rest o.next

  -- `retire_cq`; a queue has `count` operations pending.
  unfoldable pub retire_cq : Ptr → Exec (Store L) Unit
  retire_cq cq = do
    change L (cqs L) cq (λ q. record q { attached = false; retired = true })
    q ← at L (cqs L) cq
    release_buffers (suc q.count) q.pending

  -- What a closed endpoint gives back.
  unfoldable pub release_endpoint : Ptr → Endpoint → Exec (Store L) Unit
  release_endpoint ep e = do
    retire_cq e.tx
    retire_cq e.rx
    change L (eqs L) e.eq (λ q. record q { users = down q.users })
    change L (domains L) e.domain (λ d. record d { children = down d.children })
    free L (endpoints L) ep

  unfoldable pub endpoint_close : Ptr → Exec (Store L) ℤ
  endpoint_close ep = if ep == null then pure (pos 0) else do
    change L (endpoints L) ep (λ e. record e { closing = true })
    e ← at L (endpoints L) ep
    ret ← do_call L (fi_close e.raw)
    if not (is_zero ret) then pure ret else do release_endpoint ep e; pure (pos 0)

  unfoldable pub mr_close : Ptr → Exec (Store L) ℤ
  mr_close mr = if mr == null then pure (pos 0) else do
    m ← at L (mrs L) mr
    if not (m.pending == 0) then errno L ebusy else do
      ret ← do_call L (fi_close m.raw)
      if not (is_zero ret) then pure ret else do
        change L (domains L) m.domain (λ d. record d { children = down d.children })
        free L (mrs L) mr
        pure (pos 0)

  -- The `while` loop of `shim_cq_close`.
  unfoldable pub release_pending : ℕ → Ptr → Exec (Store L) Unit
  release_pending zero cq = raise unfinished
  release_pending (suc fuel) cq =
      let rest : Exec (Store L) Unit = release_pending fuel cq in
      do
        q ← at L (cqs L) cq
        if q.pending == null then pure tt else do
          o ← at L (ops L) q.pending
          change L (cqs L) cq (λ q. record q { pending = o.next })
          release_op q.pending
          rest

  unfoldable pub cq_close : Ptr → Exec (Store L) ℤ
  cq_close cq = if cq == null then pure (pos 0) else do
    q ← at L (cqs L) cq
    if q.attached then errno L ebusy else do
      ret ← do_call L (fi_close q.raw)
      if not (is_zero ret) then pure ret else do
        release_pending (suc q.count) cq
        change L (domains L) q.domain (λ d. record d { children = down d.children })
        free L (cqs L) cq
        pure (pos 0)

  unfoldable pub eq_close : Ptr → Exec (Store L) ℤ
  eq_close eq = if eq == null then pure (pos 0) else do
    q ← at L (eqs L) eq
    if not (q.users == 0) then errno L ebusy else do
      ret ← do_call L (fi_close q.raw)
      if not (is_zero ret) then pure ret else do
        change L (fabrics L) q.fabric (λ f. record f { children = down f.children })
        free L (eqs L) eq
        pure (pos 0)

  unfoldable pub domain_close : Ptr → Exec (Store L) ℤ
  domain_close domain = if domain == null then pure (pos 0) else do
    d ← at L (domains L) domain
    if not (d.children == 0) then errno L ebusy else do
      ret ← do_call L (fi_close d.raw)
      if not (is_zero ret) then pure ret else do
        change L (fabrics L) d.fabric (λ f. record f { children = down f.children })
        free L (domains L) domain
        pure (pos 0)

  unfoldable pub fabric_close : Ptr → Exec (Store L) ℤ
  fabric_close fabric = if fabric == null then pure (pos 0) else do
    f ← at L (fabrics L) fabric
    if not (f.children == 0) then errno L ebusy else do
      ret ← do_call L (fi_close f.raw)
      if not (is_zero ret) then pure ret else do free L (fabrics L) fabric; pure (pos 0)

  unfoldable pub op_free : Ptr → Exec (Store L) ℤ
  op_free op = if op == null then pure (pos 0) else do
    o ← at L (ops L) op
    if not (o.cq == null) then errno L ebusy else do free L (ops L) op; pure (pos 0)
