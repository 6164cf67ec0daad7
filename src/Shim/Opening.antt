-- ===== src/Shim/Opening.antt =====
-- naive/fabric_shim.c: the functions that open an object of a connection. Each answers its code and what
-- it leaves in `*out`; `out` itself is not NULL, as in every call of the transport.
use rdma_prototype.Base.{ℕ, ℤ, pos, true, false, not, ◌||◌, is_zero, ◌==◌, ◌/◌, if◌then◌else◌}
use rdma_prototype.Ffi.{Ptr, null}
use rdma_prototype.Machine.{Exec, pure, ◌>>=◌, ◌>>◌}
use rdma_prototype.Libfabric.{
  Libfabric, FiInfo, Errno, einval, enomem, enosys, plain, transmit, recv, fi_fabric, fi_domain,
  fi_endpoint, fi_eq_open, fi_cq_open, fi_mr_reg, fi_ep_bind, fi_enable,
}
use rdma_prototype.Shim.Objects.{
  Store, Domain, Cq, up, infos, fabrics, domains, eqs, cqs, endpoints, mrs, ops, at, change, insert,
  calloc, do_raw, do_call,
}
use rdma_prototype.Shim.Closing.{endpoint_close}

module _ (L : Libfabric) where
  -- A failure that leaves `*out` NULL.
  abbrev pub refuse : Errno → Exec (Store L) (ℤ × Ptr)
  refuse e = pure (L.code e, null)

  unfoldable pub fabric_open : (info : Ptr) → Exec (Store L) (ℤ × Ptr)
  fabric_open info = if info == null then refuse einval else do
    i ← at L (infos L) info
    obj ← calloc L
    if obj == null then refuse enomem else do
      made ← do_raw L (fi_fabric i.raw)
      if not (is_zero made.0) then pure (made.0, null) else do
        insert L (fabrics L) obj (record { raw = made.1; children = 0 })
        pure (pos 0, obj)

  unfoldable pub domain_open : (fabric info : Ptr) → Exec (Store L) (ℤ × Ptr)
  domain_open fabric info = if fabric == null || info == null then refuse einval else do
    obj ← calloc L
    if obj == null then refuse enomem else do
      f ← at L (fabrics L) fabric
      i ← at L (infos L) info
      made ← do_raw L (fi_domain f.raw i.raw)
      if not (is_zero made.0) then pure (made.0, null) else do
        insert L (domains L) obj (record { raw = made.1; fabric = fabric; children = 0 })
        change L (fabrics L) fabric (λ f. record f { children = up f.children })
        pure (pos 0, obj)

  unfoldable pub eq_open : (fabric : Ptr) → Exec (Store L) (ℤ × Ptr)
  eq_open fabric = if fabric == null then refuse einval else do
    obj ← calloc L
    if obj == null then refuse enomem else do
      f ← at L (fabrics L) fabric
      made ← do_raw L (fi_eq_open f.raw)
      if not (is_zero made.0) then pure (made.0, null) else do
        insert L (eqs L) obj (record { raw = made.1; fabric = fabric; users = 0 })
        change L (fabrics L) fabric (λ f. record f { children = up f.children })
        pure (pos 0, obj)

  unfoldable pub cq_open : (domain capacity : ℕ) → Exec (Store L) (ℤ × Ptr)
  cq_open domain capacity = if domain == null || capacity == 0 then refuse einval else do
    obj ← calloc L
    if obj == null then refuse enomem else do
      d ← at L (domains L) domain
      made ← do_raw L (fi_cq_open d.raw capacity)
      if not (is_zero made.0) then pure (made.0, null) else do
        insert L (cqs L) obj (record {
          raw = made.1;
          domain = domain;
          pending = null;
          capacity = capacity;
          count = 0;
          used = false;
          attached = false;
          retired = false;
        })
        change L (domains L) domain (λ d. record d { children = up d.children })
        pure (pos 0, obj)

  -- `access & ~(SHIM_ACCESS_SEND | SHIM_ACCESS_RECV)`
  unfoldable pub mr_register : (domain buf capacity access : ℕ) → Exec (Store L) (ℤ × Ptr)
  mr_register domain buf capacity access =
      if domain == null || buf == null || capacity == 0 || access == 0 || not (access / 4 == 0)
      then refuse einval
      else do
        obj ← calloc L
        if obj == null then refuse enomem else do
          d ← at L (domains L) domain
          made ← do_raw L (fi_mr_reg d.raw buf capacity access)
          if not (is_zero made.0) then pure (made.0, null) else do
            insert L (mrs L) obj (record {
              raw = made.1;
              domain = domain;
              buffer = buf;
              capacity = capacity;
              pending = 0;
              access = access;
            })
            change L (domains L) domain (λ d. record d { children = up d.children })
            pure (pos 0, obj)

  unfoldable pub op_create : (id : ℕ) → Exec (Store L) (ℤ × Ptr)
  op_create id = do
    obj ← calloc L
    if obj == null then refuse enomem else do
      insert L (ops L) obj
          (record { id = id; direction = 0; len = 0; cq = null; mr = null; next = null })
      pure (pos 0, obj)

  -- A call that is made if those before it answered 0.
  abbrev pub then_call : ℤ → Exec (Store L) ℤ → Exec (Store L) ℤ
  then_call ret next = if is_zero ret then next else pure ret

  -- The binds of a new endpoint.
  unfoldable pub bind_endpoint : (ep_raw eq tx rx : Ptr) → Exec (Store L) ℤ
  bind_endpoint ep_raw eq tx rx = do
    q ← at L (eqs L) eq
    ret ← do_call L (fi_ep_bind ep_raw q.raw plain)
    t ← at L (cqs L) tx
    ret ← then_call ret (do_call L (fi_ep_bind ep_raw t.raw transmit))
    r ← at L (cqs L) rx
    ret ← then_call ret (do_call L (fi_ep_bind ep_raw r.raw recv))
    then_call ret (do_call L (fi_enable ep_raw))

  -- `tx->used = tx->attached = 1`
  abbrev pub take_queue : Cq → Cq
  take_queue q = record q { used = true; attached = true }

  -- A new endpoint's references.
  unfoldable pub attach : (obj raw domain eq tx rx max_msg : ℕ) → Exec (Store L) Unit
  attach obj raw domain eq tx rx max_msg = do
    insert L (endpoints L) obj (record {
      raw = raw;
      domain = domain;
      eq = eq;
      tx = tx;
      rx = rx;
      max_msg = max_msg;
      ready = false;
      closing = false;
    })
    change L (domains L) domain (λ d. record d { children = up d.children })
    change L (eqs L) eq (λ q. record q { users = up q.users })
    change L (cqs L) tx take_queue
    change L (cqs L) rx take_queue

  -- After the binds: a failure closes the endpoint, except that of a request, which the caller has to
  -- reject first.
  unfoldable pub enabled : (ret : ℤ) → (obj handle : Ptr) → Exec (Store L) (ℤ × Ptr)
  enabled ret obj handle =
      if is_zero ret
      then (do change L (endpoints L) obj (λ e. record e { ready = true }); pure (pos 0, obj))
      else if not (handle == null)
      then pure (ret, obj)
      else do closed ← endpoint_close L obj; pure (ret, (if is_zero closed then null else obj))

  -- From the allocation on.
  unfoldable pub make_endpoint :
      Domain → FiInfo → (domain eq tx rx : Ptr) → Exec (Store L) (ℤ × Ptr)
  make_endpoint d i domain eq tx rx = do
    obj ← calloc L
    if obj == null then refuse enomem else do
      made ← do_raw L (fi_endpoint d.raw i.raw)
      if not (is_zero made.0) then pure (made.0, null) else do
        attach obj made.1 domain eq tx rx i.max_msg_size
        ret ← bind_endpoint made.1 eq tx rx
        enabled ret obj i.handle

  -- The objects of the first test are read before it; the C code reads no further after a mismatch.
  unfoldable pub endpoint_open : (domain info eq tx rx : Ptr) → Exec (Store L) (ℤ × Ptr)
  endpoint_open domain info eq tx rx =
      if domain == null || info == null || eq == null || tx == null || rx == null || tx == rx
      then refuse einval
      else do
        t ← at L (cqs L) tx
        r ← at L (cqs L) rx
        q ← at L (eqs L) eq
        d ← at L (domains L) domain
        if not (t.domain == domain)
              || not (r.domain == domain)
              || not (q.fabric == d.fabric)
              || t.used
              || r.used
            then refuse einval
            else do
              i ← at L (infos L) info
              if i.unsupported || not (i.tx_op_flags == 0) || not (i.rx_op_flags == 0)
                  then refuse enosys
                  else make_endpoint d i domain eq tx rx
