-- ===== src/Shim/Polling.antt =====
-- naive/fabric_shim.c: `shim_cq_poll`.
use rdma_prototype.Base.{
  ℕ, zero, suc, ℤ, pos, negsuc, Bool, false, List, [], none, some, not, ◌||◌, is_zero, is_negative,
  ◌==◌, take, if◌then◌else◌,
}
use rdma_prototype.Outcome.{unfinished}
use rdma_prototype.Ffi.{Ptr, null, Completion, completion_send}
use rdma_prototype.Machine.{Exec, pure, raise, ◌>>=◌, ◌>>◌}
use rdma_prototype.Libfabric.{Libfabric, CqError, einval, eagain, eavail, eio, eopbadstate}
use rdma_prototype.Shim.Objects.{Store, Op, down, cqs, ops, at, change, do_cq_read, do_cq_readerr}
use rdma_prototype.Shim.Closing.{release_op}

-- `memset(out, 0, sizeof(*out))`
abbrev pub blank : Completion
blank = record { op_id = 0; flags = 0; len = 0; err = pos 0; prov_err = pos 0; message = [] }

-- `ret == -FI_…`
abbrev pub same_code : ℤ → ℤ → Bool
same_code (pos m) (pos n) = m == n
same_code (negsuc m) (negsuc n) = m == n
same_code _ _ = false

-- What the poll reports of an operation: an error has no length, and a send has its own.
unfoldable pub report : Op → Completion → Completion
report o out = record out {
  op_id = o.id;
  flags = o.direction;
  len =
      if not (is_zero out.err)
      then 0
      else if o.direction == completion_send
      then o.len
      else out.len;
}

module _ (L : Libfabric) where
  -- The walk `while (*link != NULL && &(*link)->context != context)`: the link that is left, as the
  -- operation that holds it, or null for the queue's, and the operation behind it.
  unfoldable pub find : ℕ → (holder op context : Ptr) → Exec (Store L) (Ptr × Ptr)
  find zero holder op context = raise unfinished
  find (suc fuel) holder op context =
      let rest : Ptr → Exec (Store L) (Ptr × Ptr) = λ next. find fuel op next context in
      if op == null || op == context then pure (holder, op) else do o ← at L (ops L) op; rest o.next

  -- `*link = op->next`
  unfoldable pub unlink : (cq holder next : Ptr) → Exec (Store L) Unit
  unlink cq holder next =
      if holder == null
      then change L (cqs L) cq (λ q. record q { pending = next })
      else change L (ops L) holder (λ o. record o { next = next })

  -- From the context of a completion on.
  unfoldable pub reported : (cq context : Ptr) → Completion → Exec (Store L) (ℤ × Completion)
  reported cq context out = do
    q ← at L (cqs L) cq
    link ← find (suc q.count) null q.pending context
    if link.1 == null then pure (L.code eio, out) else do
      o ← at L (ops L) link.1
      unlink cq link.0 o.next
      change L (cqs L) cq (λ q. record q { count = down q.count })
      release_op L link.1
      pure (pos 1, report o out)

  -- The text of an error, cut to the size of the buffer.
  abbrev pub error_message : Ptr → CqError → List ℕ
  error_message raw error = elim (L.cq_strerror raw error.prov_errno) [
    | none ↦ take 255 (L.strerror error.err)
    | some text ↦ take 255 text
  ]

  unfoldable pub cq_poll : Ptr → Exec (Store L) (ℤ × Completion)
  cq_poll cq = if cq == null then pure (L.code einval, blank) else do
    q ← at L (cqs L) cq
    if q.retired then pure (L.code eopbadstate, blank) else do
      read ← do_cq_read L q.raw
      let ret = read.0
      if same_code ret (L.code eavail)
          then (do
            failed ← do_cq_readerr L q.raw
            let code = failed.0
            let error = failed.1
            if same_code code (L.code eagain) || is_zero code
                then pure (pos 0, blank)
                else if is_negative code
                then pure (code, blank)
                else reported cq error.op_context (record blank {
                  err = error.err;
                  prov_err = error.prov_errno;
                  message = error_message q.raw error;
                }))
          else if same_code ret (L.code eagain) || is_zero ret
          then pure (pos 0, blank)
          else if is_negative ret
          then pure (ret, blank)
          else reported cq read.1 (record blank { len = read.2 })
