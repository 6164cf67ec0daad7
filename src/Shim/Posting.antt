-- ===== src/Shim/Posting.antt =====
-- naive/fabric_shim.c: `post_message`, which submits a send or a receive, and `shim_shutdown`.
use rdma_prototype.Base.{
  ℕ, ◌-◌, ◌/◌, ◌%◌, ℤ, pos, Bool, true, false, not, ◌||◌, is_zero, ◌==◌, ltb, leb, if◌then◌else◌,
}
use rdma_prototype.Ffi.{Ptr, null, access_send, access_recv, completion_send, completion_recv}
use rdma_prototype.Machine.{Exec, pure, ◌>>=◌, ◌>>◌}
use rdma_prototype.Libfabric.{
  Libfabric, einval, ebusy, eacces, eagain, fi_send, fi_recv, fi_shutdown,
}
use rdma_prototype.Shim.Objects.{
  Store, Endpoint, Mr, up, cqs, endpoints, mrs, ops, at, change, do_call, errno,
}

-- `mr->access & access`, for the one bit of `access`
abbrev pub allows : Mr → Bool → Bool
allows m receive =
    if receive then m.access / access_recv % 2 == 1 else m.access / access_send % 2 == 1

-- The message lies in the registered buffer, and the endpoint can carry it.
unfoldable pub outside : Mr → ℕ → Ptr → ℕ → Bool
outside m max_msg address len =
    ltb address m.buffer
    || ltb m.capacity (address - m.buffer)
    || ltb (m.capacity - (address - m.buffer)) len
    || ltb max_msg len

module _ (L : Libfabric) where
  -- What a successful submission writes: the operation is the newest of its queue.
  unfoldable pub pend : (cq mr op len : ℕ) → Bool → Exec (Store L) Unit
  pend cq mr op len receive = do
    q ← at L (cqs L) cq
    change L (ops L) op (λ o. record o {
      direction = if receive then completion_recv else completion_send;
      len = len;
      mr = mr;
      cq = cq;
      next = q.pending;
    })
    change L (cqs L) cq (λ q. record q { pending = op; count = up q.count })
    change L (mrs L) mr (λ m. record m { pending = up m.pending })

  -- The submission, once its arguments are checked.
  unfoldable pub submit : Endpoint → Mr → (mr op len buf : ℕ) → Bool → Exec (Store L) ℤ
  submit e m mr op len buf receive = do
    let cq = if receive then e.rx else e.tx
    q ← at L (cqs L) cq
    if leb q.capacity q.count then errno L eagain else do
      ret ←
          do_call L
            (if receive then fi_recv e.raw buf len m.raw op else fi_send e.raw buf len m.raw op)
      if not (is_zero ret) then pure ret else do pend cq mr op len receive; pure (pos 0)

  unfoldable pub post_message : (ep op mr len buf : ℕ) → Bool → Exec (Store L) ℤ
  post_message ep op mr len buf receive =
      if ep == null || op == null || mr == null || buf == null then errno L einval else do
        e ← at L (endpoints L) ep
        if not e.ready || e.closing then errno L einval else do
          m ← at L (mrs L) mr
          if not (m.domain == e.domain) then errno L einval else do
            o ← at L (ops L) op
            if not (o.cq == null)
                then errno L ebusy
                else if not (allows m receive)
                then errno L eacces
                else if outside m e.max_msg buf len
                then errno L einval
                else submit e m mr op len buf receive

  unfoldable pub post_send : Ptr → Ptr → Ptr → ℕ → Ptr → Exec (Store L) ℤ
  post_send ep op mr len buf = post_message ep op mr len buf false

  unfoldable pub post_recv : Ptr → Ptr → Ptr → ℕ → Ptr → Exec (Store L) ℤ
  post_recv ep op mr capacity buf = post_message ep op mr capacity buf true

  unfoldable pub shutdown : Ptr → Exec (Store L) ℤ
  shutdown ep = if ep == null then errno L einval else do
    e ← at L (endpoints L) ep
    if not e.ready then errno L einval else do
      change L (endpoints L) ep (λ e. record e { closing = true })
      do_call L (fi_shutdown e.raw)
