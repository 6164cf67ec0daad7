-- ===== src/Transport/Request.antt =====
-- src/transport.rs: `Request`, with the fields of the `Listener` that it borrows. A borrow is
-- the borrowed value, which cannot change while the borrow lives.
use rdma_prototype.Base.{Bool, true, if◌then◌else◌}
use rdma_prototype.Ffi.{Ptr, reject as reject_call}
use rdma_prototype.Machine.{
  Machine, At, Env, Exec, pure, raise, ◌>>=◌, ◌>>◌, in_env, update, me, check, do_status, drop_by,
}
use rdma_prototype.Transport.Info
use rdma_prototype.Transport.Info.{Info}
use rdma_prototype.Transport.Fabric.{Fabric}

pub record Listener : Type 0 where
  pub fabric : Fabric
  pub eq : Ptr
  pub raw : Ptr

pub record Request : Type 0 where
  pub listener : Listener
  pub info : Info
  pub handled : Bool

module _ (M : Machine) where
  -- `handled` is set before the call, which consumes the request even when it fails.
  unfoldable pub reject : Exec (At M Request) Unit
  unfolding check
  reject = do
    r ← me M
    if r.handled then pure tt else do
      update M (λ s. record s { handled = true })
      code ← in_env M (do_status M (reject_call r.listener.raw r.info.raw))
      raise (check M code "shim_reject")

  -- `Drop::drop`, and then the drop of the field `info`.
  unfoldable pub drop : Request → Env M → Env M
  unfolding reject Info.drop
  drop r e = Info.drop M r.info (drop_by M reject r e)
