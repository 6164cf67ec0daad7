-- ===== src/Transport/Handle.antt =====
-- src/transport.rs: the macro `close!`, and the opens that write a handle before their check.
pub mod Plan
pub mod Safety
use rdma_prototype.Base.{String, if◌then◌else◌}
use rdma_prototype.Ffi.{Ptr, null, is_null, Open, Status}
use rdma_prototype.Machine.{
  Machine, At, Exec, pure, raise, ◌>>=◌, ◌>>◌, in_env, update, me, check, do_status, do_open,
}

module _ (M : Machine) where
  -- `close!(handle, function)`: null is skipped, and the handle is kept when the call fails.
  unfoldable pub close_handle : (Ptr → Status) → String → Exec (At M Ptr) Unit
  unfolding check
  close_handle function name = do
    handle ← me M
    if is_null handle then pure tt else do
      code ← in_env M (do_status M (function handle))
      raise (check M code name)
      update M (λ _. null)

  -- `check(unsafe { open(…, &mut self.field) }, name)?`
  unfoldable pub open_into : {T : Type 0} → (Ptr → T → T) → Open → String → Exec (At M T) Unit
  unfolding check
  open_into put function name = do
    opened ← in_env M (do_open M function)
    update M (put opened.1)
    raise (check M opened.0 name)
