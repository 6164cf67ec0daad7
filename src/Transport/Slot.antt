-- ===== src/Transport/Slot.antt =====
-- src/transport.rs: `Slot`.
pub mod Teardown
use rdma_prototype.Base.{ℕ, Bool, false, Option, none, some}
use rdma_prototype.Ffi.{Ptr, null, op_free, mr_close}
use rdma_prototype.Machine.{
  Machine, At, Env, Exec, pure, ◌>>=◌, ◌>>◌, in_env, zoom, update, me, do_allocate, do_release,
}
use rdma_prototype.Transport.Handle.{close_handle}

abbrev pub buffer_size : ℕ
buffer_size = 64

-- `Box<[u8]>`: the address and the length; the bytes are in the machine's memory.
pub record Bytes : Type 0 where
  pub ptr : Ptr
  pub len : ℕ

pub record Slot : Type 0 where
  pub bytes : Option Bytes
  pub mr : Ptr
  pub op : Ptr
  pub pending : Bool

module _ (M : Machine) where
  -- `Slot::empty`
  unfoldable pub empty : Exec (Env M) Slot
  empty = do
    p ← do_allocate M buffer_size
    pure (record {
      bytes = some (record { ptr = p; len = buffer_size });
      mr = null;
      op = null;
      pending = false;
    })

  -- The drop of an `Option<Box<[u8]>>`.
  unfoldable pub drop_bytes : Option Bytes → Exec (Env M) Unit
  drop_bytes none = pure tt
  drop_bytes (some b) = do_release M b.ptr

  -- `self.bytes = None; self.pending = false;`
  unfoldable pub clear : Exec (At M Slot) Unit
  unfolding drop_bytes
  clear = do
    slot ← me M
    in_env M (drop_bytes slot.bytes)
    update M (λ s. record s { bytes = none; pending = false })

  unfoldable pub free_op : Exec (At M Slot) Unit
  unfolding close_handle
  free_op = zoom M (λ s. s.op) (λ p s. record s { op = p }) (close_handle M op_free "shim_op_free")

  unfoldable pub close_mr : Exec (At M Slot) Unit
  unfolding close_handle
  close_mr =
      zoom M (λ s. s.mr) (λ p s. record s { mr = p }) (close_handle M mr_close "shim_mr_close")

  -- `Slot::close`
  unfoldable pub close : Exec (At M Slot) Unit
  unfolding free_op close_mr clear
  close = do free_op; close_mr; clear
