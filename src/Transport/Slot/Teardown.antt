-- ===== src/Transport/Slot/Teardown.antt =====
-- What `Slot::close` does: the operation, then the registration, then the buffer.
use rdma_prototype.Base.{refl, List, [], ◌∷◌, ◌++◌, Option, none, some, arith}
use rdma_prototype.Ffi.{op_free, mr_close}
use rdma_prototype.Machine.{Machine, ◌>>◌}
use rdma_prototype.Transport.Handle.{close_handle}
use rdma_prototype.Transport.Handle.Plan.{
  Step, free, closing, Closes, Keeps, Closes-close_handle, Closes-zoom, Keeps-seq, Closes-seq,
}
use rdma_prototype.Transport.Slot.{Bytes, Slot, clear, free_op, close_mr, close}

abbrev pub freeing : Option Bytes → List Step
freeing none = []
freeing (some b) = free b.ptr ∷ []

-- What a slot owes: its memory is released after its registration is closed.
abbrev pub slot_plan : Slot → List Step
slot_plan s = closing op_free s.op ++ (closing mr_close s.mr ++ freeing s.bytes)

module _ (M : Machine) where
  Closes-clear : Closes M (λ s. freeing s.bytes) (clear M)
  unfolding clear
  Closes-clear = record { at = λ s. ground arith }

  Keeps-clear_mr : Keeps M (λ s. closing mr_close s.mr) (clear M)
  unfolding clear
  Keeps-clear_mr = record { at = λ s. ground arith }

  Keeps-clear_op : Keeps M (λ s. closing op_free s.op) (clear M)
  unfolding clear
  Keeps-clear_op = record { at = λ s. ground arith }

  Closes-free_op : Closes M (λ s. closing op_free s.op) (free_op M)
  unfolding free_op
  Closes-free_op =
      Closes-zoom M (λ s. s.op) (λ p s. record s { op = p }) (closing op_free)
        (close_handle M op_free "shim_op_free") (λ p s. refl)
        (Closes-close_handle M op_free "shim_op_free")

  Closes-close_mr : Closes M (λ s. closing mr_close s.mr) (close_mr M)
  unfolding close_mr
  Closes-close_mr =
      Closes-zoom M (λ s. s.mr) (λ p s. record s { mr = p }) (closing mr_close)
        (close_handle M mr_close "shim_mr_close") (λ p s. refl)
        (Closes-close_handle M mr_close "shim_mr_close")

  Keeps-free_op : Keeps M (λ s. closing mr_close s.mr ++ freeing s.bytes) (free_op M)
  unfolding free_op
  Keeps-free_op = record { at = λ s. refl }

  Keeps-close_mr_op : Keeps M (λ s. closing op_free s.op) (close_mr M)
  unfolding close_mr
  Keeps-close_mr_op = record { at = λ s. refl }

  Keeps-close_mr_bytes : Keeps M (λ s. freeing s.bytes) (close_mr M)
  unfolding close_mr
  Keeps-close_mr_bytes = record { at = λ s. refl }

  -- On every slot, `Slot::close` carries out the plan of the slot up to its first failure, and
  -- what it leaves is the plan that a second call would carry out.
  pub Closes-close : Closes M slot_plan (close M)
  unfolding close
  Closes-close =
      Closes-seq M (λ s. closing op_free s.op) (λ s. closing mr_close s.mr ++ freeing s.bytes)
        (free_op M) (close_mr M >> clear M) Closes-free_op
        (Closes-seq M (λ s. closing mr_close s.mr) (λ s. freeing s.bytes) (close_mr M) (clear M)
          Closes-close_mr Closes-clear Keeps-close_mr_bytes Keeps-clear_mr)
        Keeps-free_op
        (Keeps-seq M (λ s. closing op_free s.op) (close_mr M) (clear M) Keeps-close_mr_op
          Keeps-clear_op)
