-- ===== src/Transport/Fabric.antt =====
-- src/transport.rs: `Fabric`.
use rdma_prototype.Ffi.{Ptr, null, fabric_open, fabric_close}
use rdma_prototype.Machine.{Machine, At, Env, Exec, zoom, construct, drop_by}
use rdma_prototype.Transport.Handle.{close_handle, open_into}
use rdma_prototype.Transport.Info.{Info}

pub record Fabric : Type 0 where
  pub raw : Ptr

module _ (M : Machine) where
  unfoldable pub close : Exec (At M Fabric) Unit
  unfolding close_handle
  close =
      zoom M (λ f. f.raw) (λ p f. record f { raw = p })
        (close_handle M fabric_close "shim_fabric_close")

  unfoldable pub drop : Fabric → Env M → Env M
  unfolding close
  drop = drop_by M close

  -- `Fabric::open`
  unfoldable pub open_fabric : Info → Exec (Env M) Fabric
  unfolding drop open_into construct
  open_fabric info =
      construct M (record { raw = null }) drop
        (open_into M (λ p f. record f { raw = p }) (fabric_open info.raw) "shim_fabric_open")
