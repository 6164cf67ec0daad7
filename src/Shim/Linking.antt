-- ===== src/Shim/Linking.antt =====
-- src/ffi.rs: the function of naive/fabric_shim.c behind each `extern` function.
use rdma_prototype.Base.{ℤ}
use rdma_prototype.Ffi as Ffi
use rdma_prototype.Ffi.{Ptr, Open, Status}
use rdma_prototype.Machine.{Exec}
use rdma_prototype.Libfabric.{Libfabric}
use rdma_prototype.Shim.Objects.{Store}
use rdma_prototype.Shim.Opening as Opening
use rdma_prototype.Shim.Closing as Closing
use rdma_prototype.Shim.Connecting as Connecting
use rdma_prototype.Shim.Posting as Posting
use rdma_prototype.Shim.Querying as Querying

module _ (L : Libfabric) where
  abbrev pub shim_open : Open → Exec (Store L) (ℤ × Ptr)
  shim_open (Ffi.info_open node service domain_name is_source) =
      Querying.info_open L node service domain_name is_source
  shim_open (Ffi.fabric_open info) = Opening.fabric_open L info
  shim_open (Ffi.domain_open fabric info) = Opening.domain_open L fabric info
  shim_open (Ffi.eq_open fabric) = Opening.eq_open L fabric
  shim_open (Ffi.cq_open domain capacity) = Opening.cq_open L domain capacity
  shim_open (Ffi.listener_open fabric info eq) = Connecting.listener_open L fabric info eq
  shim_open (Ffi.endpoint_open domain info eq tx rx) = Opening.endpoint_open L domain info eq tx rx
  shim_open (Ffi.mr_register domain buf capacity access) =
      Opening.mr_register L domain buf capacity access
  shim_open (Ffi.op_create id) = Opening.op_create L id

  abbrev pub shim_status : Status → Exec (Store L) ℤ
  shim_status (Ffi.print_info ip domain) = Querying.print_info L ip domain
  shim_status (Ffi.connect ep info) = Connecting.connect L ep info
  shim_status (Ffi.accept ep) = Connecting.accept L ep
  shim_status (Ffi.reject listener info) = Connecting.reject L listener info
  shim_status (Ffi.post_send ep op mr len buf) = Posting.post_send L ep op mr len buf
  shim_status (Ffi.post_recv ep op mr len buf) = Posting.post_recv L ep op mr len buf
  shim_status (Ffi.shutdown ep) = Posting.shutdown L ep
  shim_status (Ffi.op_free op) = Closing.op_free L op
  shim_status (Ffi.endpoint_close ep) = Closing.endpoint_close L ep
  shim_status (Ffi.listener_close listener) = Connecting.listener_close L listener
  shim_status (Ffi.mr_close mr) = Closing.mr_close L mr
  shim_status (Ffi.cq_close cq) = Closing.cq_close L cq
  shim_status (Ffi.eq_close eq) = Closing.eq_close L eq
  shim_status (Ffi.domain_close domain) = Closing.domain_close L domain
  shim_status (Ffi.fabric_close fabric) = Closing.fabric_close L fabric
