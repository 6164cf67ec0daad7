-- ===== src/Ffi.antt =====
-- src/ffi.rs: handles, constants, the two structs that polling fills, and one constructor for each
-- `extern` function that takes part in the transport, with its arguments.
use rdma_prototype.Base.{ℕ, ℤ, List, Bool, Option, ◌==◌}

-- The address in a `*mut T`; opaque handles are never dereferenced.
abbrev pub Ptr : Type 0
Ptr = ℕ

-- `ptr::null_mut()`
abbrev pub null : Ptr
null = 0

abbrev pub is_null : Ptr → Bool
is_null p = p == null

abbrev pub access_send : ℕ
access_send = 1

abbrev pub access_recv : ℕ
access_recv = 2

abbrev pub event_connreq : ℕ
event_connreq = 1

abbrev pub event_connected : ℕ
event_connected = 2

abbrev pub event_shutdown : ℕ
event_shutdown = 3

abbrev pub completion_send : ℕ
completion_send = 1

abbrev pub completion_recv : ℕ
completion_recv = 2

pub record Completion : Type 0 where
  pub op_id : ℕ
  pub flags : ℕ
  pub len : ℕ
  pub err : ℤ
  pub prov_err : ℤ
  pub message : List ℕ

pub record ConnectEvent : Type 0 where
  pub event_type : ℕ
  pub source : ℕ
  pub info : Ptr
  pub err : ℤ
  pub prov_err : ℤ
  pub message : List ℕ

-- The functions with an `out` handle. A C string is the list of its bytes without the final NUL.
pub data Open : Type 0 where
  info_open : List ℕ → List ℕ → Option (List ℕ) → Bool → Open
  fabric_open : Ptr → Open
  domain_open : Ptr → Ptr → Open
  eq_open : Ptr → Open
  cq_open : Ptr → ℕ → Open
  listener_open : Ptr → Ptr → Ptr → Open
  endpoint_open : Ptr → Ptr → Ptr → Ptr → Ptr → Open
  mr_register : Ptr → Ptr → ℕ → ℕ → Open
  op_create : ℕ → Open

-- The functions that return only a code. `print_info` is called by src/fabric.rs.
pub data Status : Type 0 where
  print_info : List ℕ → Option (List ℕ) → Status
  connect : Ptr → Ptr → Status
  accept : Ptr → Status
  reject : Ptr → Ptr → Status
  post_send post_recv : Ptr → Ptr → Ptr → ℕ → Ptr → Status
  shutdown : Ptr → Status
  op_free endpoint_close listener_close mr_close cq_close : Ptr → Status
  eq_close domain_close fabric_close : Ptr → Status
