-- ===== src/Libfabric.antt =====
-- libfabric as naive/fabric_shim.c calls it. It is not part of the repository: its functions are
-- the fields of an interface over an abstract world.
use rdma_prototype.Base.{ℕ, ℤ, List, Option, Bool}
use rdma_prototype.Ffi.{Ptr}

-- The error codes of fi_errno.h that the shim names.
pub data Errno : Type 0 where
  einval ebusy enomem eagain eavail eacces eio enosys enodata eopbadstate : Errno

-- The flags that an endpoint binds a queue with: 0, `FI_TRANSMIT`, `FI_RECV`.
pub data Binding : Type 0 where
  plain transmit recv : Binding

-- The calls that make an object and return its `fid`.
pub data RawOpen : Type 0 where
  fi_fabric : Ptr → RawOpen
  fi_domain fi_endpoint fi_passive_ep : Ptr → Ptr → RawOpen
  fi_eq_open : Ptr → RawOpen
  fi_cq_open : Ptr → ℕ → RawOpen
  fi_mr_reg : Ptr → Ptr → ℕ → ℕ → RawOpen

-- The calls that return a code.
pub data RawCall : Type 0 where
  fi_listen fi_close fi_enable fi_accept fi_shutdown : Ptr → RawCall
  fi_ep_bind : Ptr → Ptr → Binding → RawCall
  fi_connect fi_pep_bind fi_reject : Ptr → Ptr → RawCall
  fi_send fi_recv : Ptr → Ptr → ℕ → Ptr → Ptr → RawCall

-- `fi_cq_err_entry`
pub record CqError : Type 0 where
  pub op_context : Ptr
  pub err : ℤ
  pub prov_errno : ℤ

-- The constants of its headers that the shim names.
pub data Flag : Type 0 where
  fi_msg fi_ep_msg fi_sockaddr_in fi_source fi_mr_local fi_mr_allocated : Flag

-- What the shim reads of a `fi_info` that it keeps: `unsupported` says that its mode has a bit besides
-- FI_CONTEXT and FI_LOCAL_MR.
pub record FiInfo : Type 0 where
  pub raw : Ptr
  pub handle : Ptr
  pub dest_addr : Ptr
  pub unsupported : Bool
  pub tx_op_flags : ℕ
  pub rx_op_flags : ℕ
  pub max_msg_size : ℕ

-- A `fi_info` of the list that a query returns, at its address; a NULL pointer is none.
pub record Candidate : Type 0 where
  pub raw : Ptr
  pub caps : ℕ
  pub addr_format : ℕ
  pub src_addr : Ptr
  pub src_addrlen : ℕ
  pub dest_addr : Ptr
  pub dest_addrlen : ℕ
  -- `fabric_attr` with its `prov_name`, `domain_attr` with its `name`, `ep_attr` with its `type`
  pub fabric_attr : Option (Option (List ℕ))
  pub domain_attr : Option (Option (List ℕ))
  pub ep_attr : Option ℕ
  -- whether `tx_attr` and `rx_attr` are there
  pub tx_attr : Bool
  pub rx_attr : Bool

-- The fields of the hints that the shim fills in.
pub record Hints : Type 0 where
  pub caps : ℕ
  pub ep_type : ℕ
  pub addr_format : ℕ
  pub mr_mode : ℕ
  pub prov_name : List ℕ
  pub domain_name : Option (List ℕ)

-- The arguments of `fi_getinfo`.
pub record Query : Type 0 where
  pub version : ℕ
  pub node : List ℕ
  pub service : Option (List ℕ)
  pub flags : ℕ
  pub hints : Hints

pub data EqEvent : Type 0 where
  fi_connreq fi_connected fi_shutdown_event fi_other_event : EqEvent

-- `fi_eq_cm_entry` with the `context` of its `fid`, and `fi_eq_err_entry`
pub record EqEntry : Type 0 where
  pub context : Option Ptr
  pub info : Option FiInfo

pub record EqError : Type 0 where
  pub context : Option Ptr
  pub err : ℤ
  pub prov_errno : ℤ

pub record Libfabric : Type 1 where
  pub World : Type 0
  -- `-FI_EINVAL` and so on
  pub code : Errno → ℤ
  -- whether `calloc` returns memory
  pub has_memory : World → Bool × World
  pub open_raw : RawOpen → World → ℤ × Ptr × World
  pub call : RawCall → World → ℤ × World
  -- the code, and `op_context` and `len` of the entry
  pub cq_read : Ptr → World → ℤ × Ptr × ℕ × World
  pub cq_readerr : Ptr → World → ℤ × CqError × World
  pub cq_strerror : Ptr → ℤ → Option (List ℕ)
  pub strerror : ℤ → List ℕ
  pub version : ℕ
  pub flag : Flag → ℕ
  -- the address of new hints, or NULL
  pub alloc_info : World → Ptr × World
  pub free_info : Ptr → World → World
  pub get_info : Query → World → ℤ × List Candidate × World
  pub dup_info : Ptr → World → Option FiInfo × World
  pub eq_read : Ptr → World → ℤ × EqEvent × EqEntry × World
  pub eq_readerr : Ptr → World → ℤ × EqError × World
  pub eq_strerror : Ptr → EqError → Option (List ℕ)
  -- `sizeof(struct fi_eq_cm_entry)`
  pub cm_entry_size : ℕ
