-- ===== src/Shim/Listening.antt =====
-- naive/fabric_shim.c: `shim_eq_poll`.
use rdma_prototype.Base.{
  ℕ, ℤ, pos, negsuc, List, [], Option, none, some, ◌||◌, is_zero, is_negative, ltb, take, ◌==◌,
  if◌then◌else◌,
}
use rdma_prototype.Ffi.{Ptr, null, ConnectEvent, event_connreq, event_connected, event_shutdown}
use rdma_prototype.Outcome.{ok}
use rdma_prototype.Machine.{Exec, pure, ◌>>=◌, ◌>>◌}
use rdma_prototype.Libfabric.{
  Libfabric, FiInfo, EqEvent, EqEntry, EqError, einval, enomem, eagain, eavail, eio, enosys,
  fi_connreq, fi_connected, fi_shutdown_event, fi_other_event,
}
use rdma_prototype.Shim.Objects.{Store, eqs, infos, at, insert, calloc}
use rdma_prototype.Shim.Polling.{same_code}
use rdma_prototype.Shim.Querying.{free_info}

-- `memset(out, 0, sizeof(*out))`
abbrev pub no_event : ConnectEvent
no_event = record {
  event_type = 0;
  source = 0;
  info = null;
  err = pos 0;
  prov_err = pos 0;
  message = [];
}

-- SHIM_EVENT_ERROR of naive/fabric_shim.h
abbrev pub event_error : ℕ
event_error = 4

-- `fid != NULL ? (uintptr_t)fid->context : 0`
abbrev pub source_of : Option Ptr → ℕ
source_of none = 0
source_of (some context) = context

-- `(size_t)ret` of a code that is not negative
abbrev pub size_of : ℤ → ℕ
size_of (pos n) = n
size_of (negsuc n) = 0

module _ (L : Libfabric) where
  abbrev pub do_eq_read : Ptr → Exec (Store L) (ℤ × EqEvent × EqEntry)
  do_eq_read raw s =
      let (code, event, entry, w) = L.eq_read raw s.world in
      (ok (code, event, entry), record s { world = w })

  abbrev pub do_eq_readerr : Ptr → Exec (Store L) (ℤ × EqError)
  do_eq_readerr raw s =
      let (code, error, w) = L.eq_readerr raw s.world in (ok (code, error), record s { world = w })

  -- The text of an error, cut to the size of the buffer.
  abbrev pub eq_message : Ptr → EqError → List ℕ
  eq_message raw error = elim (L.eq_strerror raw error) [
    | none ↦ take 255 (L.strerror error.err)
    | some text ↦ take 255 text
  ]

  -- The branch of -FI_EAVAIL.
  unfoldable pub failed_event : Ptr → Exec (Store L) (ℤ × ConnectEvent)
  failed_event raw = do
    failed ← do_eq_readerr raw
    let code = failed.0
    let error = failed.1
    if same_code code (L.code eagain) || is_zero code
        then pure (pos 0, no_event)
        else if is_negative code
        then pure (code, no_event)
        else pure (
          pos 1,
          record no_event {
            event_type = event_error;
            source = source_of error.context;
            err = error.err;
            prov_err = error.prov_errno;
            message = eq_message raw error;
          },
        )

  -- `if (entry.info != NULL) fi_freeinfo(entry.info);`
  abbrev pub drop_info : Option FiInfo → Exec (Store L) Unit
  drop_info none = pure tt
  drop_info (some info) = free_info L info.raw

  -- The `switch`. The wrapper is freed on every way but the first.
  unfoldable pub received_event :
      Ptr → EqEvent → Option FiInfo → ConnectEvent → Exec (Store L) (ℤ × ConnectEvent)
  received_event request fi_connreq none out = pure (L.code eio, out)
  received_event request fi_connreq (some info) out = do
    insert L (infos L) request info
    pure (pos 1, record out { info = request; event_type = event_connreq })
  received_event request fi_connected info out = do
    drop_info info
    pure (pos 1, record out { event_type = event_connected })
  received_event request fi_shutdown_event info out = do
    drop_info info
    pure (pos 1, record out { event_type = event_shutdown })
  received_event request fi_other_event info out = do drop_info info; pure (L.code enosys, out)

  unfoldable pub eq_poll : Ptr → Exec (Store L) (ℤ × ConnectEvent)
  eq_poll eq = if eq == null then pure (L.code einval, no_event) else do
    request ← calloc L
    if request == null then pure (L.code enomem, no_event) else do
      q ← at L (eqs L) eq
      read ← do_eq_read q.raw
      let ret = read.0
      if same_code ret (L.code eavail)
          then failed_event q.raw
          else if same_code ret (L.code eagain) || is_zero ret
          then pure (pos 0, no_event)
          else if is_negative ret
          then pure (ret, no_event)
          else if ltb (size_of ret) L.cm_entry_size
          then pure (L.code eio, no_event)
          else received_event request read.1 read.2.info
              (record no_event { source = source_of read.2.context })
