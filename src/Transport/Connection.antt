-- ===== src/Transport/Connection.antt =====
-- src/transport.rs: the fields of `Connection`, and the methods that use an open one.
pub mod Close
pub mod Setup
pub mod Post
pub mod Keeping
pub mod Teardown
pub mod Buffers
pub mod Dropping
pub mod Polling
pub mod Worlds
use rdma_prototype.Base.{
  ℕ, List, [], ◌∷◌, ◌++◌, Bool, true, false, ◌||◌, not, Option, none, some, ltb, leb, ◌==◌, length,
  take, is_zero, if◌then◌else◌,
}
use rdma_prototype.State.{Event, connected, received, sent, peer_closed}
use rdma_prototype.Outcome.{Outcome, ok, err, panic, message, connection_event}
use rdma_prototype.Ffi.{
  Ptr, null, is_null, Completion, ConnectEvent, post_send, post_recv as recv_call, event_connected,
  event_shutdown, completion_send, completion_recv,
}
use rdma_prototype.Machine.{
  Machine, At, Env, Exec, pure, raise, ◌>>=◌, ◌>>◌, in_env, update, me, check, do_status, do_load,
  do_store,
}
use rdma_prototype.Transport.Poll.{poll_eq, poll_cq}
use rdma_prototype.Transport.Slot
use rdma_prototype.Transport.Slot.{Slot, Bytes}
use rdma_prototype.Transport.Fabric.{Fabric}

pub record Connection : Type 0 where
  pub fabric : Fabric
  pub domain : Ptr
  pub eq : Ptr
  pub tx_cq : Ptr
  pub rx_cq : Ptr
  pub ep : Ptr
  pub tx : Slot
  pub rx : Slot
  pub cm_started : Bool
  pub closing : Bool

abbrev pub tx_id : ℕ
tx_id = 1

abbrev pub rx_id : ℕ
rx_id = 2

-- `Option::unwrap`
unfoldable pub unwrap : {A : Type 0} → Option A → Outcome A
unwrap none = panic
unwrap (some a) = ok a

-- `&mut bytes[..n]`, which panics beyond the end of the buffer.
unfoldable pub front : Bytes → ℕ → Outcome Unit
front bytes n = if ltb bytes.len n then panic else ok tt

-- `ensure_open`
unfoldable pub ensure_open : Connection → Outcome Unit
ensure_open c =
    if is_null c.ep || c.closing then err (message "connection is closing or closed") else ok tt

abbrev pub set_tx_pending : Bool → Connection → Connection
set_tx_pending b c = record c { tx = record c.tx { pending = b } }

abbrev pub set_rx_pending : Bool → Connection → Connection
set_rx_pending b c = record c { rx = record c.rx { pending = b } }

-- The events of two parts, in the order in which they are pushed.
abbrev pub both : {S : Type 0} → Exec S (List Event) → Exec S (List Event) → Exec S (List Event)
both m n = do first ← m; second ← n; pure (first ++ second)

module _ (M : Machine) where
  unfoldable pub post_recv : Exec (At M Connection) Bool
  unfolding check ensure_open unwrap
  post_recv = do
    c ← me M
    raise (ensure_open c)
    if c.rx.pending then raise (err (message "receive slot is already in flight")) else do
      bytes ← raise (unwrap c.rx.bytes)
      ret ← in_env M (do_status M (recv_call c.ep c.rx.op c.rx.mr bytes.len bytes.ptr))
      if not (is_zero (M.error_is_again ret))
          then pure false
          else do raise (check M ret "shim_post_recv"); update M (set_rx_pending true); pure true

  unfoldable pub send : List ℕ → Exec (At M Connection) Bool
  unfolding check ensure_open unwrap front
  send text = do
    c ← me M
    raise (ensure_open c)
    if c.tx.pending then raise (err (message "send slot is already in flight")) else do
      bytes ← raise (unwrap c.tx.bytes)
      if ltb bytes.len (length text)
          then raise (err (message "message exceeds send buffer capacity"))
          else do
            raise (front bytes (length text))
            in_env M (do_store M bytes.ptr text)
            ret ← in_env M (do_status M (post_send c.ep c.tx.op c.tx.mr (length text) bytes.ptr))
            if not (is_zero (M.error_is_again ret)) then pure false else do
              raise (check M ret "shim_post_send")
              update M (set_tx_pending true)
              pure true

  -- The three parts of `poll`: what each does with its completion or event, and the events pushed.
  unfoldable pub tx_done : Option Completion → Exec (At M Connection) (List Event)
  tx_done none = pure []
  tx_done (some done) = do
    c ← me M
    if not c.tx.pending || not (done.op_id == tx_id) || not (done.flags == completion_send)
        then raise (err (message "unexpected TX completion"))
        else do update M (set_tx_pending false); pure (sent ∷ [])

  unfoldable pub rx_done : Option Completion → Exec (At M Connection) (List Event)
  unfolding unwrap
  rx_done none = pure []
  rx_done (some done) = do
    c ← me M
    if not c.rx.pending || not (done.op_id == rx_id) || not (done.flags == completion_recv)
        then raise (err (message "unexpected RX completion"))
        else do
          update M (set_rx_pending false)
          bytes ← raise (unwrap c.rx.bytes)
          if ltb bytes.len done.len
              then raise (err (message "RX length exceeds buffer capacity"))
              else do
                text ← in_env M (do_load M bytes.ptr)
                pure (received (take done.len text) ∷ [])

  unfoldable pub eq_event : Option ConnectEvent → Exec (At M Connection) (List Event)
  eq_event none = pure []
  eq_event (some event) =
      if event.event_type == event_connected
      then pure (connected ∷ [])
      else if event.event_type == event_shutdown
      then pure (peer_closed ∷ [])
      else raise (err (connection_event event.event_type))

  unfoldable pub poll_tx : Exec (At M Connection) (List Event)
  unfolding poll_cq tx_done
  poll_tx = do c ← me M; done ← in_env M (poll_cq M c.tx_cq); tx_done done

  unfoldable pub poll_rx : Exec (At M Connection) (List Event)
  unfolding poll_cq rx_done
  poll_rx = do c ← me M; done ← in_env M (poll_cq M c.rx_cq); rx_done done

  unfoldable pub poll_connection : Exec (At M Connection) (List Event)
  unfolding poll_eq eq_event
  poll_connection = do c ← me M; event ← in_env M (poll_eq M c.eq); eq_event event

  unfoldable pub poll : Exec (At M Connection) (List Event)
  unfolding ensure_open poll_tx poll_rx poll_connection
  poll = do c ← me M; raise (ensure_open c); both poll_tx (both poll_rx poll_connection)
