-- ===== src/Transport/Connection/Setup.antt =====
-- src/transport.rs: `Connection::empty`, `initialize`, `from_request` and `connect`.
use rdma_prototype.Base.{ℕ, zero, suc, ◌+◌, true, false, leb, if◌then◌else◌}
use rdma_prototype.Outcome.{
  Outcome, ok, err, panic, unfinished, message, rejection, Result, value, error,
}
use rdma_prototype.Ffi.{
  Ptr, null, domain_open, eq_open, cq_open, endpoint_open, mr_register, op_create, access_send,
  access_recv, accept, connect as connect_call,
}
use rdma_prototype.Machine.{
  Machine, At, Env, Exec, pure, raise, attempt, ◌>>=◌, ◌>>◌, in_env, zoom, update, me, check,
  construct, do_status, do_now, do_sleep,
}
use rdma_prototype.Transport.Handle.{open_into}
use rdma_prototype.Transport.Slot
use rdma_prototype.Transport.Slot.{Slot, Bytes}
use rdma_prototype.Transport.Info.{Info}
use rdma_prototype.Transport.Fabric.{Fabric}
use rdma_prototype.Transport.Request
use rdma_prototype.Transport.Request.{Request}
use rdma_prototype.Transport.Listener.{millisecond}
use rdma_prototype.Transport.Connection.{Connection, tx_id, rx_id, unwrap, post_recv, poll}
use rdma_prototype.Transport.Connection.Close

-- The locals of `from_request`: the borrowed request, and the connection under construction.
pub record Setup : Type 0 where
  pub request : Request
  pub conn : Connection

module _ (M : Machine) where
  -- `Connection::empty`
  unfoldable pub empty : Fabric → Exec (Env M) Connection
  unfolding Slot.empty
  empty fabric = do
    tx ← Slot.empty M
    rx ← Slot.empty M
    pure (record {
      fabric = fabric;
      domain = null;
      eq = null;
      tx_cq = null;
      rx_cq = null;
      ep = null;
      tx = tx;
      rx = rx;
      cm_started = false;
      closing = false;
    })

  -- One round of the `for` loop over the two slots.
  unfoldable pub register : Ptr → ℕ → ℕ → Exec (At M Slot) Unit
  unfolding open_into unwrap
  register domain access id = do
    slot ← me M
    bytes ← raise (unwrap slot.bytes)
    open_into M (λ p s. record s { mr = p }) (mr_register domain bytes.ptr bytes.len access)
        "shim_mr_register"
    open_into M (λ p s. record s { op = p }) (op_create id) "shim_op_create"

  -- The opens of `initialize`, in their order.
  unfoldable pub open_resources : Info → Exec (At M Connection) Unit
  unfolding open_into register
  open_resources info = do
    c ← me M
    open_into M (λ p c. record c { domain = p }) (domain_open c.fabric.raw info.raw)
        "shim_domain_open"
    open_into M (λ p c. record c { eq = p }) (eq_open c.fabric.raw) "shim_eq_open"
    c ← me M
    open_into M (λ p c. record c { tx_cq = p }) (cq_open c.domain 16) "TX CQ open"
    open_into M (λ p c. record c { rx_cq = p }) (cq_open c.domain 16) "RX CQ open"
    c ← me M
    open_into M (λ p c. record c { ep = p }) (endpoint_open c.domain info.raw c.eq c.tx_cq c.rx_cq)
        "shim_endpoint_open"
    zoom M (λ c. c.tx) (λ s c. record c { tx = s }) (register c.domain access_send tx_id)
    zoom M (λ c. c.rx) (λ s c. record c { rx = s }) (register c.domain access_recv rx_id)

  -- The `while !self.post_recv()?` loop, on fuel.
  unfoldable pub post_until : ℕ → ℕ → Exec (At M Connection) Unit
  post_until zero deadline = raise unfinished
  post_until (suc fuel) deadline = do
    posted ← post_recv M
    if posted then pure tt else do
      t ← in_env M (do_now M)
      if leb deadline t
          then raise (err (message "receive submission timeout"))
          else do poll M; in_env M (do_sleep M millisecond); post_until fuel deadline

  unfoldable pub initialize : ℕ → Info → ℕ → Exec (At M Connection) Unit
  unfolding open_resources post_until
  initialize fuel info timeout = do
    open_resources info
    start ← in_env M (do_now M)
    post_until fuel (start + timeout)

  -- The closure `setup`.
  unfoldable pub accept_request : ℕ → ℕ → Exec (At M Setup) Unit
  unfolding initialize check
  accept_request fuel timeout = do
    s ← me M
    zoom M (λ s. s.conn) (λ c s. record s { conn = c }) (initialize fuel s.request.info timeout)
    s ← me M
    code ← in_env M (do_status M (accept s.conn.ep))
    raise (check M code "shim_accept")
    update M (λ s. record s { request = record s.request { handled = true } })
    update M (λ s. record s { conn = record s.conn { cm_started = true } })

  -- What `from_request` returns once `setup` failed: the request is rejected first.
  unfoldable pub refuse : Result Unit → Exec (At M Setup) Unit
  unfolding Request.reject
  refuse (value _) = pure tt
  refuse (error e) = do
    rejected ←
        attempt (zoom M (λ s. s.request) (λ r s. record s { request = r }) (Request.reject M))
    elim rejected [ value _ ↦ raise (err e) | error x ↦ raise (err (rejection e x)) ]

  -- The end of `from_request`: the connection is moved out, or dropped.
  unfoldable pub leave : Outcome Unit → At M Setup → Outcome Connection × At M Request
  unfolding Close.drop
  leave r s =
      let dropped = Close.drop M s.self.conn s.env in
      elim r [
        | ok _ ↦ (ok s.self.conn, record { self = s.self.request; env = s.env })
        | err e ↦ (err e, record { self = s.self.request; env = dropped })
        | panic ↦ (panic, record { self = s.self.request; env = dropped })
        | unfinished ↦ (unfinished, record { self = s.self.request; env = dropped })
      ]

  -- `from_request` with its local `conn`.
  unfoldable pub set_up : ℕ → ℕ → Connection → Exec (At M Request) Connection
  unfolding accept_request refuse leave
  set_up fuel timeout conn s =
      let locals : Setup = record { request = s.self; conn = conn } in
      let start : At M Setup = record { self = locals; env = s.env } in
      let (r, t) = (attempt (accept_request fuel timeout) >>= refuse) start in leave r t

  unfoldable pub from_request : ℕ → ℕ → Exec (At M Request) Connection
  unfolding set_up empty
  from_request fuel timeout = do
    request ← me M
    if request.handled
        then raise (err (message "connection request is already handled"))
        else do conn ← in_env M (empty request.listener.fabric); set_up fuel timeout conn

  unfoldable pub start_connect : ℕ → Info → ℕ → Exec (At M Connection) Unit
  unfolding initialize check
  start_connect fuel info timeout = do
    initialize fuel info timeout
    c ← me M
    code ← in_env M (do_status M (connect_call c.ep info.raw))
    raise (check M code "shim_connect")
    update M (λ c. record c { cm_started = true })

  unfoldable pub connect : ℕ → Fabric → Info → ℕ → Exec (Env M) Connection
  unfolding start_connect empty construct Close.drop
  connect fuel fabric info timeout = do
    conn ← empty fabric
    construct M conn (Close.drop M) (start_connect fuel info timeout)
